-- ===== src/Thread/Tests.antt =====
-- The theorem on threads at a concrete history.
use ryan_network_library.Prelude.{ℕ, ◌≤◌, ◌≡◌, refl, true, List, [], ◌∷◌, arith}
use ryan_network_library.Thread.{
  Thread, new_thread, start, post, wait, call_func, join, joined_behind, starts, posts_tid, waits,
  calls_func, joins, returns, Steps, here, next, waiting, running, joined_it, gone, posted,
  history_lem,
}

abbrev digit : ℕ → List ℕ
digit n = n ∷ []

abbrev fresh : Thread
fresh = new_thread digit 3 [] 77

-- Started, run and joined.
abbrev over : Thread
over = joined_behind (join (call_func (wait (post (start fresh)))))

over-Steps : Steps fresh over
unfolding new_thread start post wait call_func join joined_behind
over-Steps =
    let a = start fresh in
    let b = post a in
    let c = wait b in
    let d = call_func c in
    next
      (next
        (next
          (next (next (next here (starts fresh refl)) (posts_tid a refl))
            (waits b refl (omega arith)))
          (calls_func c refl))
        (joins d refl))
      (returns (join d) refl refl)

history_lem_example :
    (over.owner ≡ running → over.tid ≡ over.id)
    × (over.calls ≤ 1)
    × (over.owner ≡ joined_it → over.calls ≡ 1)
    × (over.owner ≡ waiting → (u : Thread) × Steps over u × (u.owner ≡ running))
    × (over.owner ≡ gone → over.place ≡ posted → over.detached ≡ true)
history_lem_example = history_lem digit 3 [] 77 over over-Steps
