-- ===== src/Http/Tests.antt =====
-- The theorems on requests and responses at concrete texts.
use ryan_network_library.Prelude.{
  ℕ, ◌+◌, ◌/◌, ◌%◌, ◌≡◌, refl, Bool, true, false, not, ◌&&◌, some, List, [], ◌∷◌, ◌++◌, arith,
  length, replicate, ◌==◌,
}
use ryan_network_library.Buffer.{Buffer, readable_bytes, writable_bytes}
use ryan_network_library.Buffer.Layout.{IsValid, contents}
use ryan_network_library.Http.Request.{post, method_string, new_request}
use ryan_network_library.Http.Context.{expect_request_line, got_all, parse_request}
use ryan_network_library.Http.Lines.{Lacks, request_line, with_line}
use ryan_network_library.Http.RoundTrip.{
  Header, header_line, header_lines, IsHeader, request_text, with_headers, parse_request_lem,
}
use ryan_network_library.Http.Ending.{IsRest, parse_request_ends}
use ryan_network_library.Http.Messages.{on_message_forgets}
use ryan_network_library.Http.Context.{Parsed}
use ryan_network_library.Http.Request.{HttpRequest}
use ryan_network_library.Http.Server.{on_message, HttpResponse, pieces}
use ryan_network_library.Prelude.{if◌then◌else◌}
use ryan_network_library.Buffer.Fd.{wrote, received, capacity}
use ryan_network_library.Channel.{is_writing}
use ryan_network_library.TcpConnection.{Conn, start, connected, disconnecting}
use ryan_network_library.TcpConnection.Stream.{IsSynced, stream}
use ryan_network_library.TcpConnection.Lifecycle.{shutdowns}
use ryan_network_library.Http.Service.{IsRequest, receive, receive_lem, answer_text}
use ryan_network_library.TcpConnection.Runs.{run}
use ryan_network_library.TcpConnection.Drain.{writables}
use ryan_network_library.Http.Exchange.{exchange_lem}

lacks : ℕ → List ℕ → Bool
lacks c [] = true
lacks c (x ∷ xs) = not (x == c) && lacks c xs

lacks-Lacks : (c : ℕ) (xs : List ℕ) → lacks c xs ≡ true → Lacks c xs
unfolding lacks
lacks-Lacks c [] e = tt
lacks-Lacks c (x ∷ xs) e = (ground arith, lacks-Lacks c xs (ground arith))

-- "/a" with "?k", the header "Host: me", and "hi" behind the request.
abbrev path : List ℕ
path = b'/' ∷ b'a' ∷ []

abbrev query : List ℕ
query = b'?' ∷ b'k' ∷ []

abbrev host : Header
host = (b'H' ∷ b'o' ∷ b's' ∷ b't' ∷ [], b'm' ∷ b'e' ∷ [])

abbrev text : List ℕ
text = request_text post path query (host ∷ []) (b'h' ∷ b'i' ∷ [])

host-IsHeader : IsHeader host
unfolding lacks
host-IsHeader = record {
  no_colon = lacks-Lacks b':' host.0 refl;
  field_line = lacks-Lacks 13 host.0 refl;
  value_line = lacks-Lacks 13 host.1 refl;
  trimmed = refl;
}

abbrev message : Buffer
message = record {
  buffer = replicate 8 0 ++ text;
  reader_index = 8;
  writer_index = 8 + length text;
}

message-IsValid : IsValid message
unfolding request_text request_line header_lines header_line method_string
message-IsValid = omega arith

contents-message : contents message ≡ text
unfolding request_text request_line header_lines header_line method_string
contents-message = refl

parse_request_lem_example :
    (b' : Buffer) × (parse_request 3 5
        (record { state = expect_request_line; request = new_request })
        message
      ≡ some (record {
        ok = true;
        context = record {
          state = got_all;
          request =
              with_headers
                (host ∷ [])
                (record (with_line post path query new_request) { receive_time = 5 });
        };
        buffer = b';
      }))
    × IsValid b'
    × (contents b' ≡ b'h' ∷ b'i' ∷ [])
unfolding lacks
parse_request_lem_example =
    parse_request_lem post path query (host ∷ []) (b'h' ∷ b'i' ∷ []) 3 5 new_request message
      message-IsValid contents-message refl (lacks-Lacks b' ' (path ++ query) refl)
      (lacks-Lacks 13 (path ++ query) refl) (lacks-Lacks b'?' path refl) refl (host-IsHeader, tt)
      (omega arith)

abbrev digits : ℕ → List ℕ
digits n = (b'0' + n / 100 % 10) ∷ (b'0' + n / 10 % 10) ∷ (b'0' + n % 10) ∷ []

abbrev ok_response : HttpResponse
ok_response = record {
  headers = (b'A' ∷ [], b'B' ∷ []) ∷ [];
  status_code = 200;
  status_message = b'O' ∷ b'K' ∷ [];
  close_connection = false;
  body = b'h' ∷ b'i' ∷ [];
}

parse_request_ends_example :
    (p : Parsed) × (parse_request 1000 5
        (record { state = expect_request_line; request = new_request })
        message
      ≡ some p)
    × IsRest message p.buffer
unfolding request_text request_line header_lines header_line method_string
parse_request_ends_example =
    parse_request_ends 1000 5 (record { state = expect_request_line; request = new_request })
      message tt message-IsValid (omega arith)

abbrev answer : HttpRequest → HttpResponse → HttpResponse
answer req r = ok_response

-- The line of the request, and a part of its header.
abbrev cut_message : Buffer
cut_message = record {
  buffer = replicate 8 0 ++ (request_line post path query ++ (13 ∷ (10 ∷ b'H' ∷ b'o' ∷ [])));
  reader_index = 8;
  writer_index = 8 + length (request_line post path query ++ (13 ∷ (10 ∷ b'H' ∷ b'o' ∷ [])));
}

cut_message-IsValid : IsValid cut_message
unfolding request_line method_string
cut_message-IsValid = omega arith

contents-cut_message :
    contents cut_message ≡ request_line post path query ++ (13 ∷ (10 ∷ b'H' ∷ b'o' ∷ []))
unfolding request_line method_string
contents-cut_message = refl

on_message_forgets_example :
    (b' : Buffer) × (on_message digits answer 9 5 cut_message ≡ some ([], b'))
    × IsValid b'
    × (contents b' ≡ b'H' ∷ b'o' ∷ [])
unfolding lacks
on_message_forgets_example =
    on_message_forgets digits answer post path query (b'H' ∷ b'o' ∷ []) 7 5 cut_message
      cut_message-IsValid contents-cut_message refl (lacks-Lacks b' ' (path ++ query) refl)
      (lacks-Lacks 13 (path ++ query) refl) (lacks-Lacks b'?' path refl) refl
      ((λ e. absurd (omega arith), tt))

abbrev closing_answer : HttpRequest → HttpResponse → HttpResponse
closing_answer req r = record ok_response { close_connection = true }

abbrev fresh : Buffer
fresh = record { buffer = replicate 1032 0; reader_index = 8; writer_index = 8 }

-- A connection that has nothing to write and an empty input buffer.
abbrev client : Conn
client = record start {
  state = connected;
  events = record { reading = true; writing = false };
  input = fresh;
  output = fresh;
}

target-IsRequest : IsRequest post path query (host ∷ [])
unfolding lacks
target-IsRequest = record {
  known = refl;
  spaces = lacks-Lacks b' ' (path ++ query) refl;
  ends = lacks-Lacks 13 (path ++ query) refl;
  marks = lacks-Lacks b'?' path refl;
  query_mark = refl;
  all_headers = (host-IsHeader, tt);
}

client-IsSynced : IsSynced client
client-IsSynced = record { valid = omega arith; flag = λ _. refl }

receive_lem_example :
    (c' : Conn) × (receive digits closing_answer 3 5 (λ _. wrote 4) (received text) client
      ≡ some c')
    × IsSynced c'
    × (stream c' ≡ answer_text digits closing_answer post path query (host ∷ []) 5)
    × (contents c'.input ≡ b'h' ∷ b'i' ∷ [])
    × (c'.state ≡ disconnecting)
    × (shutdowns c'.actions ≡ 0 + (if not (is_writing c'.events) then 1 else 0))
unfolding lacks pieces capacity readable_bytes request_text request_line header_lines header_line
    method_string writable_bytes
receive_lem_example =
    receive_lem digits closing_answer post path query (host ∷ []) text (b'h' ∷ b'i' ∷ []) 3 5
      (λ _. wrote 4) client target-IsRequest client-IsSynced refl (omega arith) (omega arith)
      (omega arith) (omega arith) refl (omega arith) (omega arith) (omega arith) (omega arith)

-- The rest of the response goes out in two writes.
exchange_lem_example :
    (c' : Conn) × (c'' : Conn) × (receive digits closing_answer 3 5
        (λ _. wrote 4)
        (received text)
        client
      ≡ some c')
    × (run (writables (1000 ∷ 30000 ∷ [])) c' ≡ some c'')
    × (c''.sent ≡ answer_text digits closing_answer post path query (host ∷ []) 5)
    × (contents c'.input ≡ b'h' ∷ b'i' ∷ [])
    × (c''.state ≡ disconnecting)
    × (shutdowns c''.actions ≡ 1)
unfolding lacks pieces capacity readable_bytes request_text request_line header_lines header_line
    method_string writable_bytes
exchange_lem_example =
    exchange_lem digits closing_answer post path query (host ∷ []) text (b'h' ∷ b'i' ∷ []) 3 5
      (λ _. wrote 4) (1000 ∷ 30000 ∷ []) client target-IsRequest client-IsSynced refl (omega arith)
      (omega arith) (omega arith) (omega arith) refl (omega arith) (omega arith) (omega arith)
      (omega arith) refl refl (omega arith)
