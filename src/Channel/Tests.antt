-- ===== src/Channel/Tests.antt =====
-- The theorems on channels at concrete flags.
use ryan_network_library.Prelude.{◌≡◌, true, false}
use ryan_network_library.Channel.{
  Interest, Ready, Handlers, on_close, on_error, on_read, on_write, mask, enable_reading,
  disable_reading, enable_writing, disable_writing, disable_all, is_none_event, is_writing,
  is_reading, handle_event, calls, mask_ops, handle_event_calls,
}

abbrev both : Interest
both = record { reading = true; writing = true }

abbrev hung_up : Ready
hung_up = record {
  readable = false;
  priority = true;
  writable = false;
  failed = true;
  hung_up = true;
}

abbrev all_set : Handlers
all_set = record {
  close_callback = true;
  error_callback = true;
  read_callback = true;
  write_callback = false;
}

mask_ops_example :
    (mask (enable_reading both) ≡ 7)
    × (mask (disable_reading both) ≡ 4)
    × (mask (enable_writing both) ≡ 7)
    × (mask (disable_writing both) ≡ 3)
    × (mask (disable_all both) ≡ 0)
    × (is_none_event both ≡ false)
    × (is_writing both ≡ true)
    × (is_reading both ≡ true)
mask_ops_example = mask_ops both

handle_event_calls_example :
    (calls on_close (handle_event true true all_set hung_up) ≡ 1)
    × (calls on_error (handle_event true true all_set hung_up) ≡ 1)
    × (calls on_read (handle_event true true all_set hung_up) ≡ 1)
    × (calls on_write (handle_event true true all_set hung_up) ≡ 0)
handle_event_calls_example = handle_event_calls true true all_set hung_up
