-- ===== src/LogStream/Texts.antt =====
-- Text put into a stream.
use ryan_network_library.Prelude.{
  ◌+◌, ◌≡◌, refl, false, some, arith, length, take, length-take, le→ltb_false,
}
use ryan_network_library.FixedBuffer.{
  FixedBuffer, IsValid, to_string, has_more_than, append, avail-room,
}
use ryan_network_library.LogStream.{put_buffer, put_string}

-- A buffer put into a stream whose buffer has the same size, which is that of an int: nothing is put,
-- whatever either holds, since the text of a buffer is its whole storage.
pub put_buffer_drops :
    (buf b : FixedBuffer)
    → IsValid b
    → length buf.data_ ≡ length b.data_
    → put_buffer buf b ≡ some b
unfolding put_buffer put_string append to_string
put_buffer_drops buf b v same =
    let whole : length (take (length buf.data_) buf.data_) ≡ length b.data_ =
      omega (arith, length-take (length buf.data_) buf.data_) in
    let full : has_more_than (length (take (length buf.data_) buf.data_)) b ≡ false =
      le→ltb_false (b.curr + length (take (length buf.data_) buf.data_)) (length b.data_)
        (omega arith) in
    rw (avail-room (length (take (length buf.data_) buf.data_)) b v (omega (arith, v.size)), full)
      refl
