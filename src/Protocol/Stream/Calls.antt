-- ===== src/Protocol/Stream/Calls.antt =====
-- Sequences of calls on a stream, in the order in which its mutex lets them through.
use atlax.Base.{ℕ, Bytes, List, [], ◌∷◌}
use atlax.Protocol.Stream.{
  StreamSession, ReadResult, read_bytes, eof, read_waits, read, WriteResult, written, stream_closed,
  write_waits, write, close, deliver, remote_close, reset,
}

-- What the user of a stream, and the muxer on behalf of the peer, can call on it.
pub data Call : Type 0 where
  reads : ℕ → Call
  writes : Bytes → Call
  closes : Call
  delivers : Bytes → Call
  remote_closes : Call
  resets : Call

abbrev pub after_read : StreamSession → ReadResult → StreamSession
after_read s (read_bytes b s') = s'
after_read s eof = s
after_read s read_waits = s

abbrev pub after_write : StreamSession → WriteResult → StreamSession
after_write s (written s') = s'
after_write s stream_closed = s
after_write s write_waits = s

unfoldable pub step : StreamSession → Call → StreamSession
step s (reads n) = after_read s (read s n)
step s (writes p) = after_write s (write s p)
step s closes = (close s).0
step s (delivers d) = deliver s d
step s remote_closes = remote_close s
step s resets = (reset s).0

unfoldable pub run : StreamSession → List Call → StreamSession
run s [] = s
run s (c ∷ cs) = run (step s c) cs
