-- ===== src/Tests/Streams.antt =====
-- Single streams: pkg/protocol/stream_impl.go.
use atlax.Base.{◌≡◌, refl, List, [], ◌∷◌, ◌++◌, arith}
use atlax.Base.Int.{pos}
use atlax.Protocol.Stream.{
  StreamSession, closed, read, close, deliver, remote_close, reset, new_stream_session, open_stream,
}
use atlax.Protocol.Stream.Calls.{Call, reads, closes, delivers, remote_closes, resets, step, run}
use atlax.Protocol.Stream.Lifecycle.{Inv, run-open_stream-Inv}
use atlax.Protocol.Stream.Delivery.{delivered, received, received-append-buffer}

abbrev fresh : StreamSession
unfolding open_stream new_stream_session
fresh = open_stream (new_stream_session 3 (pos 100))

-- Data, the peer's FIN, a read, the local FIN, and a reset that comes too late.
abbrev polite : List Call
polite = delivers (1 ∷ 2 ∷ 3 ∷ []) ∷ remote_closes ∷ reads 2 ∷ closes ∷ resets ∷ []

polite_closed : (run fresh polite).state ≡ closed
unfolding fresh run step read close deliver remote_close reset
polite_closed = refl

run-open_stream-Inv_example : Inv (run (open_stream (new_stream_session 3 (pos 100))) polite)
run-open_stream-Inv_example = run-open_stream-Inv 3 (pos 100) polite

abbrev reading : List Call
reading = delivers (1 ∷ 2 ∷ 3 ∷ []) ∷ reads 2 ∷ delivers (4 ∷ []) ∷ remote_closes ∷ reads 1 ∷ []

received-append-buffer_example :
    received fresh reading ++ (run fresh reading).read_buf ≡ fresh.read_buf ++ delivered reading
received-append-buffer_example = received-append-buffer fresh reading (ground arith)
