-- ===== src/Protocol/Stream/Delivery.antt =====
-- The bytes that the peer sends are read in order, none lost and none twice.
use mathlib.Core.List.{append_assoc, append-nil}
use atlax.Base.{
  ℕ, ◌≡◌, ◌≢◌, refl, ap, sym, ◌∙◌, Bytes, List, [], ◌∷◌, ◌++◌, take-append-drop, All, arith,
}
use atlax.Protocol.Stream.{
  StreamSession, ReadResult, read_bytes, eof, read_waits, read, read_buffer, write, close, deliver,
  remote_close,
}
use atlax.Protocol.Stream.Calls.{
  Call, reads, writes, closes, delivers, remote_closes, resets, after_read, step, run,
}

-- The bytes that a call brings in, and those that it hands to the reader.
abbrev pub brought : Call → Bytes
brought (delivers d) = d
brought (reads n) = []
brought (writes p) = []
brought closes = []
brought remote_closes = []
brought resets = []

abbrev bytes_of : ReadResult → Bytes
bytes_of (read_bytes b s) = b
bytes_of eof = []
bytes_of read_waits = []

pub handed : StreamSession → Call → Bytes
handed s (reads n) = bytes_of (read s n)
handed s _ = []

pub delivered : List Call → Bytes
delivered [] = []
delivered (c ∷ cs) = brought c ++ delivered cs

pub received : StreamSession → List Call → Bytes
unfolding handed
received s [] = []
received s (c ∷ cs) = handed s c ++ received (step s c) cs

read_split :
    (s : StreamSession) (n : ℕ) (b : Bytes)
    → s.read_buf ≡ b
    → bytes_of (read_buffer s n b) ++ (after_read s (read_buffer s n b)).read_buf ≡ s.read_buf
unfolding read_buffer
read_split s n [] e = ground arith
read_split s n (x ∷ b) e = take-append-drop n (x ∷ b) ∙ sym e

step_bytes :
    (s : StreamSession) (c : Call)
    → c ≢ resets
    → handed s c ++ (step s c).read_buf ≡ s.read_buf ++ brought c
unfolding handed step
step_bytes s (reads n) h =
    unfold read in read_split s n s.read_buf refl ∙ sym (append-nil s.read_buf)
step_bytes s (writes p) h = unfold write in ground (arith, append-nil s.read_buf)
step_bytes s closes h = unfold close in ground (arith, append-nil s.read_buf)
step_bytes s (delivers d) h = unfold deliver in refl
step_bytes s remote_closes h = unfold remote_close in ground (arith, append-nil s.read_buf)
step_bytes s resets h = absurd (h refl)

-- As long as the stream is not reset: what `Read` calls returned, followed by what is still buffered,
-- is what was buffered at first followed by what was delivered since.
pub received-append-buffer :
    (s : StreamSession) (cs : List Call)
    → All (λ c. c ≢ resets) cs
    → received s cs ++ (run s cs).read_buf ≡ s.read_buf ++ delivered cs
unfolding received delivered run
received-append-buffer s [] h = sym (append-nil s.read_buf)
received-append-buffer s (c ∷ cs) h =
    append_assoc (handed s c) (received (step s c) cs) (run (step s c) cs).read_buf
    ∙ ap (◌++◌ (handed s c)) (received-append-buffer (step s c) cs h.1)
    ∙ sym (append_assoc (handed s c) (step s c).read_buf (delivered cs))
    ∙ ap (λ b. b ++ delivered cs) (step_bytes s c h.0)
    ∙ append_assoc s.read_buf (brought c) (delivered cs)
