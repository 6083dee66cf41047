-- ===== src/Protocol/Mux/Run/Rounds.antt =====
-- Resets, window updates, reads, writes and drain rounds keep ownership and accounting.
use atlax.Base.{
  ℕ, ◌≡◌, refl, sym, ap, ◌∙◌, Bytes, Bool, true, false, List, [], ◌∷◌, Option, none, some, ◌==◌,
  nat_eq, if_cases, if_of_false, arith,
}
use atlax.Base.Int.{ℤ, ◌+ℤ◌}
use atlax.Base.Map.{lookup}
use atlax.Protocol.Frame.{Frame}
use atlax.Protocol.Stream
use atlax.Protocol.Stream.{StreamSession, is_finished}
use atlax.Protocol.Stream.Lifecycle
use atlax.Protocol.Stream.Calls.{after_read, after_write}
use atlax.Protocol.Mux.Table.{Table, Role, put, reset_stream}
use atlax.Protocol.Mux.Session.{MuxSession, MuxConfig, local_reset, reset_open, after_local_reset}
use atlax.Protocol.Mux.Drain.{
  drain_stream, drain_object, drain_chunk, flush_and_fin, flush_chunks, enqueue_stream_data,
}
use atlax.Protocol.Mux.Handlers.{
  reset_code, reset_to, remove_if_present, window_payload, update_window, grow_window, grow_object,
}
use atlax.Protocol.Mux.Run.{read_object, write_object}
use atlax.Protocol.Mux.Run.Steps.{Sound, after_reset-Sound}
use atlax.Protocol.Mux.Table.Ending.{reset_owned}
use atlax.Protocol.Mux.Run.Inv.{IsSound, put-IsSound, reset-IsSound}

module _ (r : Role) (c : MuxConfig) where
  -- A change of a stream that leaves its id and the flags of its life alone.
  same_life-IsSound :
      (t : Table) (h : ℕ) (s s' : StreamSession)
      → IsSound r c.max_concurrent_streams t
      → t.heap h ≡ some s
      → s'.id ≡ s.id
      → s'.state ≡ s.state
      → s'.closed_ch ≡ s.closed_ch
      → s'.reset_once ≡ s.reset_once
      → s'.local_close_once ≡ s.local_close_once
      → IsSound r c.max_concurrent_streams (put t h s')
  same_life-IsSound t h s s' v e i q a b l = put-IsSound r _ t h s s' v e i (ap is_finished q) (
      let w = v.owners.stream_inv h s e in
      record {
        opened = rw q w.opened;
        closed_ch_final = a ∙ w.closed_ch_final ∙ ap is_finished (sym q);
        reset_ran = ground (arith, w.reset_ran);
        local_close_ran = rw (q, l) w.local_close_ran;
      })

  reset_open-Sound :
      (m : MuxSession) (h code : ℕ) (o : Option StreamSession)
      → m.table.heap h ≡ o
      → Sound r c m
      → Sound r c (reset_open m h code o)
  unfolding reset_open
  reset_open-Sound m h code none e v = v
  reset_open-Sound m h code (some s) e (q, v) = if_of_false (Sound r c) _ _ q.1 (
      after_reset-Sound r c m s.id code (reset_stream m.table h).0 (reset_stream m.table h).1 q
        (reset-IsSound r _ m.table h v))

  pub local_reset-Sound :
      (m : MuxSession) (h code : ℕ) → Sound r c m → Sound r c (local_reset m h code)
  unfolding local_reset
  local_reset-Sound m h code v = reset_open-Sound m h code (m.table.heap h) refl v

  -- After the reset of a stream of the map the map does not have it.
  after_reset_table :
      (m : MuxSession) (id code : ℕ) (p : Table × Bool)
      → (after_local_reset m id code p).table ≡ p.0
  unfolding after_local_reset
  after_reset_table m id code (t, true) = refl
  after_reset_table m id code (t, false) = refl

  lookup-local_reset :
      (m : MuxSession) (h id code : ℕ) (o : Option StreamSession)
      → m.table.heap h ≡ o
      → lookup id m.table.streams ≡ some h
      → Sound r c m
      → lookup id (reset_open m h code o).table.streams ≡ none
  unfolding reset_open
  lookup-local_reset m h id code none e n (q, v) =
      let (s, e', i, l) = v.owners.owned_live id h n in absurd (ground arith)
  lookup-local_reset m h id code (some s) e n (q, v) =
      if_of_false (λ (m' : MuxSession). lookup id m'.table.streams ≡ none) _ _ q.1
        (rw (after_reset_table m s.id code (reset_stream m.table h))
          (reset_owned m.table h id n v.owners).1)

  pub reset_to-Sound :
      (m : MuxSession) (f : Frame) (o : Option ℕ)
      → lookup f.stream_id m.table.streams ≡ o
      → Sound r c m
      → Sound r c (reset_to m f o)
  unfolding reset_to remove_if_present local_reset
  reset_to-Sound m f none n v = v
  reset_to-Sound m f (some h) n v =
      rw (lookup-local_reset m h f.stream_id (reset_code f.payload) (m.table.heap h) refl n v)
        (local_reset-Sound m h (reset_code f.payload) v)

  grow_object-IsSound :
      (t : Table) (h : ℕ) (n : ℤ) (o : Option StreamSession)
      → t.heap h ≡ o
      → IsSound r c.max_concurrent_streams t
      → IsSound r c.max_concurrent_streams (grow_object t h n o)
  unfolding grow_object
  grow_object-IsSound t h n none e v = v
  grow_object-IsSound t h n (some s) e v =
      same_life-IsSound t h s (record s { recv_window = s.recv_window +ℤ n }) v e refl refl refl
        refl refl

  grow-IsSound :
      (t : Table) (n : ℤ) (o : Option ℕ)
      → IsSound r c.max_concurrent_streams t
      → IsSound r c.max_concurrent_streams (grow_window t n o)
  unfolding grow_window
  grow-IsSound t n none v = v
  grow-IsSound t n (some h) v = grow_object-IsSound t h n (t.heap h) refl v

  window-Sound : (m : MuxSession) (id : ℕ) (n : ℤ) → Sound r c m → Sound r c (update_window m id n)
  unfolding update_window
  window-Sound m id n (q, v) =
      if_cases (Sound r c) (id == 0) _ _ (q, v)
        (q, grow-IsSound m.table n (lookup id m.table.streams) v)

  pub window_payload-Sound :
      (m : MuxSession) (id : ℕ) (p : Bytes) → Sound r c m → Sound r c (window_payload m id p)
  unfolding window_payload
  window_payload-Sound m id (a ∷ b ∷ x ∷ d ∷ rest) v = window-Sound m id _ v
  window_payload-Sound m id [] v = v
  window_payload-Sound m id (a ∷ []) v = v
  window_payload-Sound m id (a ∷ b ∷ []) v = v
  window_payload-Sound m id (a ∷ b ∷ x ∷ []) v = v

  flush-Sound :
      (m : MuxSession) (id : ℕ) (l : List Bytes) → Sound r c m → Sound r c (flush_chunks m id l)
  unfolding flush_chunks
  flush-Sound m id [] v = v
  flush-Sound m id (b ∷ l) v = flush-Sound (enqueue_stream_data m id b) id l v

  drain_chunk-Sound :
      (m : MuxSession) (h : ℕ) (s : StreamSession) (l : List Bytes)
      → m.table.heap h ≡ some s
      → Sound r c m
      → Sound r c (drain_chunk m h s l)
  unfolding drain_chunk
  drain_chunk-Sound m h s [] e v = v
  drain_chunk-Sound m h s (b ∷ l) e (q, v) =
      (q, same_life-IsSound m.table h s (record s { write_out = l }) v e refl refl refl refl refl)

  drain_object-Sound :
      (m : MuxSession) (h : ℕ) (fin : Bool) (o : Option StreamSession)
      → m.table.heap h ≡ o
      → Sound r c m
      → Sound r c (drain_object m h fin o)
  unfolding drain_object flush_and_fin
  drain_object-Sound m h fin none e v = v
  drain_object-Sound m h true (some s) e (q, v) =
      if_cases (Sound r c) s.fin_ch _ _
        (flush-Sound
          (record m { table = put m.table h (record s { write_out = []; fin_ch = false }) }) s.id
          s.write_out
          (
            q,
            same_life-IsSound m.table h s (record s { write_out = []; fin_ch = false }) v e refl
                refl refl refl refl,
          ))
        (q, v)
  drain_object-Sound m h false (some s) e v = drain_chunk-Sound m h s s.write_out e v

  pub drain-Sound :
      (m : MuxSession) (h : ℕ) (fin : Bool) → Sound r c m → Sound r c (drain_stream m h fin)
  unfolding drain_stream
  drain-Sound m h fin v = drain_object-Sound m h fin (m.table.heap h) refl v

  pub read-IsSound :
      (t : Table) (h n : ℕ) (o : Option StreamSession)
      → t.heap h ≡ o
      → IsSound r c.max_concurrent_streams t
      → IsSound r c.max_concurrent_streams (read_object t h n o)
  unfolding read_object
  read-IsSound t h n none e v = v
  read-IsSound t h n (some s) e v =
      let (i, q, a, b, l) = Lifecycle.read-SameLife s n in
      same_life-IsSound t h s (after_read s (Stream.read s n)) v e i q a b l

  pub write-IsSound :
      (t : Table) (h : ℕ) (p : Bytes) (o : Option StreamSession)
      → t.heap h ≡ o
      → IsSound r c.max_concurrent_streams t
      → IsSound r c.max_concurrent_streams (write_object t h p o)
  unfolding write_object
  write-IsSound t h p none e v = v
  write-IsSound t h p (some s) e v =
      let (i, q, a, b, l) = Lifecycle.write-SameLife s p in
      same_life-IsSound t h s (after_write s (Stream.write s p)) v e i q a b l
