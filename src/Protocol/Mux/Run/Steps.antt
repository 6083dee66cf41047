-- ===== src/Protocol/Mux/Run/Steps.antt =====
-- Each event of a mux session keeps ownership and accounting.
use atlax.Base.{
  ℕ, ◌+◌, ◌*◌, ◌^◌, ◌<◌, ◌≡◌, refl, ap, Bytes, Bool, true, false, List, [], ◌∷◌, Option, none, some,
  leb, length, nat_eq, inl, inr, if_cases, arith, Bool-cases,
}
use atlax.Base.Map.{lookup}
use atlax.Protocol.Frame.{Frame, has_flag, flag_fin}
use atlax.Protocol.Stream
use atlax.Protocol.Stream.{StreamSession, is_finished}
use atlax.Protocol.Stream.Lifecycle
use atlax.Protocol.Mux.Table.{Table, Role, start_id, owns_id}
use atlax.Protocol.Mux.Session.{
  MuxSession, MuxConfig, open_stream_with_payload, Wakeup, on_ack, on_ctx_done, on_closed,
  cleanup_pending_open, remove_stream, remove_found, Finished, finish_open, after_finish,
  accept_from, after_local_reset,
}
use atlax.Protocol.Mux.Handlers.{
  ack_pending, accept_peer_open, after_accept, admit_peer, data_to, deliver_object, close_to,
}
use atlax.Protocol.Mux.Run.{
  Event, opens, finishes, accepts, goes_away, pings, closes_stream, resets_stream, reads_stream,
  writes_stream, drains, sends_frame, receives, after_opening, after_dequeue, read_object,
  write_object, step, run,
}
use atlax.Protocol.Mux.Run
use atlax.Protocol.Mux.Run.Inv.{
  IsSound, put-IsSound, remote_close-IsSound, add_local-IsSound, add_peer-IsSound,
  remove_reset-IsSound,
}

module _ (r : Role) (c : MuxConfig) where
  -- The session has configuration `c`, it is not closed, and its table is sound.
  abbrev pub Sound : MuxSession → Type 0
  Sound m = ((m.config ≡ c) × (m.close_ch ≡ false)) × IsSound r c.max_concurrent_streams m.table

  pub open-Sound :
      (m : MuxSession) (payload : Bytes)
      → start_id r + 2 * c.max_concurrent_streams + 2 < 2 ^ 32
      → Sound m
      → Sound (after_opening m (open_stream_with_payload m payload))
  unfolding open_stream_with_payload
  open-Sound m payload b (e, v) = elim (Bool-cases m.going_away) [
    | inl g ↦ rw g (e, v)
    | inr g ↦ elim (Bool-cases (leb m.config.max_concurrent_streams (length m.table.streams))) [
      | inl f ↦ rw (g, f) (e, v)
      | inr f ↦
          rw (g, f)
            (e, add_local-IsSound r _ m.table m.config.initial_stream_window b (ground arith) v)
    ]
  ]

  remove_found-Sound :
      (m : MuxSession) (id : ℕ) (o : Option ℕ)
      → lookup id m.table.streams ≡ o
      → Sound m
      → Sound (remove_found m id o)
  unfolding remove_found
  remove_found-Sound m id none n v = v
  remove_found-Sound m id (some h) n (e, v) = (e, remove_reset-IsSound r _ m.table id h n v)

  pub finish-Sound :
      (m : MuxSession) (h id : ℕ) (w : Wakeup)
      → Sound m
      → Sound (after_finish m (finish_open m h id w))
  unfolding finish_open remove_stream
  finish-Sound m h id on_ack v =
      if_cases (λ (x : Finished). Sound (after_finish m x)) (m.acked h) _ _ v v
  finish-Sound m h id on_ctx_done v =
      remove_found-Sound (cleanup_pending_open m id) id (lookup id m.table.streams) refl v
  finish-Sound m h id on_closed v =
      if_cases (λ (x : Finished). Sound (after_finish m x)) m.close_ch _ _ v v

  pub accept-Sound :
      (m : MuxSession) (l : List ℕ) → Sound m → Sound (Run.after_accept m (accept_from m l))
  unfolding accept_from
  accept-Sound m [] v = v
  accept-Sound m (h ∷ l) v = v

  pub after_reset-Sound :
      (m : MuxSession) (id code : ℕ) (t : Table) (sends : Bool)
      → (m.config ≡ c) × (m.close_ch ≡ false)
      → IsSound r c.max_concurrent_streams t
      → Sound (after_local_reset m id code (t, sends))
  unfolding after_local_reset
  after_reset-Sound m id code t true e v = (e, v)
  after_reset-Sound m id code t false e v = (e, v)

  pub close_to-Sound :
      (m : MuxSession) (id : ℕ) (o : Option ℕ)
      → lookup id m.table.streams ≡ o
      → Sound m
      → Sound (close_to m id o)
  unfolding close_to
  close_to-Sound m id none n v = v
  close_to-Sound m id (some h) n (e, v) = (e, remote_close-IsSound r _ m.table h id n v)

  deliver_facts :
      (s : StreamSession) (b : Bytes)
      → Lifecycle.Inv s
      → Lifecycle.Inv (Stream.deliver s b)
        × ((Stream.deliver s b).id ≡ s.id)
        × ((Stream.deliver s b).state ≡ s.state)
  deliver_facts s b v = unfold Stream.deliver in (ground arith, refl, refl)

  deliver-IsSound :
      (t : Table) (h : ℕ) (b : Bytes) (o : Option StreamSession)
      → t.heap h ≡ o
      → IsSound r c.max_concurrent_streams t
      → IsSound r c.max_concurrent_streams (deliver_object t h b o)
  unfolding deliver_object
  deliver-IsSound t h [] o e v = v
  deliver-IsSound t h (x ∷ b) none e v = v
  deliver-IsSound t h (x ∷ b) (some s) e v =
      let (w, i, q) = deliver_facts s (x ∷ b) (v.owners.stream_inv h s e) in
      put-IsSound r _ t h s (Stream.deliver s (x ∷ b)) v e i (ap is_finished q) w

  streams-deliver_object :
      (t : Table) (h : ℕ) (b : Bytes) (o : Option StreamSession)
      → (deliver_object t h b o).streams ≡ t.streams
  unfolding deliver_object
  streams-deliver_object t h [] o = refl
  streams-deliver_object t h (x ∷ b) none = refl
  streams-deliver_object t h (x ∷ b) (some s) = refl

  pub data_to-Sound :
      (m : MuxSession) (f : Frame) (o : Option ℕ)
      → lookup f.stream_id m.table.streams ≡ o
      → Sound m
      → Sound (data_to m f o)
  unfolding data_to
  data_to-Sound m f none n v = v
  data_to-Sound m f (some h) n (e, v) =
      let t = deliver_object m.table h f.payload (m.table.heap h) in
      let w = deliver-IsSound m.table h f.payload (m.table.heap h) refl v in
      (
        e,
        if_cases (IsSound r c.max_concurrent_streams) (has_flag f.flags flag_fin) _ _
            (remote_close-IsSound r _ t h f.stream_id
              (rw (streams-deliver_object m.table h f.payload (m.table.heap h)) n) w)
            w,
      )

  pub ack-Sound : (m : MuxSession) (id : ℕ) (o : Option ℕ) → Sound m → Sound (ack_pending m id o)
  unfolding ack_pending
  ack-Sound m id none v = v
  ack-Sound m id (some h) v = v

  admit-Sound :
      (m : MuxSession) (f : Frame) (d : Bool)
      → lookup f.stream_id m.table.streams ≡ none
      → owns_id m.table f.stream_id ≡ false
      → Sound m
      → Sound (admit_peer m f d)
  unfolding admit_peer
  admit-Sound m f d n o (e, v) =
      let w =
        add_peer-IsSound r _ m.table f.stream_id m.config.initial_stream_window f.payload n o v in
      if_cases Sound d _ _ (e, w) (e, w)

  pub peer_open-Sound :
      (m : MuxSession) (f : Frame) (d : Bool) (o : Option ℕ)
      → lookup f.stream_id m.table.streams ≡ o
      → Sound m
      → Sound (after_accept (accept_peer_open m f.stream_id o) f d)
  unfolding accept_peer_open after_accept
  peer_open-Sound m f d (some h) n v = v
  peer_open-Sound m f d none n v = elim (Bool-cases (owns_id m.table f.stream_id)) [
    | inl own ↦ rw own v
    | inr peer ↦ rw peer (admit-Sound m f d n peer v)
  ]
