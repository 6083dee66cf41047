-- ===== src/Protocol/Mux/Run/Inv.antt =====
-- What holds of a mux session after any events.
use mathlib.Core.Path.{subst}
use atlax.Base.{
  ℕ, ◌+◌, ◌*◌, ◌^◌, ◌<◌, ◌≡◌, Bytes, true, false, [], none, some, length, nat_eq, arith,
}
use atlax.Base.Int.{ℤ}
use atlax.Base.Map.{lookup}
use atlax.Protocol.Stream
use atlax.Protocol.Stream.{StreamSession, is_finished}
use atlax.Protocol.Stream.Lifecycle
use atlax.Protocol.Mux.Table.{
  Table, Role, start_id, put, owns_id, remove_id, alloc_id, add_stream, close_stream,
  remote_close_stream, reset_stream, new_table,
}
use atlax.Protocol.Mux.Table.Inv.{
  Inv, put-Inv, retire-Inv, add_stream-Inv, alloc_id-Allocates, new_table-Inv,
}
use atlax.Protocol.Mux.Table.Ending.{
  close_stream-Inv, remote_close_stream-Inv, reset_stream-Inv, reset_facts, reset_removed,
}
use atlax.Protocol.Mux.Table.Accounts.{
  Accounts, put-Accounts, remove_id-Accounts, add_local-Accounts, add_peer-Accounts,
  close_stream-Accounts, remote_close_stream-Accounts, reset_stream-Accounts, new_table-Accounts,
}

-- Ownership and accounting together.
pub record IsSound (r : Role) (max : ℕ) (t : Table) : Type 0 where
  pub owners : Inv t
  pub accounts : Accounts r max t

module _ (r : Role) (max : ℕ) where
  pub put-IsSound :
      (t : Table) (h : ℕ) (s s' : StreamSession)
      → IsSound r max t
      → t.heap h ≡ some s
      → s'.id ≡ s.id
      → is_finished s'.state ≡ is_finished s.state
      → Lifecycle.Inv s'
      → IsSound r max (put t h s')
  put-IsSound t h s s' v e i f w = record {
    owners = put-Inv t h s s' v.owners e i f w;
    accounts = put-Accounts r max t h s' v.accounts;
  }

  pub close-IsSound : (t : Table) (h : ℕ) → IsSound r max t → IsSound r max (close_stream t h)
  close-IsSound t h v = record {
    owners = close_stream-Inv t h v.owners;
    accounts = close_stream-Accounts r max t h v.owners v.accounts;
  }

  pub remote_close-IsSound :
      (t : Table) (h id : ℕ)
      → lookup id t.streams ≡ some h
      → IsSound r max t
      → IsSound r max (remote_close_stream t id h)
  remote_close-IsSound t h id m v = record {
    owners = remote_close_stream-Inv t h id m v.owners;
    accounts = remote_close_stream-Accounts r max t h id m v.owners v.accounts;
  }

  pub reset-IsSound : (t : Table) (h : ℕ) → IsSound r max t → IsSound r max (reset_stream t h).0
  reset-IsSound t h v = record {
    owners = reset_stream-Inv t h v.owners;
    accounts = reset_stream-Accounts r max t h v.owners v.accounts;
  }

  pub add_local-IsSound :
      (t : Table) (w : ℤ)
      → start_id r + 2 * max + 2 < 2 ^ 32
      → length t.streams < max
      → IsSound r max t
      → IsSound r max (add_stream (alloc_id t).1 (alloc_id t).0 w [])
  add_local-IsSound t w b l v =
      let a = alloc_id-Allocates t (omega (arith, v.accounts.bounded)) v.owners in
      record {
        owners =
            add_stream-Inv (alloc_id t).1 (alloc_id t).0 w [] a.kept (rw a.same_streams a.unowned)
              a.unlisted (λ _. a.below_next);
        accounts = add_local-Accounts r max t w [] v.owners b l v.accounts;
      }

  pub add_peer-IsSound :
      (t : Table) (id : ℕ) (w : ℤ) (p : Bytes)
      → lookup id t.streams ≡ none
      → owns_id t id ≡ false
      → IsSound r max t
      → IsSound r max (add_stream t id w p)
  add_peer-IsSound t id w p e o v = record {
    owners =
        add_stream-Inv t id w p v.owners e (ground (arith, v.owners.free_unused id))
          (λ q. ground arith);
    accounts = add_peer-Accounts r max t id w p e o v.accounts;
  }

  pub retire-IsSound :
      (t : Table) (h : ℕ) (s s' : StreamSession) (id : ℕ)
      → IsSound r max t
      → t.heap h ≡ some s
      → s.id ≡ id
      → is_finished s.state ≡ false
      → s'.id ≡ s.id
      → is_finished s'.state ≡ true
      → Lifecycle.Inv s'
      → IsSound r max (remove_id (put t h s') id)
  retire-IsSound t h s s' id v e i l j f w =
      subst (λ k. IsSound r max (remove_id (put t h s') k)) i
        (record {
          owners = retire-Inv t h s s' v.owners e l j f w;
          accounts =
              remove_id-Accounts r max (put t h s') s.id h (v.owners.live_owned h s e l)
                (put-Accounts r max t h s' v.accounts);
        })

  -- `removeStream`: the object is reset after it left the map.
  pub remove_reset-IsSound :
      (t : Table) (id h : ℕ)
      → lookup id t.streams ≡ some h
      → IsSound r max t
      → IsSound r max (reset_stream (remove_id t id) h).0
  remove_reset-IsSound t id h m v =
      let (s, e, i, l) = v.owners.owned_live id h m in
      let (w, j, c) = reset_facts s (v.owners.stream_inv h s e) in
      rw (reset_removed t h id s e i)
        (retire-IsSound t h s (Stream.reset s).0 id v e i l j (ground arith) w)

  pub new_table-IsSound : IsSound r max (new_table r)
  new_table-IsSound = record { owners = new_table-Inv r; accounts = new_table-Accounts r max }
