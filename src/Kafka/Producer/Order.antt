-- ===== src/Kafka/Producer/Order.antt =====
-- A new transaction stands last in the queue of transactions in flight.
use bottledwater_pg.Prelude.{
  ℕ, zero, suc, ◌+◌, ◌-◌, ◌%◌, ◌<◌, ◌≤◌, ◌≡◌, refl, ap, false, [], ◌∷◌, ◌++◌, update, arith,
}
use bottledwater_pg.Kafka.Producer.{
  TransactionInfo, Context, xact_list_len, xact_list_length, xact_list_full,
}
use bottledwater_pg.Kafka.Producer.Callbacks.{open_xact}
use bottledwater_pg.Kafka.Producer.Window.{window, in_flight, IsValid}
use bottledwater_pg.Kafka.Producer.Account.{length-open_xact, next_outside}

window-append :
    (f : ℕ → TransactionInfo) (t n : ℕ)
    → t < xact_list_len
    → window f t (suc n) ≡ window f t n ++ (f ((t + n) % xact_list_len) ∷ [])
window-append f t zero h = let here : (t + 0) % xact_list_len ≡ t = omega arith in rw here refl
window-append f t (suc n) h =
    let next : ((t + 1) % xact_list_len + n) % xact_list_len ≡ (t + suc n) % xact_list_len =
      omega arith in
    let rest = window-append f ((t + 1) % xact_list_len) n (omega arith) in
    ap (λ w. f t ∷ w) (rw next at rest)

window-update :
    (f : ℕ → TransactionInfo) (t n s : ℕ) (x : TransactionInfo)
    → t < xact_list_len
    → s < xact_list_len
    → n ≤ (s + xact_list_len - t) % xact_list_len
    → window (update f s x) t n ≡ window f t n
window-update f t zero s x ht hs h = refl
window-update f t (suc n) s x ht hs h =
    ground (arith, window-update f ((t + 1) % xact_list_len) n s x (omega arith) hs (omega arith))

window-opened :
    (f : ℕ → TransactionInfo) (t n s : ℕ) (x : TransactionInfo)
    → t < xact_list_len
    → (t + n) % xact_list_len ≡ s
    → n ≤ (s + xact_list_len - t) % xact_list_len
    → window (update f s x) t (n + 1) ≡ window f t n ++ (x ∷ [])
window-opened f t n s x ht last h =
    let hs : s < xact_list_len = omega arith in
    let here : update f s x s ≡ x = ground arith in
    let ends = rw (last, here) at (window-append (update f s x) t n ht) in
    let same = window-update f t n s x ht hs h in
    let next : n + 1 ≡ suc n = omega arith in rw next (rw same at ends)

module _ {Schema : Type 0} where
  place_of_next :
      (c : Context Schema)
      → IsValid c
      → xact_list_full c ≡ false
      → (c.xact_tail + xact_list_length c) % xact_list_len ≡ (c.xact_head + 1) % xact_list_len
  unfolding xact_list_length
  place_of_next c v room = omega (arith, v.head_in, v.tail_in)

  -- With room in the buffer, a begin message appends the new transaction, without events and not
  -- committed, to the queue of transactions in flight, and leaves those before it as they are.
  pub in_flight-open_xact :
      (xid : ℕ) (c : Context Schema)
      → IsValid c
      → xact_list_full c ≡ false
      → in_flight (open_xact xid c)
        ≡ in_flight c
          ++ (record { xid = xid; recvd_events = 0; pending_events = 0; commit_lsn = 0 } ∷ [])
  in_flight-open_xact xid c v room = rw (length-open_xact xid c v room) (
      unfold open_xact in
      window-opened c.xact_list c.xact_tail (xact_list_length c) _ _ v.tail_in
        (place_of_next c v room) (next_outside c v room))
