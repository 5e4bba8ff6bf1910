-- ===== src/Kafka/Producer/Window.antt =====
-- The transactions in flight as a queue, oldest first, and what a checkpoint does to it.
use bottledwater_pg.Prelude.{
  ◌==◌, ℕ, zero, suc, ◌+◌, ◌-◌, ◌%◌, ◌<◌, ◌≡◌, ◌↔◌, refl, true, false, List, [], ◌∷◌, if◌then◌else◌,
  arith, Bool-cases, inl, inr,
}
use bottledwater_pg.Kafka.Producer.{
  TransactionInfo, Context, xact_list_len, is_complete, xact_list_length, xact_list_empty,
  checkpoint_tail, checkpoint_loop, maybe_checkpoint,
}

-- The `n` slots from index `t` on, going round.
abbrev pub window : (ℕ → TransactionInfo) → ℕ → ℕ → List TransactionInfo
window f t zero = []
window f t (suc n) = f t ∷ window f ((t + 1) % xact_list_len) n

-- When a transaction may be given up: Kafka has reported on all its events, and its commit has
-- arrived, or it is the snapshot's, whose commit is not waited for.
pub data Done (x : TransactionInfo) : Type 0 where
  committed : x.pending_events ≡ 0 → 0 < x.commit_lsn → Done x
  snapshot : x.pending_events ≡ 0 → x.xid ≡ 0 → Done x

-- What a checkpoint should do with the queue and the flushed position: transactions are given up
-- one after the other, each with its commit position, up to the first that may not be.
pub data Checkpoint : List TransactionInfo → ℕ → List TransactionInfo → ℕ → Type 0 where
  all_given : {lsn : ℕ} → Checkpoint [] lsn [] lsn
  stops :
      {x : TransactionInfo} {xs : List TransactionInfo} {lsn : ℕ}
      → ¬ Done x
      → Checkpoint (x ∷ xs) lsn (x ∷ xs) lsn
  gives_up :
      {x : TransactionInfo} {xs left : List TransactionInfo} {lsn last : ℕ}
      → Done x
      → Checkpoint xs x.commit_lsn left last
      → Checkpoint (x ∷ xs) lsn left last

is_done : (x : TransactionInfo) → is_complete x ≡ true → Done x
is_done x h = elim (Bool-cases (x.xid == 0)) [
  | inl first ↦ Done.snapshot (ground (arith, h)) (ground (arith, first))
  | inr streamed ↦ Done.committed (ground (arith, h)) (ground (arith, h, streamed))
]

not_done : (x : TransactionInfo) → is_complete x ≡ false → ¬ Done x
not_done x h (Done.committed p c) = absurd (ground (arith, h, p, c))
not_done x h (Done.snapshot p z) = absurd (ground (arith, h, p, z))

module _ {Schema : Type 0} where
  abbrev pub in_flight : Context Schema → List TransactionInfo
  in_flight c = window c.xact_list c.xact_tail (xact_list_length c)

  -- Both indices stand inside the array.
  pub record IsValid (c : Context Schema) : Type 0 where
    pub head_in : c.xact_head < xact_list_len
    pub tail_in : c.xact_tail < xact_list_len

  pub length-checkpoint_tail :
      (c : Context Schema) (k : ℕ)
      → IsValid c
      → xact_list_length c ≡ suc k
      → xact_list_length (checkpoint_tail c) ≡ k
  unfolding xact_list_length checkpoint_tail
  length-checkpoint_tail c k v e = omega arith

  pub checkpoint_tail-IsValid : (c : Context Schema) → IsValid c → IsValid (checkpoint_tail c)
  unfolding checkpoint_tail
  checkpoint_tail-IsValid c v = omega arith

  pub length-lt : (c : Context Schema) → xact_list_length c < xact_list_len
  unfolding xact_list_length
  length-lt c = omega arith

  pub empty_iff : (c : Context Schema) → (xact_list_empty c ≡ true) ↔ (xact_list_length c ≡ 0)
  unfolding xact_list_empty
  empty_iff c = (λ h. ground arith, λ h. ground arith)

  pub nonempty_iff : (c : Context Schema) → (xact_list_empty c ≡ false) ↔ (0 < xact_list_length c)
  unfolding xact_list_empty
  nonempty_iff c = (λ h. ground arith, λ h. ground arith)

  -- What a checkpoint leaves behind.
  pub record Drained (c c' : Context Schema) : Type 0 where
    pub valid : IsValid c'
    pub given : Checkpoint (in_flight c) c.stream.fsync_lsn (in_flight c') c'.stream.fsync_lsn
    pub list : c'.xact_list ≡ c.xact_list
    pub head : c'.xact_head ≡ c.xact_head
    pub queue : c'.queue ≡ c.queue
    pub recvd : c'.stream.recvd_lsn ≡ c.stream.recvd_lsn

  -- The first round, at a complete oldest transaction.
  Drained-step :
      (k : ℕ) (c c' : Context Schema)
      → xact_list_length c ≡ suc k
      → xact_list_length (checkpoint_tail c) ≡ k
      → is_complete (c.xact_list c.xact_tail) ≡ true
      → Drained (checkpoint_tail c) c'
      → Drained c c'
  unfolding checkpoint_tail
  Drained-step k c c' e e' done d = record {
    valid = d.valid;
    given = rw e (Checkpoint.gives_up (is_done (c.xact_list c.xact_tail) done) (rw e' at d.given));
    list = d.list;
    head = d.head;
    queue = d.queue;
    recvd = d.recvd;
  }

  Drained-here :
      (k : ℕ) (c : Context Schema)
      → IsValid c
      → xact_list_length c ≡ suc k
      → is_complete (c.xact_list c.xact_tail) ≡ false
      → Drained c c
  Drained-here k c v e more = record {
    valid = v;
    given = rw e (Checkpoint.stops (not_done (c.xact_list c.xact_tail) more));
    list = refl;
    head = refl;
    queue = refl;
    recvd = refl;
  }

  Drained-empty : (c : Context Schema) → IsValid c → xact_list_length c ≡ 0 → Drained c c
  Drained-empty c v e = record {
    valid = v;
    given = rw e Checkpoint.all_given;
    list = refl;
    head = refl;
    queue = refl;
    recvd = refl;
  }

  Drained-rest :
      (n k : ℕ) (c : Context Schema)
      → IsValid c
      → xact_list_length c ≡ k
      → k < suc n
      → ((k' : ℕ) → xact_list_length c ≡ suc k' → k' < n → Drained c (checkpoint_loop n c))
      → Drained c (if xact_list_empty c then c else checkpoint_loop n c)
  Drained-rest n zero c v e h rec = rw ((empty_iff c).1 e) (Drained-empty c v e)
  Drained-rest n (suc k) c v e h rec =
      rw ((nonempty_iff c).1 (omega (arith, e))) (rec k e (omega arith))

  loop-Drained :
      (n k : ℕ) (c : Context Schema)
      → IsValid c
      → xact_list_length c ≡ suc k
      → k < n
      → Drained c (checkpoint_loop n c)
  unfolding checkpoint_loop
  loop-Drained zero k c v e h = absurd (omega arith)
  loop-Drained (suc n) k c v e h = elim (Bool-cases (is_complete (c.xact_list c.xact_tail))) [
    | inl done ↦
        let c₁ = checkpoint_tail c in
        let v₁ = checkpoint_tail-IsValid c v in
        let e₁ = length-checkpoint_tail c k v e in
        Drained-step k c _ e e₁ done
          (rw done (Drained-rest n k c₁ v₁ e₁ h (λ k' p q. loop-Drained n k' c₁ v₁ p q)))
    | inr more ↦ rw more (Drained-here k c v e more)
  ]

  -- With transactions in flight, a checkpoint gives up those at the front of the queue on all whose
  -- events Kafka has reported and whose commit has arrived, or that are the snapshot's (number 0),
  -- committed or not, and stops at the first other one; the flushed position becomes the commit
  -- position of the last that was given up. Neither the slots, the newest transaction, Kafka's queue
  -- nor the received position changes.
  pub maybe_checkpoint-Drained :
      (c : Context Schema) → IsValid c → xact_list_empty c ≡ false → Drained c (maybe_checkpoint c)
  unfolding maybe_checkpoint
  maybe_checkpoint-Drained c v h =
      let p = (nonempty_iff c).0 h in
      loop-Drained xact_list_len (xact_list_length c - 1) c v (omega (arith, p))
        (omega (arith, length-lt c))

  -- What every round keeps, the loop keeps, if it starts with a transaction in flight.
  pub loop_induction {ℓ} :
      (P : Context Schema → Type ℓ)
      → ((c : Context Schema) (k : ℕ)
          → IsValid c
          → xact_list_length c ≡ suc k
          → is_complete (c.xact_list c.xact_tail) ≡ true
          → P c
          → P (checkpoint_tail c))
      → (n : ℕ) (c : Context Schema) → IsValid c
      → 0 < xact_list_length c
      → P c
      → P (checkpoint_loop n c)
  unfolding checkpoint_loop
  loop_induction P step zero c v h p = p
  loop_induction P step (suc n) c v h p =
      let c' = checkpoint_tail c in
      let k = xact_list_length c - 1 in
      let e : xact_list_length c ≡ suc k = omega arith in
      let v' = checkpoint_tail-IsValid c v in
      elim (Bool-cases (is_complete (c.xact_list c.xact_tail))) [
        | inr more ↦ rw more p
        | inl done ↦
            let p' = step c k v e done p in
            elim (Bool-cases (xact_list_empty c')) [
              | inl empty ↦ rw (done, empty) p'
              | inr some_left ↦
                  rw (done, some_left)
                    (loop_induction P step n c' v' ((nonempty_iff c').0 some_left) p')
            ]
      ]
