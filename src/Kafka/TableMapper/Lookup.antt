-- ===== src/Kafka/TableMapper/Lookup.antt =====
-- The place that a lookup finds, before and after a record is changed or added.
use bottledwater_pg.Prelude.{
  ℕ, zero, suc, ◌<◌, ◌≡◌, ◌≢◌, refl, true, false, none, some, List, [], ◌∷◌, ◌++◌, if◌then◌else◌,
  length, get_or, set, arith,
}
use bottledwater_pg.Kafka.TableMapper.{Table, is_live, find}

module _ {Schema : Type 0} where
  -- No two records of one relid are in use.
  abbrev pub IsUnique : List (Table Schema) → Type 0
  IsUnique [] = Unit
  IsUnique (t ∷ ts) = (t.deleted ≡ false → find t.relid ts ≡ none) × IsUnique ts

  pub find-lt-length :
      (r : ℕ) (ts : List (Table Schema)) (i : ℕ) → find r ts ≡ some i → i < length ts
  unfolding find
  find-lt-length r [] i h = cc
  find-lt-length r (t ∷ ts) zero h = omega arith
  find-lt-length r (t ∷ ts) (suc i) h = ground (arith, find-lt-length r ts i)

  -- What is found has the relid, and is in use.
  pub live_of_find :
      (r : ℕ) (ts : List (Table Schema)) (i : ℕ) (d : Table Schema)
      → find r ts ≡ some i
      → is_live r (get_or ts i d) ≡ true
  unfolding find
  live_of_find r [] i d h = cc
  live_of_find r (t ∷ ts) zero d h = ground arith
  live_of_find r (t ∷ ts) (suc i) d h = ground (arith, live_of_find r ts i d)

  -- A lookup of another relid does not see the change of a record that keeps its relid.
  pub find-set_ne :
      (r q : ℕ) (ts : List (Table Schema)) (i : ℕ) (t' : Table Schema)
      → r ≢ q
      → t'.relid ≡ r
      → find r ts ≡ some i
      → find q (set ts i t') ≡ find q ts
  unfolding find
  find-set_ne r q [] i t' ne e h = refl
  find-set_ne r q (t ∷ ts) zero t' ne e h = ground arith
  find-set_ne r q (t ∷ ts) (suc i) t' ne e h = ground (arith, find-set_ne r q ts i t' ne e)

  pub find-set_self :
      (r : ℕ) (ts : List (Table Schema)) (i : ℕ) (t' : Table Schema)
      → IsUnique ts
      → t'.relid ≡ r
      → find r ts ≡ some i
      → find r (set ts i t') ≡ (if t'.deleted then none else some i)
  unfolding find
  find-set_self r [] i t' u e h = cc
  find-set_self r (t ∷ ts) zero t' u e h = ground arith
  find-set_self r (t ∷ ts) (suc i) t' u e h = ground (arith, find-set_self r ts i t' u.1 e)

  pub find-append_ne :
      (q : ℕ) (ts : List (Table Schema)) (t : Table Schema)
      → t.relid ≢ q
      → find q (ts ++ (t ∷ [])) ≡ find q ts
  unfolding find
  find-append_ne q [] t ne = ground arith
  find-append_ne q (x ∷ ts) t ne = ground (arith, find-append_ne q ts t ne)

  pub find-append_self :
      (ts : List (Table Schema)) (t : Table Schema)
      → find t.relid ts ≡ none
      → t.deleted ≡ false
      → find t.relid (ts ++ (t ∷ [])) ≡ some (length ts)
  unfolding find
  find-append_self [] t h d = ground arith
  find-append_self (x ∷ ts) t h d = ground (arith, find-append_self ts t)

  pub IsUnique-set :
      (r : ℕ) (ts : List (Table Schema)) (i : ℕ) (t' : Table Schema)
      → IsUnique ts
      → t'.relid ≡ r
      → find r ts ≡ some i
      → IsUnique (set ts i t')
  unfolding find
  IsUnique-set r [] i t' u e h = tt
  IsUnique-set r (t ∷ ts) zero t' u e h = ground arith
  IsUnique-set r (t ∷ ts) (suc i) t' u e h =
      ground (arith, IsUnique-set r ts i t' u.1 e, find-set_ne r t.relid ts i t')

  pub IsUnique-append :
      (ts : List (Table Schema)) (t : Table Schema)
      → IsUnique ts
      → find t.relid ts ≡ none
      → IsUnique (ts ++ (t ∷ []))
  unfolding find
  IsUnique-append [] t u h = (λ _. refl, tt)
  IsUnique-append (x ∷ ts) t u h =
      ground (arith, IsUnique-append ts t u.1, find-append_ne x.relid ts t)
