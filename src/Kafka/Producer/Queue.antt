-- ===== src/Kafka/Producer/Queue.antt =====
-- Kafka's queue: which slots its messages belong to, and how many.
use bottledwater_pg.Prelude.{
  ℕ, zero, suc, ◌+◌, ◌-◌, ◌%◌, ◌<◌, ◌≤◌, ◌≡◌, refl, List, [], ◌∷◌, ◌++◌, ◌==◌, if◌then◌else◌,
  get_elem?, some, arith,
}
use bottledwater_pg.Kafka.Producer.{Envelope, xact_list_len, remove_at}

-- How many messages of the queue belong to the slot.
abbrev pub count : ℕ → List Envelope → ℕ
count s [] = 0
count s (e ∷ q) = if e.xact == s then suc (count s q) else count s q

-- The messages belong to the `n` slots from `t` on.
abbrev pub Within : ℕ → ℕ → List Envelope → Type 0
Within t n [] = Unit
Within t n (e ∷ q) =
    (e.xact < xact_list_len) × ((e.xact + xact_list_len - t) % xact_list_len < n) × Within t n q

-- Past a slot that holds no message the others still belong to what is left.
pub Within-tail :
    (t n : ℕ) (q : List Envelope)
    → t < xact_list_len
    → Within t (suc n) q
    → count t q ≡ 0
    → Within ((t + 1) % xact_list_len) n q
Within-tail t n [] h w z = tt
Within-tail t n (e ∷ q) h w z = ground (arith, Within-tail t n q h w.2)

pub Within-append :
    (t n : ℕ) (q : List Envelope) (e : Envelope)
    → Within t n q
    → e.xact < xact_list_len
    → (e.xact + xact_list_len - t) % xact_list_len < n
    → Within t n (q ++ (e ∷ []))
Within-append t n [] e w h k = (h, k, tt)
Within-append t n (x ∷ q) e w h k = (w.0, w.1, Within-append t n q e w.2 h k)

pub Within-more : (t n m : ℕ) (q : List Envelope) → n ≤ m → Within t n q → Within t m q
Within-more t n m [] h w = tt
Within-more t n m (e ∷ q) h w = (w.0, omega arith, Within-more t n m q h w.2)

pub Within-remove_at :
    (t n : ℕ) (q : List Envelope) (i : ℕ) → Within t n q → Within t n (remove_at q i)
Within-remove_at t n [] i w = tt
Within-remove_at t n (e ∷ q) zero w = w.2
Within-remove_at t n (e ∷ q) (suc i) w = (w.0, w.1, Within-remove_at t n q i w.2)

-- A slot outside the window has no message.
pub count_outside :
    (t n s : ℕ) (q : List Envelope)
    → Within t n q
    → n ≤ (s + xact_list_len - t) % xact_list_len
    → count s q ≡ 0
count_outside t n s [] w h = refl
count_outside t n s (e ∷ q) w h = ground (arith, count_outside t n s q w.2)

pub count-append :
    (s : ℕ) (q : List Envelope) (e : Envelope)
    → count s (q ++ (e ∷ [])) ≡ (if e.xact == s then suc (count s q) else count s q)
count-append s [] e = refl
count-append s (x ∷ q) e = ground (arith, count-append s q e)

pub count-remove_at :
    (s : ℕ) (q : List Envelope) (i : ℕ) (e : Envelope)
    → get_elem? q i ≡ some e
    → count s q ≡ (if e.xact == s then suc (count s (remove_at q i)) else count s (remove_at q i))
count-remove_at s [] i e h = cc
count-remove_at s (x ∷ q) zero e h = ground arith
count-remove_at s (x ∷ q) (suc i) e h = ground (arith, count-remove_at s q i e h)

pub Within-nonempty :
    (t n : ℕ) (q : List Envelope) (i : ℕ) {e : Envelope}
    → get_elem? q i ≡ some e
    → Within t n q
    → 0 < n
Within-nonempty t n [] i h w = cc
Within-nonempty t n (x ∷ q) i h w = omega (arith, w.1)

-- No slot, no message.
pub Within-zero : (t : ℕ) (q : List Envelope) → Within t 0 q → q ≡ []
Within-zero t [] w = refl
Within-zero t (e ∷ q) w = absurd (omega (arith, w.1))
