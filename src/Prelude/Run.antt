-- ===== src/Prelude/Run.antt =====
-- Programs that may call `exit`, and that wait for events of their environment.
use Prim.Native.Nat.{ℕ}
use mathlib.Core.Bool.{Bool}
use mathlib.Core.Path.{◌≡◌, refl}

-- The status that `exit` was called with, and whether the replication slot was dropped before.
pub record Exit : Type 0 where
  pub status : ℕ
  pub slot_dropped : Bool

-- `waiting`: the events that the model was given are used up, and the program still waits.
pub data Run {ℓ} (A : Type ℓ) : Type ℓ where
  running : A → Run A
  exited : Exit → Run A
  waiting : Run A

infixl 5 ◌>>=◌
abbrev pub ◌>>=◌ {ℓ κ} : {A : Type ℓ} {B : Type κ} → Run A → (A → Run B) → Run B
running a >>= f = f a
exited e >>= f = exited e
waiting >>= f = waiting

-- What holds of the result, if the program goes on.
abbrev pub Holds {ℓ κ} : {A : Type ℓ} → (A → Type κ) → Run A → Type κ
Holds P (running x) = P x
Holds P (exited e) = Unit
Holds P waiting = Unit

pub Holds-bind {ℓ κ μ} :
    {A : Type ℓ} {B : Type κ} (P : A → Type μ) (Q : B → Type μ) (m : Run A) (f : A → Run B)
    → Holds P m
    → ((a : A) → P a → Holds Q (f a))
    → Holds Q (m >>= f)
Holds-bind P Q (running x) f h k = k x h
Holds-bind P Q (exited e) f h k = tt
Holds-bind P Q waiting f h k = tt

-- What every continuation guarantees.
pub Holds-after {ℓ κ μ} :
    {A : Type ℓ} {B : Type κ} (Q : B → Type μ) (m : Run A) (f : A → Run B)
    → ((a : A) → Holds Q (f a))
    → Holds Q (m >>= f)
Holds-after Q (running x) f k = k x
Holds-after Q (exited e) f k = tt
Holds-after Q waiting f k = tt

pub Holds-result {ℓ μ} :
    {A : Type ℓ} (P : A → Type μ) {m : Run A} {x : A} → m ≡ running x → Holds P m → P x
Holds-result P e h = rw e at h

pub Holds-map {ℓ μ ν} :
    {A : Type ℓ} (P : A → Type μ) (Q : A → Type ν) (m : Run A)
    → ((a : A) → P a → Q a)
    → Holds P m
    → Holds Q m
Holds-map P Q (running x) k h = k x h
Holds-map P Q (exited e) k h = tt
Holds-map P Q waiting k h = tt

pub Holds-of {ℓ μ} :
    {A : Type ℓ} (P : A → Type μ) (m : Run A) → ((a : A) → m ≡ running a → P a) → Holds P m
Holds-of P (running a) k = k a refl
Holds-of P (exited e) k = tt
Holds-of P waiting k = tt
