-- ===== src/Ext/Naming.antt =====
-- ext/oid2avro.c: names of tables and columns as Avro names.
use bottledwater_pg.Prelude.{
  ℕ, suc, ◌+◌, ◌-◌, ◌*◌, ◌/◌, ◌%◌, ◌<◌, ◌≤◌, ◌≡◌, refl, ap, Bool, true, false, ◌&&◌, ◌||◌, List, [],
  ◌∷◌, ◌++◌, length, ◌==◌, leb, ltb, if◌then◌else◌, arith, Bool-cases, inl, inr,
}

-- The tests of `make_avro_safe`, on the code of a character.
abbrev pub is_letter : ℕ → Bool
is_letter c = (leb 65 c && leb c 90) || (leb 97 c && leb c 122) || (c == 95)

abbrev pub is_digit : ℕ → Bool
is_digit c = leb 48 c && leb c 57

unfoldable pub passes : Bool → ℕ → ℕ → ℕ → Bool
passes is_namespace len index c =
    is_letter c
    || ((c == 46) && is_namespace && ltb 0 index && ltb index (len - 1))
    || (is_digit c && ltb 0 index)

-- A digit of `%x`.
abbrev pub hex : ℕ → ℕ
hex d = if ltb d 10 then 48 + d else 87 + d

-- `sprintf(pe, "_%.2x_", (unsigned char) c)`
unfoldable pub escape : ℕ → List ℕ
escape c = 95 ∷ hex (c / 16) ∷ hex (c % 16) ∷ 95 ∷ []

-- The loop, from an index on.
unfoldable pub safe_from : Bool → ℕ → ℕ → List ℕ → List ℕ
safe_from is_namespace len index [] = []
safe_from is_namespace len index (c ∷ cs) =
    let rest = safe_from is_namespace len (index + 1) cs in
    if passes is_namespace len index c then c ∷ rest else escape c ++ rest

-- The text up to the null byte.
unfoldable pub make_avro_safe : List ℕ → Bool → List ℕ
make_avro_safe raw is_namespace = safe_from is_namespace (length raw) 0 raw

-- Letters, digits and underscores.
abbrev pub IsWord : List ℕ → Type 0
IsWord [] = Unit
IsWord (c ∷ cs) = ((is_letter c || is_digit c) ≡ true) × IsWord cs

-- A name as Avro wants it: it does not start with a digit.
abbrev pub IsName : List ℕ → Type 0
IsName [] = Unit
IsName (c ∷ cs) = (is_letter c ≡ true) × IsWord cs

abbrev IsByteString : List ℕ → Type 0
IsByteString [] = Unit
IsByteString (c ∷ cs) = (c < 256) × IsByteString cs

hex_digit : (d : ℕ) → d < 16 → (is_letter (hex d) || is_digit (hex d)) ≡ true
hex_digit d h = ground arith

escaped : (c : ℕ) (cs : List ℕ) → c < 256 → IsWord cs → IsName (escape c ++ cs)
unfolding escape
escaped c cs h w =
    (refl, (hex_digit (c / 16) (omega arith), (hex_digit (c % 16) (omega arith), (refl, w))))

IsName→IsWord : (cs : List ℕ) → IsName cs → IsWord cs
IsName→IsWord [] h = tt
IsName→IsWord (c ∷ cs) h = (ground (arith, h.0), h.1)

-- Past the first character, what is left becomes a word.
safe_from-IsWord :
    (len index : ℕ) (cs : List ℕ)
    → 0 < index
    → IsByteString cs
    → IsWord (safe_from false len index cs)
unfolding safe_from passes
safe_from-IsWord len index [] h b = tt
safe_from-IsWord len index (c ∷ cs) h b =
    let rest = safe_from-IsWord len (index + 1) cs (omega arith) b.1 in
    elim (Bool-cases (passes false len index c)) [
      | inl plain ↦ rw plain (ground arith, rest)
      | inr other ↦ rw other (IsName→IsWord _ (escaped c _ b.0 rest))
    ]

safe_from_first : (len : ℕ) (cs : List ℕ) → IsByteString cs → IsName (safe_from false len 0 cs)
unfolding safe_from passes
safe_from_first len [] b = tt
safe_from_first len (c ∷ cs) b =
    let rest = safe_from-IsWord len 1 cs (omega arith) b.1 in
    elim (Bool-cases (passes false len 0 c)) [
      | inl plain ↦ rw plain (ground arith, rest)
      | inr other ↦ rw other (escaped c _ b.0 rest)
    ]

-- The safe form of any table or column name is a name that Avro accepts: only letters, digits and
-- underscores, and no digit at the start.
pub make_avro_safe-IsName : (raw : List ℕ) → IsByteString raw → IsName (make_avro_safe raw false)
unfolding make_avro_safe
make_avro_safe-IsName raw b = safe_from_first (length raw) raw b

safe_from_word :
    (len index : ℕ) (cs : List ℕ) → 0 < index → IsWord cs → safe_from false len index cs ≡ cs
unfolding safe_from passes
safe_from_word len index [] h w = refl
safe_from_word len index (c ∷ cs) h w =
    let plain : passes false len index c ≡ true = ground (arith, w.0) in
    rw plain (ap (λ r. c ∷ r) (safe_from_word len (index + 1) cs (omega arith) w.1))

-- A name that Avro accepts is left as it is.
make_avro_safe_self : (raw : List ℕ) → IsName raw → make_avro_safe raw false ≡ raw
unfolding make_avro_safe safe_from passes
make_avro_safe_self [] n = refl
make_avro_safe_self (c ∷ cs) n =
    let plain : passes false (suc (length cs)) 0 c ≡ true = ground (arith, n.0) in
    rw plain (ap (λ r. c ∷ r) (safe_from_word _ 1 cs (omega arith) n.1))

length-append_4 : (c : ℕ) (cs : List ℕ) → length (escape c ++ cs) ≡ 4 + length cs
unfolding escape
length-append_4 c cs = omega arith

-- No character passes through.
abbrev pub NonePass : Bool → ℕ → ℕ → List ℕ → Type 0
NonePass is_namespace len index [] = Unit
NonePass is_namespace len index (c ∷ cs) =
    (passes is_namespace len index c ≡ false) × NonePass is_namespace len (index + 1) cs

length-safe_from :
    (is_namespace : Bool) (len index : ℕ) (cs : List ℕ)
    → length (safe_from is_namespace len index cs) ≤ 4 * length cs
unfolding safe_from
length-safe_from is_namespace len index [] = omega arith
length-safe_from is_namespace len index (c ∷ cs) =
    let rest = length-safe_from is_namespace len (index + 1) cs in
    elim (Bool-cases (passes is_namespace len index c)) [
      | inl plain ↦ rw plain (omega arith)
      | inr other ↦
          rw other (omega (arith, length-append_4 c (safe_from is_namespace len (index + 1) cs)))
    ]

length-NonePass :
    (is_namespace : Bool) (len index : ℕ) (cs : List ℕ)
    → NonePass is_namespace len index cs
    → length (safe_from is_namespace len index cs) ≡ 4 * length cs
unfolding safe_from
length-NonePass is_namespace len index [] n = refl
length-NonePass is_namespace len index (c ∷ cs) n =
    let rest = length-NonePass is_namespace len (index + 1) cs n.1 in
    rw n.0 (omega (arith, length-append_4 c (safe_from is_namespace len (index + 1) cs)))

-- The encoded text takes at most four bytes for each character of the name.
length-make_avro_safe :
    (raw : List ℕ) (is_namespace : Bool) → length (make_avro_safe raw is_namespace) ≤ 4 * length raw
unfolding make_avro_safe
length-make_avro_safe raw is_namespace = length-safe_from is_namespace (length raw) 0 raw

-- When every character has to be encoded, the text and the null byte after it take more than the
-- `4 * length` bytes that are allocated.
pub make_avro_safe_overrun :
    (raw : List ℕ) (is_namespace : Bool)
    → NonePass is_namespace (length raw) 0 raw
    → 4 * length raw < length (make_avro_safe raw is_namespace) + 1
unfolding make_avro_safe
make_avro_safe_overrun raw is_namespace n =
    omega (arith, length-NonePass is_namespace (length raw) 0 raw n)
