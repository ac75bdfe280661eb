-- ===== src/Prelude/Decimal.antt =====
-- Texts as lists of code points, and Go's strconv.Itoa and strconv.Atoi over them.
use Prim.Native.Nat.{ℕ, zero, suc, ◌+◌, ◌-◌, ◌*◌, ◌/◌, ◌%◌, ◌≤◌, ◌<◌}
use Prim.Native.Char.{code}
use Prim.Native.String.{String}
use mathlib.Core.Path.{◌≡◌, refl, ◌∙◌, ap}
use mathlib.Core.Logic.{◌↔◌, inl, inr}
use mathlib.Core.Bool.{Bool, true, false, ◌&&◌}
use mathlib.Core.Option.{Option, none, some}
use mathlib.Core.List.{List, [], ◌∷◌}
use native.Mathlib.Omega.{arith}
use wrenn.Prelude.Lists.{all}
use wrenn.Prelude.Tests.{leb, ltb, ◌==◌, if◌then◌else◌, Bool-cases}

-- A text is the list of its code points.
abbrev pub Text : Type 0
Text = List ℕ

abbrev pub codes : String → Text
codes String.[] = []
codes (String.◌∷◌ c s) = code c ∷ codes s

abbrev pub text_eq : Text → Text → Bool
text_eq [] [] = true
text_eq [] (y ∷ ys) = false
text_eq (x ∷ xs) [] = false
text_eq (x ∷ xs) (y ∷ ys) = x == y && text_eq xs ys

pub text_eq→≡ : (s t : Text) → text_eq s t ≡ true → s ≡ t
text_eq→≡ [] [] h = refl
text_eq→≡ [] (y ∷ ys) h = cc
text_eq→≡ (x ∷ xs) [] h = cc
text_eq→≡ (x ∷ xs) (y ∷ ys) h = ground (arith, text_eq→≡ xs ys)

pub text_eq_refl : (s : Text) → text_eq s s ≡ true
text_eq_refl [] = refl
text_eq_refl (x ∷ xs) = ground (arith, text_eq_refl xs)

pub text_eq_iff : (s t : Text) → (text_eq s t ≡ true) ↔ (s ≡ t)
text_eq_iff s t = (text_eq→≡ s t, λ e. rw e (text_eq_refl t))

-- An integer; `negsuc n` is -(n + 1).
pub data ℤ : Type 0 where
  pos : ℕ → ℤ
  negsuc : ℕ → ℤ

abbrev neg : ℕ → ℤ
neg zero = pos 0
neg (suc n) = negsuc n

abbrev pub is_digit : ℕ → Bool
is_digit c = leb 48 c && leb c 57

-- The decimal digits of a number, written before a text that is at hand. Each round divides by ten,
-- so one more unit of fuel than the number is enough.
itoa_onto : ℕ → ℕ → Text → Text
itoa_onto zero n after = after
itoa_onto (suc fuel) n after =
    let more = itoa_onto fuel (n / 10) ((n % 10 + 48) ∷ after) in
    if ltb n 10 then (n + 48) ∷ after else more

unfoldable pub itoa : ℕ → Text
unfolding itoa_onto
itoa n = itoa_onto (suc n) n []

-- The number that a text of digits stands for, read onto an accumulator.
digits_value : ℕ → Text → Option ℕ
digits_value acc [] = some acc
digits_value acc (c ∷ cs) = if is_digit c then digits_value (acc * 10 + (c - 48)) cs else none

abbrev max_int : ℕ
max_int = 9223372036854775807

within : ℕ → (ℕ → ℤ) → Option ℕ → Option ℤ
within limit sign none = none
within limit sign (some n) = if leb n limit then some (sign n) else none

unsigned : (limit : ℕ) → (ℕ → ℤ) → Text → Option ℤ
unfolding within digits_value
unsigned limit sign [] = none
unsigned limit sign (c ∷ cs) = within limit sign (digits_value 0 (c ∷ cs))

-- strconv.Atoi on a 64-bit platform: an optional sign, then one digit or more, in the range of int.
unfoldable pub atoi : Text → Option ℤ
unfolding unsigned
atoi [] = none
atoi (c ∷ cs) =
    if c == b'-'
    then unsigned (max_int + 1) neg cs
    else if c == b'+'
    then unsigned max_int pos cs
    else unsigned max_int pos (c ∷ cs)

digits_value-itoa_onto :
    (fuel n : ℕ) (after : Text)
    → n < fuel
    → digits_value 0 (itoa_onto fuel n after) ≡ digits_value n after
unfolding itoa_onto digits_value
digits_value-itoa_onto zero n after h = elim h [ ]
digits_value-itoa_onto (suc fuel) n after h = elim (Bool-cases (ltb n 10)) [
  | inl small ↦ ground arith
  | inr large ↦ rw large (
      digits_value-itoa_onto fuel (n / 10) ((n % 10 + 48) ∷ after) (ground arith)
      ∙ step (ground arith))
]
  where
    step : 10 ≤ n → digits_value (n / 10) ((n % 10 + 48) ∷ after) ≡ digits_value n after
    step ge =
        let same : n / 10 * 10 + (n % 10 + 48 - 48) ≡ n = omega arith in
        ground (arith, ap (λ k. digits_value k after) same)

-- The first character is a digit.
abbrev Starts : Text → Type 0
Starts [] = ⊥
Starts (c ∷ cs) = (48 ≤ c) × (c ≤ 57)

itoa_onto-Starts : (fuel n : ℕ) (after : Text) → n < fuel → Starts (itoa_onto fuel n after)
unfolding itoa_onto
itoa_onto-Starts zero n after h = elim h [ ]
itoa_onto-Starts (suc fuel) n after h = elim (Bool-cases (ltb n 10)) [
  | inl small ↦ rw small (ground arith)
  | inr large ↦ rw large (itoa_onto-Starts fuel (n / 10) ((n % 10 + 48) ∷ after) (ground arith))
]

atoi_digits :
    (s : Text) (n : ℕ) → Starts s → digits_value 0 s ≡ some n → n ≤ max_int → atoi s ≡ some (pos n)
unfolding atoi
atoi_digits [] n h e le = absurd h
atoi_digits (c ∷ cs) n h e le = ground arith

-- Reading back a number that was written gives the number, in the range of int.
pub atoi-itoa : (n : ℕ) → n ≤ 9223372036854775807 → atoi (itoa n) ≡ some (pos n)
unfolding itoa digits_value
atoi-itoa n h =
    atoi_digits (itoa n) n (itoa_onto-Starts (suc n) n [] (omega arith))
      (digits_value-itoa_onto (suc n) n [] (omega arith)) h

-- Two numbers with one numeral are equal.
pub itoa-injective : (m n : ℕ) → itoa m ≡ itoa n → m ≡ n
unfolding itoa digits_value
itoa-injective m n e = ground (
  arith,
  digits_value-itoa_onto (suc m) m [] (omega arith),
  digits_value-itoa_onto (suc n) n [] (omega arith),
  ap (digits_value 0) e,
)

itoa_onto-digits :
    (fuel n : ℕ) (after : Text)
    → n < fuel
    → all is_digit after ≡ true
    → all is_digit (itoa_onto fuel n after) ≡ true
unfolding itoa_onto
itoa_onto-digits zero n after h d = elim h [ ]
itoa_onto-digits (suc fuel) n after h d = elim (Bool-cases (ltb n 10)) [
  | inl small ↦ ground arith
  | inr large ↦
      rw large
        (itoa_onto-digits fuel (n / 10) ((n % 10 + 48) ∷ after) (ground arith) (ground arith))
]

pub itoa-digits : (n : ℕ) → all is_digit (itoa n) ≡ true
unfolding itoa
itoa-digits n = itoa_onto-digits (suc n) n [] (omega arith) refl

Starts-some : (s : Text) → Starts s → (c : ℕ) × (cs : Text) × (s ≡ c ∷ cs)
Starts-some [] h = absurd h
Starts-some (c ∷ cs) h = (c, cs, refl)

pub itoa-some : (n : ℕ) → (c : ℕ) × (cs : Text) × (itoa n ≡ c ∷ cs)
unfolding itoa
itoa-some n = Starts-some (itoa n) (itoa_onto-Starts (suc n) n [] (omega arith))
