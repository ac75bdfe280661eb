-- ===== src/Ids/Digits.antt =====
-- Positional notation: writing a fixed count of digits and reading them back, in any base.
use native.Mathlib.Nat.{
  mul-le-mul_right, mul-add-div_right, div-eq_of_lt, mul-add-mod_self_right, mod-eq_of_lt, pow-zero,
  div-lt_iff_lt-mul, div-add-mod', mod-lt, pow-suc,
}
use wrenn.Prelude.{
  subst, Option-cases, ℕ, zero, suc, ◌+◌, ◌*◌, ◌/◌, ◌%◌, ◌^◌, ◌≤◌, ◌<◌, ◌≡◌, refl, sym, ap, ◌∙◌,
  inl, inr, List, [], ◌∷◌, ◌++◌, Option, none, some, arith, length,
}

split_digit :
    (base acc d : ℕ)
    → 0 < base
    → d < base
    → ((acc * base + d) / base ≡ acc) × ((acc * base + d) % base ≡ d)
split_digit base acc d pos small = (
  mul-add-div_right pos acc d ∙ rw (div-eq_of_lt small) (omega arith),
  mul-add-mod_self_right acc base d ∙ mod-eq_of_lt small,
)

unfoldable pub write_onto : (base : ℕ) → (ℕ → ℕ) → ℕ → ℕ → List ℕ → List ℕ
write_onto base write zero n rest = rest
write_onto base write (suc k) n rest = write_onto base write k (n / base) (write (n % base) ∷ rest)

unfoldable pub read_onto : (base : ℕ) → (ℕ → Option ℕ) → ℕ → List ℕ → Option ℕ
read_onto base read n [] = some n
read_onto base read n (c ∷ cs) = elim (read c) [
  | none ↦ none
  | some d ↦ read_onto base read (n * base + d) cs
]

pub length-write_onto :
    (base : ℕ) (write : ℕ → ℕ) (k n : ℕ) (rest : List ℕ)
    → length (write_onto base write k n rest) ≡ k + length rest
unfolding write_onto
length-write_onto base write zero n rest = omega arith
length-write_onto base write (suc k) n rest =
    omega (arith, length-write_onto base write k (n / base) (write (n % base) ∷ rest))

-- `write d` is the sign of the digit `d`, and `read` takes a sign back.
module _ (base : ℕ) (write : ℕ → ℕ) (read : ℕ → Option ℕ) (pos : 0 < base)
    (read-write : (d : ℕ) → d < base → read (write d) ≡ some d)
    (write-read : (c d : ℕ) → read c ≡ some d → (write d ≡ c) × (d < base)) where
  -- Reading what was written gives the number, and then reads on.
  pub read_onto-write_onto :
      (k n : ℕ) (rest : List ℕ)
      → n < base ^ k
      → read_onto base read 0 (write_onto base write k n rest) ≡ read_onto base read n rest
  unfolding write_onto read_onto
  read_onto-write_onto zero n rest h =
      let none_left : n ≡ 0 = ground (arith, pow-zero base) in
      ap (λ m. read_onto base read m rest) (sym none_left)
  read_onto-write_onto (suc k) n rest h =
      read_onto-write_onto k (n / base) (write (n % base) ∷ rest)
        ((div-lt_iff_lt-mul pos).1 (subst (λ m. n < m) (pow-suc base k) h))
      ∙ rw (read_onto, read-write (n % base) (mod-lt n pos), div-add-mod' n base) refl

  -- Writing the number that a text stands for gives the text.
  pub write_onto-read_onto :
      (s : List ℕ) (k acc n : ℕ) (rest : List ℕ)
      → read_onto base read acc s ≡ some n
      → write_onto base write (length s + k) n rest ≡ write_onto base write k acc (s ++ rest)
  unfolding write_onto read_onto
  write_onto-read_onto [] k acc n rest h = ground arith
  write_onto-read_onto (c ∷ cs) k acc n rest h = elim (Option-cases (read c)) [
    | inl e ↦ absurd (ground arith)
    | inr (d, e) ↦
        let (written, small) = write-read c d e in
        let (high, low) = split_digit base acc d pos small in
        let moved : suc (length cs) + k ≡ length cs + suc k = omega arith in
        rw moved (
          write_onto-read_onto cs (suc k) (acc * base + d) n rest (ground arith)
          ∙ rw (write_onto, high, low, written) refl)
  ]

  -- A text of `k` digits stands for a number below the k-th power of the base.
  pub read_onto_bound :
      (s : List ℕ) (acc n : ℕ)
      → read_onto base read acc s ≡ some n
      → n < (acc + 1) * base ^ length s
  unfolding read_onto
  read_onto_bound [] acc n h = ground (arith, pow-zero base)
  read_onto_bound (c ∷ cs) acc n h = elim (Option-cases (read c)) [
    | inl e ↦ absurd (ground arith)
    | inr (d, e) ↦
        let (written, small) = write-read c d e in
        let later = read_onto_bound cs (acc * base + d) n (ground arith) in
        let room : acc * base + d + 1 ≤ (acc + 1) * base = grind arith in
        let scaled = mul-le-mul_right (base ^ length cs) room in
        rw (pow-suc base (length cs)) (omega (arith, later, scaled))
  ]
