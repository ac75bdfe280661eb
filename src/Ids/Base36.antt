-- ===== src/Ids/Base36.antt =====
-- The base-36 text of an identifier, both ways.
use wrenn.Prelude.{
  ◌≢◌, ℕ, zero, suc, ◌+◌, ◌*◌, ◌/◌, ◌%◌, ◌<◌, ◌≡◌, refl, sym, ap, ◌∙◌, inl, inr, Bool, true, false,
  ◌&&◌, [], ◌∷◌, Option, none, some, arith, ◌==◌, length, Text, Bool-cases, Option-cases, ==_iff,
  byte_length, is_ascii, byte_length_ascii, all,
}
use wrenn.Ids.{
  index_from, char_at, base36_alphabet, Result, ok, err, char36, index36, base36_onto, read_base36,
  bad_character,
}
use wrenn.Ids.Digits

true_ne_false : true ≢ false
true_ne_false e = cc

none_ne_some : {d : ℕ} → none ≢ some d
none_ne_some e = cc

-- A test passed by every digit of a base is passed by each of them.
every_digit : (ℕ → Bool) → ℕ → Bool
every_digit test zero = true
every_digit test (suc base) = every_digit test base && test base

every_digit-at :
    (test : ℕ → Bool) (base d : ℕ) → every_digit test base ≡ true → d < base → test d ≡ true
unfolding every_digit
every_digit-at test zero d h below = absurd (omega arith)
every_digit-at test (suc base) d h below = ground (arith, every_digit-at test base d)

reads_back : ℕ → Bool
reads_back d = elim (index36 (char36 d)) [ none ↦ false | some e ↦ e == d ]

reads_back_table : every_digit reads_back 36 ≡ true
unfolding every_digit reads_back char36 index36
reads_back_table = refl

pub index36-char36 : (d : ℕ) → d < 36 → index36 (char36 d) ≡ some d
unfolding reads_back
index36-char36 d h =
    let found = every_digit-at reads_back 36 d reads_back_table h in
    elim (Option-cases (index36 (char36 d))) [
      | inl e ↦ absurd (true_ne_false (sym found ∙ rw (reads_back, e)))
      | inr (i, e) ↦ e ∙ ap some ((==_iff i d).0 (rw (reads_back, e) at found))
    ]

index_from_sound :
    (t : Text) (i c d : ℕ)
    → index_from i t c ≡ some d
    → (k : ℕ) × (d ≡ i + k) × (char_at t k ≡ c) × (k < length t)
index_from_sound [] i c d h = absurd (none_ne_some h)
index_from_sound (a ∷ t) i c d h = elim (Bool-cases (a == c)) [
  | inl e ↦ (0, ground arith, ground arith, ground arith)
  | inr e ↦
      let (k, at, same, lt) = index_from_sound t (suc i) c d (ground arith) in
      (suc k, omega arith, same, omega arith)
]

pub char36-index36 : (c d : ℕ) → index36 c ≡ some d → (char36 d ≡ c) × (d < 36)
unfolding char36 index36
char36-index36 c d h =
    let (k, at, same, lt) = index_from_sound base36_alphabet 0 c d h in
    let here : d ≡ k = omega arith in rw here (same, lt)

-- The program's loops are positional notation in base 36 and in base 256.
abbrev pub write36 : ℕ → ℕ → Text → Text
write36 = Digits.write_onto 36 char36

abbrev pub read36 : ℕ → Text → Option ℕ
read36 = Digits.read_onto 36 index36

pub base36_onto-write36 : (k n : ℕ) (rest : Text) → base36_onto k n rest ≡ write36 k n rest
unfolding base36_onto Digits.write_onto
base36_onto-write36 zero n rest = refl
base36_onto-write36 (suc k) n rest = base36_onto-write36 k (n / 36) (char36 (n % 36) ∷ rest)

abbrev pub result_of : Option ℕ → Result ℕ
result_of none = err bad_character
result_of (some n) = ok n

pub read_base36-read36 : (n : ℕ) (s : Text) → read_base36 n s ≡ result_of (read36 n s)
unfolding read_base36 Digits.read_onto
read_base36-read36 n [] = refl
read_base36-read36 n (c ∷ cs) = elim (Option-cases (index36 c)) [
  | inl e ↦ rw (e, read_base36, Digits.read_onto) refl
  | inr (i, e) ↦ rw (e, read_base36, Digits.read_onto) (read_base36-read36 (n * 36 + i) cs)
]

ascii_table : every_digit (λ d. is_ascii (char36 d)) 36 ≡ true
unfolding every_digit char36
ascii_table = refl

char36_ascii : (d : ℕ) → d < 36 → is_ascii (char36 d) ≡ true
char36_ascii d h = every_digit-at (λ d. is_ascii (char36 d)) 36 d ascii_table h

write36_ascii :
    (k n : ℕ) (rest : Text) → all is_ascii rest ≡ true → all is_ascii (write36 k n rest) ≡ true
unfolding Digits.write_onto
write36_ascii zero n rest h = h
write36_ascii (suc k) n rest h =
    write36_ascii k (n / 36) (char36 (n % 36) ∷ rest)
      (ground (arith, char36_ascii (n % 36) (omega arith)))

read36_ascii : (s : Text) (acc n : ℕ) → read36 acc s ≡ some n → all is_ascii s ≡ true
unfolding Digits.read_onto
read36_ascii [] acc n h = refl
read36_ascii (c ∷ cs) acc n h = elim (Option-cases (index36 c)) [
  | inl e ↦ absurd (none_ne_some (rw (Digits.read_onto, e) at h))
  | inr (d, e) ↦
      let (sign, small) = char36-index36 c d e in
      let rest = read36_ascii cs (acc * 36 + d) n (rw (Digits.read_onto, e) at h) in
      let first : is_ascii c ≡ true = rw (← sign) (char36_ascii d small) in ground arith
]

pub byte_length-write36 : (n : ℕ) → byte_length (write36 25 n []) ≡ 25
byte_length-write36 n =
    byte_length_ascii (write36 25 n []) (write36_ascii 25 n [] refl)
    ∙ Digits.length-write_onto 36 char36 25 n []

pub length-read36 : (s : Text) (n : ℕ) → read36 0 s ≡ some n → byte_length s ≡ length s
length-read36 s n h = byte_length_ascii s (read36_ascii s 0 n h)
