-- ===== src/Ids/Bytes.antt =====
-- Numbers as big-endian bytes: the shortest form of big.Int, and sixteen bytes.
use native.Mathlib.Nat.{one-le-pow, div-lt_iff_lt-mul, le-div_iff_mul-le, pow-suc, pow-zero}
use wrenn.Prelude.{
  ◌⊎◌, ltb→lt, ℕ, zero, suc, ◌+◌, ◌-◌, ◌*◌, ◌/◌, ◌%◌, ◌^◌, ◌≤◌, ◌<◌, ◌≡◌, refl, sym, ap, subst, ◌∙◌,
  inl, inr, List, [], ◌∷◌, ◌++◌, Option, none, some, arith, ◌==◌, ltb, if◌then◌else◌, length, All,
  Bool-cases, append_nil,
}
use wrenn.Ids.{ok, panics, set_bytes, big_bytes_onto, big_bytes, zeros, right_align}
use wrenn.Ids.Digits
use wrenn.Ids.Digits.{write_onto, read_onto}

abbrev pub IsByte : ℕ → Type 0
IsByte b = b < 256

-- Sixteen bytes.
abbrev pub IsUuid : List ℕ → Type 0
IsUuid b = (length b ≡ 16) × All IsByte b

abbrev pub byte : ℕ → ℕ
byte d = d

abbrev pub read_byte : ℕ → Option ℕ
read_byte c = if ltb c 256 then some c else none

pub read_byte-byte : (d : ℕ) → d < 256 → read_byte (byte d) ≡ some d
read_byte-byte d h = ground arith

pub byte-read_byte : (c d : ℕ) → read_byte c ≡ some d → (byte d ≡ c) × (d < 256)
byte-read_byte c d h = ground arith

abbrev pub write256 : ℕ → ℕ → List ℕ → List ℕ
write256 = write_onto 256 byte

abbrev pub read256 : ℕ → List ℕ → Option ℕ
read256 = read_onto 256 read_byte

pub read256-set_bytes : (b : List ℕ) (n : ℕ) → All IsByte b → read256 n b ≡ some (set_bytes n b)
unfolding read_onto set_bytes
read256-set_bytes [] n h = refl
read256-set_bytes (c ∷ cs) n h =
    let small : read_byte c ≡ some c = ground arith in
    rw (small, read_onto) (read256-set_bytes cs (n * 256 + c) h.1)

write256-IsByte : (k n : ℕ) (rest : List ℕ) → All IsByte rest → All IsByte (write256 k n rest)
unfolding write_onto
write256-IsByte zero n rest h = h
write256-IsByte (suc k) n rest h = write256-IsByte k (n / 256) (n % 256 ∷ rest) (omega arith, h)

pub write256-IsUuid : (n : ℕ) → IsUuid (write256 16 n [])
write256-IsUuid n = (Digits.length-write_onto 256 byte 16 n [], write256-IsByte 16 n [] tt)

some_injective : {m n : ℕ} → some m ≡ some n → m ≡ n
some_injective e = cc

pub set_bytes-write256_count : (k n : ℕ) → n < 256 ^ k → set_bytes 0 (write256 k n []) ≡ n
unfolding read_onto
set_bytes-write256_count k n h = some_injective (
    sym (read256-set_bytes (write256 k n []) 0 (write256-IsByte k n [] tt))
    ∙ Digits.read_onto-write_onto 256 byte read_byte (omega arith) read_byte-byte byte-read_byte k n
        [] h)

pub set_bytes-write256 : (n : ℕ) → n < 256 ^ 16 → set_bytes 0 (write256 16 n []) ≡ n
set_bytes-write256 = set_bytes-write256_count 16

pub write256-set_bytes : (b : List ℕ) → IsUuid b → write256 16 (set_bytes 0 b) [] ≡ b
unfolding write_onto
write256-set_bytes b h =
    let value = read256-set_bytes b 0 h.1 in
    let written =
      Digits.write_onto-read_onto 256 byte read_byte (omega arith) read_byte-byte byte-read_byte b 0
        0 (set_bytes 0 b) [] value in
    let count : length b + 0 ≡ 16 = omega (arith, h.0) in
    ap (λ k. write256 k (set_bytes 0 b) []) (sym count) ∙ (written ∙ append_nil b)

pub set_bytes_bound : (b : List ℕ) → IsUuid b → set_bytes 0 b < 256 ^ 16
set_bytes_bound b h =
    let bound =
      Digits.read_onto_bound 256 byte read_byte (omega arith) read_byte-byte byte-read_byte b 0
        (set_bytes 0 b) (read256-set_bytes b 0 h.1) in
    omega (arith, subst (λ k. set_bytes 0 b < (0 + 1) * 256 ^ k) h.0 bound)

zeros-snoc : (k : ℕ) (rest : List ℕ) → zeros k ++ 0 ∷ rest ≡ zeros (suc k) ++ rest
zeros-snoc zero rest = refl
zeros-snoc (suc k) rest = ap (λ t. 0 ∷ t) (zeros-snoc k rest)

write256-zero : (k : ℕ) (rest : List ℕ) → write256 k 0 rest ≡ zeros k ++ rest
unfolding write_onto
write256-zero zero rest = refl
write256-zero (suc k) rest = write256-zero k (0 ∷ rest) ∙ zeros-snoc k rest

-- The shortest bytes of a number, padded on the left, are its bytes in a fixed count.
big_bytes_pad :
    (fuel k n : ℕ) (rest : List ℕ)
    → n < fuel
    → n < 256 ^ k
    → (pad : ℕ) × (pad + length (big_bytes_onto fuel n rest) ≡ k + length rest)
      × (write256 k n rest ≡ zeros pad ++ big_bytes_onto fuel n rest)
unfolding big_bytes_onto write_onto
big_bytes_pad zero k n rest f h = absurd (omega arith)
big_bytes_pad (suc fuel) zero n rest f h =
    let none_left : n ≡ 0 = ground (arith, pow-zero 256) in rw none_left (0, omega arith, refl)
big_bytes_pad (suc fuel) (suc k) n rest f h = elim (Bool-cases (n == 0)) [
  | inl e ↦
      let none_left : n ≡ 0 = ground arith in
      rw none_left (suc k, omega arith, write256-zero (suc k) rest)
  | inr e ↦
      let fewer : n / 256 < 256 ^ k =
        (div-lt_iff_lt-mul (omega arith)).1 (subst (λ m. n < m) (pow-suc 256 k) h) in
      let (pad, size, same) =
        big_bytes_pad fuel k (n / 256) (n % 256 ∷ rest) (ground arith) fewer in
      rw e (pad, omega (arith, size), same)
]

big_bytes_grow : (fuel n : ℕ) (rest : List ℕ) → length rest ≤ length (big_bytes_onto fuel n rest)
unfolding big_bytes_onto
big_bytes_grow zero n rest = omega arith
big_bytes_grow (suc fuel) n rest = ground (arith, big_bytes_grow fuel (n / 256) (n % 256 ∷ rest))

-- A number of more bytes than that has a longer shortest form.
big_bytes_long :
    (k fuel n : ℕ) (rest : List ℕ)
    → n < fuel
    → 256 ^ k ≤ n
    → k + length rest < length (big_bytes_onto fuel n rest)
unfolding big_bytes_onto
big_bytes_long k zero n rest f h = absurd (omega arith)
big_bytes_long zero (suc fuel) n rest f h =
    ground (arith, pow-zero 256, big_bytes_grow fuel (n / 256) (n % 256 ∷ rest))
big_bytes_long (suc k) (suc fuel) n rest f h =
    let much : 256 ^ k * 256 ≤ n = subst (λ m. m ≤ n) (pow-suc 256 k) h in
    let more : 256 ^ k ≤ n / 256 = (le-div_iff_mul-le (omega arith)).1 much in
    let some_left : 0 < 256 ^ k = one-le-pow k 256 (omega arith) in
    ground (arith, big_bytes_long k fuel (n / 256) (n % 256 ∷ rest))

-- A number below 2^128 fits the sixteen bytes of an identifier, and no other does.
pub right_align-big_bytes :
    (n : ℕ)
    → ((n < 256 ^ 16) × (right_align (big_bytes n) ≡ ok (write256 16 n [])))
      ⊎ ((256 ^ 16 ≤ n) × (right_align (big_bytes n) ≡ panics))
unfolding big_bytes
right_align-big_bytes n = elim (Bool-cases (ltb n (256 ^ 16))) [
  | inl small ↦
      let (pad, size, same) =
        big_bytes_pad (suc n) 16 n [] (omega arith) (ltb→lt n (256 ^ 16) small) in
      inl
        (ltb→lt n (256 ^ 16) small, pads pad (big_bytes_onto (suc n) n []) size ∙ ap ok (sym same))
  | inr large ↦
      let long = big_bytes_long 16 (suc n) n [] (omega arith) (ground arith) in
      inr (ground arith, overflows (big_bytes_onto (suc n) n []) (omega (arith, long)))
]
  where
    pads : (pad : ℕ) (b : List ℕ) → pad + length b ≡ 16 + 0 → right_align b ≡ ok (zeros pad ++ b)
    pads pad b e = let rest : 16 - length b ≡ pad = omega arith in ground arith

    overflows : (b : List ℕ) → 16 < length b → right_align b ≡ panics
    overflows b h = ground arith
