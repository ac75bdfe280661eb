-- ===== src/Ids/Reserved.antt =====
-- The reserved template IDs.
use native.Mathlib.Nat.{pow-suc}
use wrenn.Prelude.{
  ℕ, zero, suc, ◌+◌, ◌-◌, ◌*◌, ◌/◌, ◌%◌, ◌≤◌, ◌<◌, ◌≡◌, ◌^◌, ◌↔◌, refl, sym, ap, subst, ◌∙◌, true,
  List, [], ◌∷◌, ◌++◌, arith, length, take, All,
}
use wrenn.Ids.{Uuid, set_bytes, put_uint64, template_id, is_reserved_template_id, drop_bytes, zeros}
use wrenn.Ids.Digits
use wrenn.Ids.Bytes.{
  IsUuid, IsByte, write256, byte, read_byte, read_byte-byte, byte-read_byte, read256-set_bytes,
  set_bytes-write256_count,
}

set_bytes-append : (a b : List ℕ) (n : ℕ) → set_bytes n (a ++ b) ≡ set_bytes (set_bytes n a) b
unfolding set_bytes
set_bytes-append [] b n = refl
set_bytes-append (x ∷ a) b n = set_bytes-append a b (n * 256 + x)

take-drop_bytes : (k : ℕ) (b : List ℕ) → take k b ++ drop_bytes k b ≡ b
take-drop_bytes zero b = refl
take-drop_bytes (suc k) [] = refl
take-drop_bytes (suc k) (x ∷ b) = ap (λ t. x ∷ t) (take-drop_bytes k b)

length-drop_bytes : (k : ℕ) (b : List ℕ) → length (drop_bytes k b) ≡ length b - k
length-drop_bytes zero b = omega arith
length-drop_bytes (suc k) [] = omega arith
length-drop_bytes (suc k) (x ∷ b) = omega (arith, length-drop_bytes k b)

-- The number that starts from `n` moves up by a power of 256 for each byte.
set_bytes_shift : (b : List ℕ) (n : ℕ) → set_bytes n b ≡ n * 256 ^ length b + set_bytes 0 b
unfolding set_bytes
set_bytes_shift [] n = omega arith
set_bytes_shift (x ∷ b) n =
    let here = set_bytes_shift b (n * 256 + x) in
    let there = set_bytes_shift b (0 + x) in rw (pow-suc 256 (length b)) (grind arith)

set_bytes_below : (b : List ℕ) → All IsByte b → set_bytes 0 b < 256 ^ length b
set_bytes_below b h =
    let bound =
      Digits.read_onto_bound 256 byte read_byte (omega arith) read_byte-byte byte-read_byte b 0
        (set_bytes 0 b) (read256-set_bytes b 0 h) in
    omega (arith, bound)

All-drop_bytes : (k : ℕ) (b : List ℕ) → All IsByte b → All IsByte (drop_bytes k b)
All-drop_bytes zero b h = h
All-drop_bytes (suc k) [] h = h
All-drop_bytes (suc k) (x ∷ b) h = All-drop_bytes k b h.1

-- The two halves of an identifier, as PutUint64 and Uint64 see them.
halves :
    (b : List ℕ)
    → IsUuid b
    → (set_bytes 0 b ≡ set_bytes 0 (take 8 b) * 256 ^ 8 + set_bytes 0 (drop_bytes 8 b))
      × (set_bytes 0 (drop_bytes 8 b) < 256 ^ 8)
halves b h =
    let low = drop_bytes 8 b in
    let size : length low ≡ 8 = omega (arith, length-drop_bytes 8 b, h.0) in
    let split =
      ap (set_bytes 0) (sym (take-drop_bytes 8 b))
      ∙ (set_bytes-append (take 8 b) low 0 ∙ set_bytes_shift low (set_bytes 0 (take 8 b))) in
    (
      subst (λ k. set_bytes 0 b ≡ set_bytes 0 (take 8 b) * 256 ^ k + set_bytes 0 low) size split,
      subst (λ k. set_bytes 0 low < 256 ^ k) size (set_bytes_below low (All-drop_bytes 8 b h.1)),
    )

-- A template ID is reserved exactly when its sixteen bytes are a number of at most 1024.
pub is_reserved_template_id_iff :
    (t : Uuid) → IsUuid t.bytes → is_reserved_template_id t ≡ true ↔ set_bytes 0 t.bytes ≤ 1024
unfolding is_reserved_template_id
is_reserved_template_id_iff t h = let (value, low) = halves t.bytes h in ground (arith, value, low)

set_bytes-zeros : (k : ℕ) (b : List ℕ) → set_bytes 0 (zeros k ++ b) ≡ set_bytes 0 b
unfolding set_bytes
set_bytes-zeros zero b = refl
set_bytes-zeros (suc k) b = set_bytes-zeros k b

put_uint64-write256 : (k n : ℕ) (rest : List ℕ) → put_uint64 k n rest ≡ write256 k n rest
unfolding put_uint64 Digits.write_onto
put_uint64-write256 zero n rest = refl
put_uint64-write256 (suc k) n rest = put_uint64-write256 k (n / 256) (n % 256 ∷ rest)

-- templateID of a 64-bit number is an identifier of sixteen bytes with that value.
template_id_value :
    (n : ℕ) → n < 2 ^ 64 → IsUuid (template_id n).bytes × (set_bytes 0 (template_id n).bytes ≡ n)
unfolding template_id
template_id_value n h = ((refl, omega arith), value)
  where
    low : List ℕ
    low = write256 8 n []

    value : set_bytes 0 (zeros 8 ++ put_uint64 8 n []) ≡ n
    value =
        ap (λ b. set_bytes 0 (zeros 8 ++ b)) (put_uint64-write256 8 n [])
        ∙ (set_bytes-zeros 8 low ∙ set_bytes-write256_count 8 n (omega (arith, h)))

-- Of the identifiers that templateID makes, those up to 1024 are the reserved ones.
pub template_id_reserved_iff :
    (n : ℕ) → n < 2 ^ 64 → is_reserved_template_id (template_id n) ≡ true ↔ n ≤ 1024
template_id_reserved_iff n h =
    let (sixteen, value) = template_id_value n h in
    subst (λ m. is_reserved_template_id (template_id n) ≡ true ↔ m ≤ 1024) value
      (is_reserved_template_id_iff (template_id n) sixteen)
