-- ===== src/Units.antt =====
-- Sizes as people write them (internal/units/size.go). Texts and counts are exact; the 64-bit floats
-- between them are a parameter, with what IEEE 754 says of them.
pub mod Roundtrip
mod Tests
use wrenn.Prelude.{
  ℕ, suc, ◌*◌, ◌/◌, ◌%◌, ◌≤◌, ◌≡◌, Bool, true, false, ◌&&◌, ◌||◌, [], ◌∷◌, ◌++◌, Option, none, some,
  ◌==◌, ltb, if◌then◌else◌, Text, text_eq, codes, Outcome, err, ok, ℤ, pos, negsuc, itoa, is_digit,
  is_nil, trim_space,
}

abbrev pub max_size_mb : ℕ
max_size_mb = 2147483647

-- strconv.ParseFloat on digits and points, the product by 1024, the comparison with an integer, and
-- the conversion to int of a float that is not negative.
pub record Floats (F : Type 0) : Type 0 where
  pub parse : Text → Option F
  pub times_1024 : F → F
  pub exceeds : F → ℕ → Bool
  pub to_int : F → ℕ

-- Whole numbers up to 2^53 are exact, and conversion rounds towards zero.
pub record IsExact {F : Type 0} (f : Floats F) : Type 0 where
  pub of_int : ℕ → F
  pub parse_whole : (n : ℕ) → n ≤ 9007199254740992 → f.parse (itoa n) ≡ some (of_int n)
  pub times_whole :
      (n : ℕ) → n * 1024 ≤ 9007199254740992 → f.times_1024 (of_int n) ≡ of_int (n * 1024)
  pub exceeds_whole : (n m : ℕ) → n ≤ 9007199254740992 → f.exceeds (of_int n) m ≡ ltb m n
  pub to_int_whole : (n : ℕ) → n ≤ 9007199254740992 → f.to_int (of_int n) ≡ n
  pub to_int_down : (x : F) (m : ℕ) → f.exceeds x m ≡ false → f.to_int x ≤ m

pub data SizeError : Type 0 where
  empty_size no_number bad_number unknown_suffix too_large : SizeError

abbrev is_numeric : ℕ → Bool
is_numeric c = c == b'.' || is_digit c

-- The numeric part, and what follows it.
unfoldable pub numeric_part : Text → Text × Text
numeric_part [] = ([], [])
numeric_part (c ∷ cs) =
    let (num, rest) = numeric_part cs in if is_numeric c then (c ∷ num, rest) else ([], c ∷ cs)

module _ {F : Type 0} (f : Floats F) where
  scale : F → Text → Option F
  scale num suffix =
      if text_eq suffix (codes "G") || text_eq suffix (codes "Gi")
      then some (f.times_1024 num)
      else if text_eq suffix (codes "M") || text_eq suffix (codes "Mi") || is_nil suffix
      then some num
      else none

  bounded : Option F → Outcome SizeError ℕ
  bounded none = err unknown_suffix
  bounded (some mb) = if f.exceeds mb max_size_mb then err too_large else ok (f.to_int mb)

  scaled : Option F → Text → Outcome SizeError ℕ
  unfolding scale bounded
  scaled none suffix = err bad_number
  scaled (some num) suffix = bounded (scale num suffix)

  parse_trimmed : Text → Outcome SizeError ℕ
  unfolding scaled
  parse_trimmed s =
      let (num, rest) = numeric_part s in
      if is_nil s
      then err empty_size
      else if is_nil num
      then err no_number
      else scaled (f.parse num) (trim_space rest)

  unfoldable pub parse_size_to_mb : Text → Outcome SizeError ℕ
  unfolding parse_trimmed scaled scale bounded
  parse_size_to_mb s = parse_trimmed (trim_space s)

unfoldable pub format_mb : ℤ → Text
format_mb (pos n) =
    if ltb 0 n && n % 1024 == 0 then itoa (n / 1024) ++ codes "Gi" else itoa n ++ codes "Mi"
format_mb (negsuc n) = b'-' ∷ (itoa (suc n) ++ codes "Mi")
