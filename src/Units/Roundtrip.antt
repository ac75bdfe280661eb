-- ===== src/Units/Roundtrip.antt =====
-- Sizes that are parsed (internal/units/size.go): their bound, and reading back what is printed.
use wrenn.Prelude.{
  ℕ, ◌*◌, ◌/◌, ◌%◌, ◌≤◌, ◌≡◌, refl, ap, ◌∙◌, inl, inr, Bool, true, false, not, ◌&&◌, [], ◌∷◌, ◌++◌,
  Option, none, some, ◌==◌, ltb, Text, codes, ok, pos, itoa, itoa-digits, itoa-some, is_digit,
  is_nil, is_space, trim_space, trim_space_none, all, all-append, all_mono, arith, Bool-cases,
}
use wrenn.Units.{
  Floats, IsExact, max_size_mb, numeric_part, scale, bounded, scaled, parse_trimmed,
  parse_size_to_mb, format_mb,
}

module _ {F : Type 0} (f : Floats F) (x : IsExact f) where
  bounded-le : (mb : Option F) (n : ℕ) → bounded f mb ≡ ok n → n ≤ max_size_mb
  unfolding bounded
  bounded-le none n h = cc
  bounded-le (some y) n h = ground (arith, x.to_int_down y max_size_mb)

  scaled-le :
      (num : Option F) (suffix : Text) (n : ℕ) → scaled f num suffix ≡ ok n → n ≤ max_size_mb
  unfolding scaled
  scaled-le none suffix n h = cc
  scaled-le (some y) suffix n h = bounded-le (scale f y suffix) n h

  -- A size that is parsed fits in an int32.
  pub parse_size_to_mb-bounded : (s : Text) (n : ℕ) → parse_size_to_mb f s ≡ ok n → n ≤ 2147483647
  unfolding parse_size_to_mb parse_trimmed
  parse_size_to_mb-bounded s n h =
      let t = trim_space s in
      let (num, rest) = numeric_part t in
      ground (arith, scaled-le (f.parse num) (trim_space rest) n)

numeric_digits :
    (s rest : Text)
    → all is_digit s ≡ true
    → numeric_part rest ≡ ([], rest)
    → numeric_part (s ++ rest) ≡ (s, rest)
unfolding numeric_part
numeric_digits [] rest h e = e
numeric_digits (c ∷ cs) rest h e = ground (arith, numeric_digits cs rest)

digit_not_space : (c : ℕ) → is_digit c ≡ true → not (is_space c) ≡ true
unfolding is_space
digit_not_space c h = ground arith

abbrev is_visible : ℕ → Bool
is_visible c = not (is_space c)

printed_visible :
    (n : ℕ) (suffix : Text)
    → all is_visible suffix ≡ true
    → trim_space (itoa n ++ suffix) ≡ itoa n ++ suffix
printed_visible n suffix h = trim_space_none (itoa n ++ suffix) (
    all-append is_visible (itoa n) suffix
    ∙ ap (λ b. b && all is_visible suffix)
        (all_mono is_digit is_visible digit_not_space (itoa n) (itoa-digits n))
    ∙ h)

itoa_nil : (n : ℕ) → is_nil (itoa n) ≡ false
itoa_nil n = let (c, cs, e) = itoa-some n in rw e (refl)

itoa_nil_append : (n : ℕ) (s : Text) → is_nil (itoa n ++ s) ≡ false
itoa_nil_append n s = let (c, cs, e) = itoa-some n in rw e (refl)

module _ {F : Type 0} (f : Floats F) where
  -- What is parsed from a number and a suffix.
  parse_printed :
      (n : ℕ) (suffix : Text)
      → all is_visible suffix ≡ true
      → numeric_part suffix ≡ ([], suffix)
      → trim_space suffix ≡ suffix
      → parse_size_to_mb f (itoa n ++ suffix) ≡ scaled f (f.parse (itoa n)) suffix
  unfolding parse_size_to_mb parse_trimmed
  parse_printed n suffix v e t =
      rw
        (
          printed_visible n suffix v,
          parse_trimmed,
          numeric_digits (itoa n) suffix (itoa-digits n) e,
          itoa_nil n,
          itoa_nil_append n suffix,
          t,
        )
        (refl)

module _ {F : Type 0} (f : Floats F) (x : IsExact f) where
  bounded_whole : (n : ℕ) → n ≤ max_size_mb → bounded f (some (x.of_int n)) ≡ ok n
  unfolding bounded
  bounded_whole n h =
      ground (arith, x.exceeds_whole n max_size_mb (omega arith), x.to_int_whole n (omega arith))

  scaled_mib : (n : ℕ) → n ≤ max_size_mb → scaled f (f.parse (itoa n)) (codes "Mi") ≡ ok n
  unfolding scaled scale
  scaled_mib n h = rw (x.parse_whole n (omega arith)) (bounded_whole n h)

  scaled_gib :
      (n q : ℕ) → q * 1024 ≡ n → n ≤ max_size_mb → scaled f (f.parse (itoa q)) (codes "Gi") ≡ ok n
  unfolding scaled scale
  scaled_gib n q e h =
      rw (x.parse_whole q (omega arith), x.times_whole q (omega arith), e) (bounded_whole n h)

  -- A size that an int32 holds, printed by FormatMB, is parsed to that size.
  pub parse_size_to_mb-format_mb :
      (n : ℕ) → n ≤ 2147483647 → parse_size_to_mb f (format_mb (pos n)) ≡ ok n
  unfolding format_mb is_space numeric_part trim_space
  parse_size_to_mb-format_mb n h = elim (Bool-cases (ltb 0 n && n % 1024 == 0)) [
    | inl even ↦
        rw (format_mb, even)
          (parse_printed f (n / 1024) (codes "Gi") refl refl refl
            ∙ scaled_gib n (n / 1024) (ground arith) h)
    | inr odd ↦ rw (format_mb, odd) (parse_printed f n (codes "Mi") refl refl refl ∙ scaled_mib n h)
  ]
