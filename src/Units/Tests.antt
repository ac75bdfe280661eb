-- ===== src/Units/Tests.antt =====
-- Sizes with natural numbers in the place of the floats.
use wrenn.Prelude.{
  ℕ, ◌*◌, ◌≤◌, ◌≡◌, refl, false, Option, none, some, ltb, codes, ok, err, ℤ, pos, negsuc, itoa,
  atoi, atoi-itoa, arith, is_space, trim_space,
}
use wrenn.Units.{Floats, IsExact, parse_size_to_mb, format_mb, numeric_part, too_large}
use wrenn.Units.Roundtrip.{parse_size_to_mb-bounded, parse_size_to_mb-format_mb}

abbrev whole : Option ℤ → Option ℕ
whole none = none
whole (some (pos n)) = some n
whole (some (negsuc n)) = none

abbrev naturals : Floats ℕ
naturals = record {
  parse = λ s. whole (atoi s);
  times_1024 = λ n. n * 1024;
  exceeds = λ n m. ltb m n;
  to_int = λ n. n;
}

read_whole : (n : ℕ) → n ≤ 9007199254740992 → whole (atoi (itoa n)) ≡ some n
read_whole n h = rw (atoi-itoa n (omega arith)) (refl)

not_above : (n m : ℕ) → ltb m n ≡ false → n ≤ m
not_above n m h = ground arith

naturals-IsExact : IsExact naturals
naturals-IsExact = record {
  of_int = λ n. n;
  parse_whole = read_whole;
  times_whole = λ n h. refl;
  exceeds_whole = λ n m h. refl;
  to_int_whole = λ n h. refl;
  to_int_down = λ n m h. not_above n m h;
}

parse_gib : parse_size_to_mb naturals (codes " 20 Gi ") ≡ ok 20480
unfolding parse_size_to_mb numeric_part is_space trim_space atoi
parse_gib = refl

parse_wraps : parse_size_to_mb naturals (codes "4194305Gi") ≡ err too_large
unfolding parse_size_to_mb numeric_part is_space trim_space atoi
parse_wraps = refl

parse_gib_bounded : parse_size_to_mb naturals (codes "20Gi") ≡ ok 20480
unfolding parse_size_to_mb numeric_part is_space trim_space atoi
parse_gib_bounded = refl

parse_size_to_mb-bounded_example : 20480 ≤ 2147483647
parse_size_to_mb-bounded_example =
    parse_size_to_mb-bounded naturals naturals-IsExact (codes "20Gi") 20480 parse_gib_bounded

parse_size_to_mb-format_mb_example : parse_size_to_mb naturals (format_mb (pos 20480)) ≡ ok 20480
parse_size_to_mb-format_mb_example =
    parse_size_to_mb-format_mb naturals naturals-IsExact 20480 (omega arith)
