-- ===== src/Prelude/Strings.antt =====
-- Go's strings package over code points: trimming, prefixes, cutting, case and length in bytes.
use Prim.Native.Nat.{ℕ, suc, ◌+◌, ◌-◌, ◌≤◌}
use mathlib.Core.Path.{◌≡◌, refl}
use mathlib.Core.Bool.{Bool, true, false, not, ◌&&◌, ◌||◌}
use mathlib.Core.List.{[], ◌∷◌, ◌++◌}
use native.Mathlib.Omega.{arith}
use wrenn.Prelude.Tests.{leb, ltb, ◌==◌, if◌then◌else◌}
use wrenn.Prelude.Lists.{length, all}
use wrenn.Prelude.Decimal.{Text}

abbrev pub in_range : ℕ → ℕ → ℕ → Bool
in_range lo hi c = leb lo c && leb c hi

abbrev pub is_lower : ℕ → Bool
is_lower c = in_range 97 122 c

abbrev pub is_upper : ℕ → Bool
is_upper c = in_range 65 90 c

abbrev pub is_letter : ℕ → Bool
is_letter c = is_lower c || is_upper c

-- unicode.IsSpace.
unfoldable pub is_space : ℕ → Bool
is_space c =
    in_range 9 13 c
    || c == 0x20
    || c == 0x85
    || c == 0xa0
    || c == 0x1680
    || in_range 0x2000 0x200a c
    || in_range 0x2028 0x2029 c
    || c == 0x202f
    || c == 0x205f
    || c == 0x3000

abbrev pub is_nil : Text → Bool
is_nil [] = true
is_nil (c ∷ cs) = false

unfoldable pub trim_left : Text → Text
trim_left [] = []
trim_left (c ∷ cs) = let rest = trim_left cs in if is_space c then rest else c ∷ cs

unfoldable pub trim_right : Text → Text
trim_right [] = []
trim_right (c ∷ cs) = let rest = trim_right cs in if is_nil rest && is_space c then [] else c ∷ rest

unfoldable pub trim_space : Text → Text
unfolding trim_left trim_right
trim_space s = trim_right (trim_left s)

abbrev pub has_prefix : Text → Text → Bool
has_prefix s [] = true
has_prefix [] (p ∷ ps) = false
has_prefix (c ∷ cs) (p ∷ ps) = c == p && has_prefix cs ps

abbrev pub drop_prefix : Text → Text → Text
drop_prefix s [] = s
drop_prefix [] (p ∷ ps) = []
drop_prefix (c ∷ cs) (p ∷ ps) = drop_prefix cs ps

abbrev pub trim_prefix : Text → Text → Text
trim_prefix s p = if has_prefix s p then drop_prefix s p else s

-- strings.Cut at one character: what stands before it, what stands after it, and whether it is there.
unfoldable pub cut : ℕ → Text → Text × Text × Bool
cut k [] = ([], [], false)
cut k (c ∷ cs) =
    let (before, after, found) = cut k cs in
    if c == k then ([], cs, true) else (c ∷ before, after, found)

unfoldable pub count : ℕ → Text → ℕ
count k [] = 0
count k (c ∷ cs) = let rest = count k cs in if c == k then suc rest else rest

-- unicode.ToUpper and ToLower of ASCII letters, and of the only other code points that they take to
-- ASCII; a code point that they take elsewhere is left as it is, so that it stays outside of ASCII.
abbrev pub upper_char : ℕ → ℕ
upper_char c =
    if is_lower c then c - 32 else if c == 0x131 then b'I' else if c == 0x17f then b'S' else c

abbrev pub lower_char : ℕ → ℕ
lower_char c =
    if is_upper c then c + 32 else if c == 0x130 then b'i' else if c == 0x212a then b'k' else c

abbrev pub to_upper : Text → Text
to_upper [] = []
to_upper (c ∷ cs) = upper_char c ∷ to_upper cs

abbrev pub to_lower : Text → Text
to_lower [] = []
to_lower (c ∷ cs) = lower_char c ∷ to_lower cs

-- len: the number of bytes in UTF-8.
abbrev pub bytes_of : ℕ → ℕ
bytes_of c = if ltb c 0x80 then 1 else if ltb c 0x800 then 2 else if ltb c 0x10000 then 3 else 4

abbrev pub byte_length : Text → ℕ
byte_length [] = 0
byte_length (c ∷ cs) = bytes_of c + byte_length cs

abbrev pub is_ascii : ℕ → Bool
is_ascii c = ltb c 0x80

pub byte_length_ascii : (s : Text) → all is_ascii s ≡ true → byte_length s ≡ length s
byte_length_ascii [] h = refl
byte_length_ascii (c ∷ cs) h = ground (arith, byte_length_ascii cs)

pub length-le-byte_length : (s : Text) → length s ≤ byte_length s
length-le-byte_length [] = omega arith
length-le-byte_length (c ∷ cs) = ground (arith, length-le-byte_length cs)

-- What has no space at either end is left as it is.
pub trim_left_none : (s : Text) → all (λ c. not (is_space c)) s ≡ true → trim_left s ≡ s
unfolding trim_left
trim_left_none [] h = refl
trim_left_none (c ∷ cs) h = ground arith

pub trim_right_none : (s : Text) → all (λ c. not (is_space c)) s ≡ true → trim_right s ≡ s
unfolding trim_right
trim_right_none [] h = refl
trim_right_none (c ∷ cs) h = ground (arith, trim_right_none cs)

pub trim_space_none : (s : Text) → all (λ c. not (is_space c)) s ≡ true → trim_space s ≡ s
unfolding trim_space
trim_space_none s h = rw (trim_left_none s h) (trim_right_none s h)

pub all-trim_right : (p : ℕ → Bool) (s : Text) → all p s ≡ true → all p (trim_right s) ≡ true
unfolding trim_right
all-trim_right p [] h = refl
all-trim_right p (c ∷ cs) h = ground (arith, all-trim_right p cs)

pub all-trim_left : (p : ℕ → Bool) (s : Text) → all p s ≡ true → all p (trim_left s) ≡ true
unfolding trim_left
all-trim_left p [] h = refl
all-trim_left p (c ∷ cs) h = ground (arith, all-trim_left p cs)

pub all-trim_space : (p : ℕ → Bool) (s : Text) → all p s ≡ true → all p (trim_space s) ≡ true
unfolding trim_space
all-trim_space p s h = all-trim_right p (trim_left s) (all-trim_left p s h)

pub length-trim_right : (s : Text) → length (trim_right s) ≤ length s
unfolding trim_right
length-trim_right [] = omega arith
length-trim_right (c ∷ cs) = ground (arith, length-trim_right cs)

pub length-trim_left : (s : Text) → length (trim_left s) ≤ length s
unfolding trim_left
length-trim_left [] = omega arith
length-trim_left (c ∷ cs) = ground (arith, length-trim_left cs)

pub length-trim_space : (s : Text) → length (trim_space s) ≤ length s
unfolding trim_space
length-trim_space s = omega (arith, length-trim_right (trim_left s), length-trim_left s)

pub all_mono :
    (p q : ℕ → Bool)
    → ((c : ℕ) → p c ≡ true → q c ≡ true)
    → (s : Text) → all p s ≡ true
    → all q s ≡ true
all_mono p q h [] a = refl
all_mono p q h (c ∷ cs) a = ground (arith, h c, all_mono p q h cs)

pub drop_prefix-append : (p s : Text) → drop_prefix (p ++ s) p ≡ s
drop_prefix-append [] s = refl
drop_prefix-append (c ∷ cs) s = drop_prefix-append cs s

pub has_prefix-append : (p s : Text) → has_prefix (p ++ s) p ≡ true
has_prefix-append [] s = refl
has_prefix-append (c ∷ cs) s = ground (arith, has_prefix-append cs s)

-- A text of lower-case letters, digits and other ASCII characters is its own lower case.
pub to_lower_fixed :
    (s : Text) → all (λ c. is_ascii c && not (is_upper c)) s ≡ true → to_lower s ≡ s
to_lower_fixed [] h = refl
to_lower_fixed (c ∷ cs) h = ground (arith, to_lower_fixed cs)
