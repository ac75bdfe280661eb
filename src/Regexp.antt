-- ===== src/Regexp.antt =====
-- Go's regexp package as far as the validators use it: MatchString of a pattern anchored at both
-- ends, by Brzozowski's derivatives.
pub mod Laws
pub mod Groups
use wrenn.Prelude.{ℕ, zero, suc, Bool, true, false, ◌&&◌, ◌||◌, [], ◌∷◌, if◌then◌else◌, Text, ◌==◌}

pub data Regexp : Type 0 where
  never empty : Regexp
  class : (ℕ → Bool) → Regexp
  seq : Regexp → Regexp → Regexp
  either : Regexp → Regexp → Regexp
  star : Regexp → Regexp

abbrev pub nullable : Regexp → Bool
nullable never = false
nullable empty = true
nullable (class f) = false
nullable (seq r s) = nullable r && nullable s
nullable (either r s) = nullable r || nullable s
nullable (star r) = true

-- What is left to match after the character `c`.
abbrev pub derive : ℕ → Regexp → Regexp
derive c never = never
derive c empty = never
derive c (class f) = if f c then empty else never
derive c (seq r s) =
    let first = seq (derive c r) s in
    let second = derive c s in if nullable r then either first second else first
derive c (either r s) = either (derive c r) (derive c s)
derive c (star r) = seq (derive c r) (star r)

unfoldable pub matches : Regexp → Text → Bool
matches r [] = nullable r
matches r (c ∷ cs) = matches (derive c r) cs

-- r+, r{0,n} and r{2,}.
abbrev pub plus : Regexp → Regexp
plus r = seq r (star r)

abbrev pub up_to : ℕ → Regexp → Regexp
up_to zero r = empty
up_to (suc n) r = either empty (seq r (up_to n r))

abbrev pub lit : ℕ → Regexp
lit k = class (λ c. c == k)
