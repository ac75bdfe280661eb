-- ===== src/Validate/Safe.antt =====
-- Display names, path component names and email addresses.
use wrenn.Prelude.{
  ok, ℕ, zero, suc, ◌≤◌, ◌≡◌, ◌⊎◌, ◌↔◌, refl, ◌∙◌, inl, inr, Bool, true, not, ◌&&◌, ◌||◌, [], ◌∷◌,
  arith, leb, ltb, ◌==◌, if◌then◌else◌, length, all, take, Text, is_letter, is_nil, trim_space,
  byte_length, all-trim_space, length-trim_space, Bool-cases, length-le-byte_length,
}
use wrenn.Regexp.{class, seq, up_to, matches}
use wrenn.Regexp.Laws.{matches-up_to, matches-class-seq, matches-all, Within}
use wrenn.Validate.{
  is_alnum, is_name_char, is_display_char, is_local_char, name_re, email_re, display_name,
  is_domain_char, keep_display, clip, sanitize_display_name, safe_name, email,
}

-- One character of a class, then at most `n` of another.
matches_head :
    (f g : ℕ → Bool) (n c : ℕ) (s : Text)
    → matches (seq (class f) (up_to n (class g))) (c ∷ s) ≡ (f c && (leb (length s) n && all g s))
matches_head f g n c s =
    matches-class-seq f (up_to n (class g)) c s ∙ ground (arith, matches-up_to g n s)

-- What SafeName accepts, in words of its own.
abbrev pub IsSafeName : Text → Type 0
IsSafeName [] = ⊥
IsSafeName (c ∷ cs) = (is_alnum c ≡ true) × (all is_name_char cs ≡ true) × (length (c ∷ cs) ≤ 64)

pub name_re-IsSafeName : (s : Text) → (matches name_re s ≡ true) ↔ IsSafeName s
unfolding matches
name_re-IsSafeName [] = (λ h. cc, λ h. absurd h)
name_re-IsSafeName (c ∷ cs) = (
  λ h. ground (arith, matches_head is_alnum is_name_char 63 c cs),
  λ h. ground (arith, matches_head is_alnum is_name_char 63 c cs),
)

-- SafeName accepts exactly the texts of 1 to 64 characters that begin with a letter or a digit and
-- go on with letters, digits, dots, underscores and dashes.
pub safe_name_iff : (s : Text) → (safe_name s ≡ ok tt) ↔ IsSafeName s
unfolding safe_name
safe_name_iff [] = (λ h. cc, λ h. absurd h)
safe_name_iff (c ∷ cs) = (
  λ h. ground (arith, matches_head is_alnum is_name_char 63 c cs),
  λ h. ground (arith, matches_head is_alnum is_name_char 63 c cs),
)

display_name_iff :
    (c : ℕ) (cs : Text)
    → (display_name (c ∷ cs) ≡ ok tt)
      ↔ ((all is_display_char (c ∷ cs) ≡ true) × (length (c ∷ cs) ≤ 100))
unfolding display_name
display_name_iff c cs = (
  λ h. ground (arith, matches_head is_display_char is_display_char 99 c cs),
  λ h. ground (arith, matches_head is_display_char is_display_char 99 c cs),
)

all-keep_display : (s : Text) → all is_display_char (keep_display s) ≡ true
all-keep_display [] = refl
all-keep_display (c ∷ cs) = elim (Bool-cases (is_display_char c)) [
  | inl e ↦ rw e (rw e (all-keep_display cs))
  | inr e ↦ rw e (all-keep_display cs)
]

all-take : (p : ℕ → Bool) (n : ℕ) (s : Text) → all p s ≡ true → all p (take n s) ≡ true
all-take p zero s h = refl
all-take p (suc n) [] h = refl
all-take p (suc n) (c ∷ cs) h = ground (arith, all-take p n cs)

length-take-le : (n : ℕ) (s : Text) → length (take n s) ≤ n
length-take-le zero s = omega arith
length-take-le (suc n) [] = omega arith
length-take-le (suc n) (c ∷ cs) = omega (arith, length-take-le n cs)

all-clip : (s : Text) → all is_display_char s ≡ true → all is_display_char (clip s) ≡ true
all-clip s h = elim (Bool-cases (ltb 100 (byte_length s))) [
  | inl e ↦ rw e (all-trim_space is_display_char (take 100 s) (all-take is_display_char 100 s h))
  | inr e ↦ rw e h
]

length-clip : (s : Text) → length (clip s) ≤ 100
length-clip s = elim (Bool-cases (ltb 100 (byte_length s))) [
  | inl e ↦ rw e (omega (arith, length-trim_space (take 100 s), length-take-le 100 s))
  | inr e ↦ rw e (ground (arith, length-le-byte_length s))
]

-- A name from elsewhere that is cleaned is the fallback or a name that DisplayName accepts.
pub sanitize_display_name_valid :
    (name fallback : Text)
    → (sanitize_display_name name fallback ≡ fallback)
      ⊎ (display_name (sanitize_display_name name fallback) ≡ ok tt)
unfolding sanitize_display_name
sanitize_display_name_valid name fallback =
    let kept = trim_space (keep_display name) in
    usable (clip kept)
      (all-clip kept (all-trim_space is_display_char (keep_display name) (all-keep_display name)))
      (length-clip kept)
  where
    usable :
        (s : Text)
        → all is_display_char s ≡ true
        → length s ≤ 100
        → ((if is_nil s then fallback else s) ≡ fallback)
          ⊎ (display_name (if is_nil s then fallback else s) ≡ ok tt)
    usable [] a l = inl refl
    usable (c ∷ cs) a l = inr ((display_name_iff c cs).1 (a, l))

-- The characters that HTML gives a meaning, and spaces.
abbrev pub is_inert : ℕ → Bool
is_inert c = not (c == b'<' || c == b'>' || c == b'&' || c == b'"' || c == b'\'' || c == b' ')

local_inert : (c : ℕ) → is_local_char c ≡ true → is_inert c ≡ true
local_inert c h = ground arith

domain_inert : (c : ℕ) → is_domain_char c ≡ true → is_inert c ≡ true
domain_inert c h = ground arith

letter_inert : (c : ℕ) → is_letter c ≡ true → is_inert c ≡ true
letter_inert c h = ground arith

email_re_inert : Within is_inert email_re
email_re_inert = (
  (local_inert, local_inert),
  (
    (λ c h. ground arith),
    (
      (domain_inert, domain_inert),
      ((λ c h. ground arith), (letter_inert, (letter_inert, letter_inert))),
    ),
  ),
)

-- An accepted email address holds no space and none of < > & " ', and has at most 254 bytes.
pub email_inert : (s : Text) → email s ≡ ok tt → (all is_inert s ≡ true) × (byte_length s ≤ 254)
unfolding email
email_inert s h = (matches-all is_inert email_re s email_re_inert (ground arith), ground arith)
