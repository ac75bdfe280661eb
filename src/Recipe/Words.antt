-- ===== src/Recipe/Words.antt =====
-- How a POSIX shell cuts a command into tokens, as far as the commands of a recipe need it: words of
-- plain, quoted and escaped characters, and operator characters one by one. Where a character has
-- another meaning to the shell, there is no reading.
use wrenn.Prelude.{
  ℕ, ◌≡◌, refl, inl, inr, Bool, true, false, ◌||◌, List, [], ◌∷◌, ◌++◌, Option, none, some, ◌==◌,
  if◌then◌else◌, Text, arith, Bool-cases, ap, ◌∙◌, and_parts, ==_iff, is_letter, is_digit,
  append_assoc, append_nil, all,
}
use wrenn.Recipe.Context.{shellescape, replace_quotes}

pub data Token : Type 0 where
  word : Text → Token
  op : ℕ → Token

pub data Mode : Type 0 where
  gap inside quoted escaped : Mode

pub data Meaning : Type 0 where
  quote backslash blank operator plain special : Meaning

abbrev pub is_plain : ℕ → Bool
is_plain c =
    is_letter c
    || is_digit c
    || c == b'_'
    || c == b'-'
    || c == b'.'
    || c == b'/'
    || c == b':'
    || c == b'='
    || c == b','
    || c == b'+'
    || c == b'@'
    || c == b'%'

unfoldable pub meaning : ℕ → Meaning
meaning c =
    if is_plain c
    then plain
    else if c == 39
    then quote
    else if c == 92
    then backslash
    else if c == 32 || c == 9
    then blank
    else if c == 10
        || c == b'&'
        || c == b'|'
        || c == b';'
        || c == b'<'
        || c == b'>'
        || c == b'('
        || c == b')'
    then operator
    else special

-- The tokens that come before those of a rest.
abbrev pub emits : List Token → Option (List Token) → Option (List Token)
emits ts none = none
emits ts (some us) = some (ts ++ us)

unfoldable pub tokens : Mode → Text → Text → Option (List Token)
unfolding meaning
tokens gap acc [] = some []
tokens inside acc [] = some (word acc ∷ [])
tokens quoted acc [] = none
tokens escaped acc [] = none
tokens gap acc (c ∷ cs) = elim (meaning c) [
  | quote ↦ tokens quoted [] cs
  | backslash ↦ tokens escaped [] cs
  | blank ↦ tokens gap [] cs
  | operator ↦ emits (op c ∷ []) (tokens gap [] cs)
  | plain ↦ tokens inside (c ∷ []) cs
  | special ↦ none
]
tokens inside acc (c ∷ cs) = elim (meaning c) [
  | quote ↦ tokens quoted acc cs
  | backslash ↦ tokens escaped acc cs
  | blank ↦ emits (word acc ∷ []) (tokens gap [] cs)
  | operator ↦ emits (word acc ∷ op c ∷ []) (tokens gap [] cs)
  | plain ↦ tokens inside (acc ++ c ∷ []) cs
  | special ↦ none
]
tokens quoted acc (c ∷ cs) = elim (c == 39) [
  | true ↦ tokens inside acc cs
  | false ↦ tokens quoted (acc ++ c ∷ []) cs
]
tokens escaped acc (c ∷ cs) = elim (c == 10) [
  | true ↦ tokens inside acc cs
  | false ↦ tokens inside (acc ++ c ∷ []) cs
]

pub emits-append :
    (ss ts : List Token) (r : Option (List Token)) → emits ss (emits ts r) ≡ emits (ss ++ ts) r
emits-append ss ts none = refl
emits-append ss ts (some us) = ground (arith, append_assoc ss ts us)

quoted_other :
    (acc : Text) (c : ℕ) (cs : Text)
    → (c == 39) ≡ false
    → tokens quoted acc (c ∷ cs) ≡ tokens quoted (acc ++ c ∷ []) cs
unfolding tokens
quoted_other acc c cs o = ground arith

quoted-tokens :
    (s acc rest : Text)
    → tokens quoted acc (replace_quotes s ++ 39 ∷ rest) ≡ tokens inside (acc ++ s) rest
unfolding tokens replace_quotes meaning
quoted-tokens [] acc rest = rw (append_nil acc) (refl)
quoted-tokens (c ∷ cs) acc rest = elim (Bool-cases (c == 39)) [
  | inl q ↦
      let e : c ≡ 39 = (==_iff c 39).0 q in
      rw e (
        quoted-tokens cs (acc ++ 39 ∷ []) rest
        ∙ ap (λ a. tokens inside a rest) (append_assoc acc (39 ∷ []) cs))
  | inr o ↦
      rw (o, quoted_other acc c (replace_quotes cs ++ 39 ∷ rest) o)
        (quoted-tokens cs (acc ++ c ∷ []) rest
          ∙ ap (λ a. tokens inside a rest) (append_assoc acc (c ∷ []) cs))
]

-- What shellescape makes of a text is that text to the shell, in a word of its own or in the word
-- that is at hand, whatever follows.
pub escaped_tokens :
    (s acc rest : Text) → tokens inside acc (shellescape s ++ rest) ≡ tokens inside (acc ++ s) rest
unfolding tokens meaning shellescape
escaped_tokens s acc rest =
    ap (tokens quoted acc) (append_assoc (replace_quotes s) (39 ∷ []) rest)
    ∙ quoted-tokens s acc rest

pub escaped_word : (s rest : Text) → tokens gap [] (shellescape s ++ rest) ≡ tokens inside s rest
unfolding tokens meaning shellescape
escaped_word s rest =
    ap (tokens quoted []) (append_assoc (replace_quotes s) (39 ∷ []) rest) ∙ quoted-tokens s [] rest

meaning-plain : (c : ℕ) → is_plain c ≡ true → meaning c ≡ plain
unfolding meaning
meaning-plain c h = rw h (refl)

pub inside_plain :
    (acc : Text) (c : ℕ) (cs : Text)
    → is_plain c ≡ true
    → tokens inside acc (c ∷ cs) ≡ tokens inside (acc ++ c ∷ []) cs
unfolding tokens
inside_plain acc c cs h = ground (arith, meaning-plain c h)

gap_plain :
    (c : ℕ) (cs : Text) → is_plain c ≡ true → tokens gap [] (c ∷ cs) ≡ tokens inside (c ∷ []) cs
unfolding tokens
gap_plain c cs h = ground (arith, meaning-plain c h)

pub plain_tokens :
    (s acc rest : Text)
    → all is_plain s ≡ true
    → tokens inside acc (s ++ rest) ≡ tokens inside (acc ++ s) rest
plain_tokens [] acc rest h = rw (append_nil acc) (refl)
plain_tokens (c ∷ cs) acc rest h =
    let (p, ps) = and_parts (is_plain c) (all is_plain cs) h in
    rw (inside_plain acc c (cs ++ rest) p) (
      plain_tokens cs (acc ++ c ∷ []) rest ps
      ∙ ap (λ a. tokens inside a rest) (append_assoc acc (c ∷ []) cs))

-- A text of plain characters that is not empty.
abbrev pub IsPlainWord : Text → Type 0
IsPlainWord [] = ⊥
IsPlainWord (c ∷ cs) = (is_plain c ≡ true) × (all is_plain cs ≡ true)

pub plain_word : (s rest : Text) → IsPlainWord s → tokens gap [] (s ++ rest) ≡ tokens inside s rest
plain_word [] rest h = absurd h
plain_word (c ∷ cs) rest h = gap_plain c (cs ++ rest) h.0 ∙ plain_tokens cs (c ∷ []) rest h.1
