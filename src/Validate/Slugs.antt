-- ===== src/Validate/Slugs.antt =====
-- Team slugs and template references.
use wrenn.Prelude.{
  ok, ℕ, ◌+◌, ◌<◌, ◌≤◌, ◌≡◌, ◌⊎◌, ◌↔◌, refl, ◌∙◌, inl, inr, Bool, true, false, not, [], ◌∷◌, ◌++◌,
  arith, ◌==◌, all, Text, is_nil, trim_space, cut, count, byte_length, Bool-cases, is_space,
  all_mono, all-append, trim_space_none,
}
use wrenn.Regexp.Groups.{groups, matches-groups}
use wrenn.Regexp.{matches}
use wrenn.Validate.{
  is_slug_char, slug_re, slug_format, team_slug, listed, reserved_slugs, template_ref, split_ref,
  qualified, own, safe_name, is_name_char,
}
use wrenn.Validate.Safe.{IsSafeName, safe_name_iff}

-- Groups of lower-case letters and digits, with single dashes between them.
abbrev pub is_dashed : Text → Bool
is_dashed = groups is_slug_char (λ c. c == b'-') false

apart : (c : ℕ) → is_slug_char c ≡ true → (c == b'-') ≡ false
apart c h = ground arith

matches-slug_re : (s : Text) → matches slug_re s ≡ is_dashed s
matches-slug_re s = matches-groups is_slug_char (λ c. c == b'-') apart s

-- SlugFormat accepts exactly the texts of 3 to 40 bytes in dashed groups.
pub slug_format_iff :
    (s : Text)
    → (slug_format s ≡ ok tt) ↔ ((is_dashed s ≡ true) × (3 ≤ byte_length s) × (byte_length s ≤ 40))
unfolding slug_format
slug_format_iff [] = (λ h. cc, λ h. absurd (omega (arith, h.1)))
slug_format_iff (c ∷ cs) =
    (λ h. ground (arith, matches-slug_re (c ∷ cs)), λ h. ground (arith, matches-slug_re (c ∷ cs)))

-- A slug that a team may take is well formed and is none of the reserved words.
pub team_slug_iff :
    (s : Text)
    → (team_slug s ≡ ok tt) ↔ ((slug_format s ≡ ok tt) × (listed s reserved_slugs ≡ false))
unfolding team_slug
team_slug_iff s = (λ h. ground arith, λ h. ground arith)

-- Neither a slug nor a safe name holds a slash.
abbrev no_slash : ℕ → Bool
no_slash c = not (c == b'/')

name_no_slash : (c : ℕ) → is_name_char c ≡ true → no_slash c ≡ true
name_no_slash c h = ground arith

groups-all :
    (b : Bool) (s : Text)
    → groups is_slug_char (λ c. c == b'-') b s ≡ true
    → all is_name_char s ≡ true
unfolding groups
groups-all b [] h = refl
groups-all b (c ∷ cs) h = ground (arith, groups-all true cs, groups-all false cs)

slug-all : (s : Text) → slug_format s ≡ ok tt → all is_name_char s ≡ true
slug-all s h = groups-all false s ((slug_format_iff s).0 h).0

safe_name-all : (s : Text) → safe_name s ≡ ok tt → all is_name_char s ≡ true
safe_name-all s h = name_chars s ((safe_name_iff s).0 h)
  where
    name_chars : (s : Text) → IsSafeName s → all is_name_char s ≡ true
    name_chars [] h = absurd h
    name_chars (c ∷ cs) h = ground arith

-- Cutting a text at the only slash that it holds.
cut-append : (s t : Text) → all is_name_char s ≡ true → cut b'/' (s ++ b'/' ∷ t) ≡ (s, t, true)
unfolding cut
cut-append [] t h = refl
cut-append (c ∷ cs) t h = ground (arith, cut-append cs t, name_no_slash c)

count-none : (s : Text) → all is_name_char s ≡ true → count b'/' s ≡ 0
unfolding count
count-none [] h = refl
count-none (c ∷ cs) h = ground (arith, count-none cs, name_no_slash c)

count-append : (s t : Text) → count b'/' (s ++ t) ≡ count b'/' s + count b'/' t
unfolding count
count-append [] t = omega arith
count-append (c ∷ cs) t = ground (arith, count-append cs t)

name_no_space : (c : ℕ) → is_name_char c ≡ true → not (is_space c) ≡ true
unfolding is_space
name_no_space c h = ground arith

not_nil : (s : Text) (c : ℕ) (t : Text) → is_nil (s ++ c ∷ t) ≡ false
not_nil [] c t = refl
not_nil (x ∷ s) c t = refl

split_at_slash :
    (slug name : Text)
    → slug_format slug ≡ ok tt
    → safe_name name ≡ ok tt
    → split_ref (slug ++ b'/' ∷ name) ≡ ok (slug, name)
unfolding split_ref count
split_at_slash slug name hs hn = ground (
  arith,
  cut-append slug name (slug-all slug hs),
  count-append slug (b'/' ∷ name),
  count-none slug (slug-all slug hs),
  count-none name (safe_name-all name hn),
  not_nil slug (b'/') name,
)

spaceless :
    (slug name : Text)
    → all is_name_char slug ≡ true
    → all is_name_char name ≡ true
    → all (λ c. not (is_space c)) (slug ++ b'/' ∷ name) ≡ true
unfolding is_space
spaceless slug name hs hn =
    all-append (λ c. not (is_space c)) slug (b'/' ∷ name)
    ∙ ground (
      arith,
      all_mono is_name_char (λ c. not (is_space c)) name_no_space slug hs,
      all_mono is_name_char (λ c. not (is_space c)) name_no_space name hn,
    )

-- A reference written from a well-formed slug and a safe name is read back as the two.
pub template_ref_qualified :
    (slug name : Text)
    → slug_format slug ≡ ok tt
    → safe_name name ≡ ok tt
    → template_ref (slug ++ b'/' ∷ name) ≡ ok (slug, name)
unfolding template_ref
template_ref_qualified slug name hs hn =
    rw
      (trim_space_none (slug ++ b'/' ∷ name)
        (spaceless slug name (slug-all slug hs) (safe_name-all name hn)))
      (split_at_slash slug name hs hn)

cut_found : (k : ℕ) (s : Text) → 0 < count k s → s ≡ (cut k s).0 ++ k ∷ (cut k s).1
unfolding cut count
cut_found k [] h = absurd (omega arith)
cut_found k (c ∷ cs) h = ground (arith, cut_found k cs)

-- What a reference that is read may be.
abbrev pub IsRef : Text → Text → Text → Type 0
IsRef ref slug name =
    (safe_name name ≡ ok tt)
    × (((slug ≡ []) × (ref ≡ name)) ⊎ ((slug_format slug ≡ ok tt) × (ref ≡ slug ++ b'/' ∷ name)))

own-IsRef : (ref slug name : Text) → own ref ≡ ok (slug, name) → IsRef ref slug name
own-IsRef ref slug name h = ground arith

qualified-IsRef :
    (ref before after slug name : Text)
    → qualified (before, after, true) ≡ ok (slug, name)
    → ref ≡ before ++ b'/' ∷ after
    → IsRef ref slug name
qualified-IsRef ref before after slug name h e = ground arith

split_ref-IsRef : (ref slug name : Text) → split_ref ref ≡ ok (slug, name) → IsRef ref slug name
unfolding split_ref
split_ref-IsRef ref slug name h = elim (Bool-cases (is_nil ref)) [
  | inl e ↦ absurd (ground arith)
  | inr e ↦ elim (Bool-cases (count b'/' ref == 0)) [
    | inl none ↦ own-IsRef ref slug name (ground arith)
    | inr some ↦ elim (Bool-cases (count b'/' ref == 1)) [
      | inl one ↦
          qualified-IsRef ref (cut b'/' ref).0 (cut b'/' ref).1 slug name (ground arith)
            (cut_found b'/' ref (ground arith))
      | inr more ↦ absurd (ground arith)
    ]
  ]
]

-- A reference that is accepted is, once trimmed, a safe name alone, or a well-formed slug, a slash
-- and a safe name; the slug and the name returned are those.
pub template_ref-IsRef :
    (ref slug name : Text) → template_ref ref ≡ ok (slug, name) → IsRef (trim_space ref) slug name
unfolding template_ref
template_ref-IsRef ref slug name h = split_ref-IsRef (trim_space ref) slug name h
