-- ===== src/Validate/Names.antt =====
-- Volume names.
use wrenn.Prelude.{
  ok, ℕ, ◌≤◌, ◌≡◌, refl, Bool, true, false, not, ◌&&◌, ◌||◌, ◌++◌, arith, ◌==◌, all, Text, codes,
  is_nil, trim_space, has_prefix, trim_prefix, to_lower, byte_length, is_space, is_ascii, is_upper,
  all_mono, trim_space_none, to_lower_fixed,
}
use wrenn.Regexp.{matches}
use wrenn.Regexp.Laws.{matches-all}
use wrenn.Validate.{
  normal_volume_name, is_slug_char, slug_re, prefixed, volume_name, volume_name_prefix,
}

-- A slug holds only characters that trimming and lowering leave alone.
abbrev pub slug_or_dash : ℕ → Bool
slug_or_dash c = is_slug_char c || c == b'-'

slug_re-all : (s : Text) → matches slug_re s ≡ true → all slug_or_dash s ≡ true
slug_re-all s h =
    matches-all slug_or_dash slug_re s
      (
        ((λ c e. ground arith), (λ c e. ground arith)),
        ((λ c e. ground arith), ((λ c e. ground arith), (λ c e. ground arith))),
      )
      h

no_space : (c : ℕ) → slug_or_dash c ≡ true → not (is_space c) ≡ true
unfolding is_space
no_space c h = ground arith

lower_ascii : (c : ℕ) → slug_or_dash c ≡ true → (is_ascii c && not (is_upper c)) ≡ true
lower_ascii c h = ground arith

normal_fixed : (s : Text) → all slug_or_dash s ≡ true → to_lower (trim_space s) ≡ s
normal_fixed s h =
    rw (trim_space_none s (all_mono slug_or_dash (λ c. not (is_space c)) no_space s h)) (
      to_lower_fixed s
        (all_mono slug_or_dash (λ c. is_ascii c && not (is_upper c)) lower_ascii s h))

-- What a name that is accepted looks like.
pub record IsVolumeName (t : Text) : Type 0 where
  pub body : Text
  pub body_some : is_nil body ≡ false
  pub spelled : t ≡ volume_name_prefix ++ body
  pub short : byte_length t ≤ 40
  pub dashed : matches slug_re t ≡ true

prefixed-IsVolumeName :
    (body t : Text)
    → is_nil body ≡ false
    → prefixed (volume_name_prefix ++ body) ≡ ok t
    → IsVolumeName t
prefixed-IsVolumeName body t some_body h = record {
  body = body;
  body_some = some_body;
  spelled = ground arith;
  short = ground arith;
  dashed = ground arith;
}

normal-IsVolumeName : (n t : Text) → normal_volume_name n ≡ ok t → IsVolumeName t
unfolding normal_volume_name
normal-IsVolumeName n t h =
    prefixed-IsVolumeName (trim_prefix n volume_name_prefix) t (ground arith) (ground arith)

-- A name that VolumeName returns is vl- and a body, in lower-case dashed groups, of at most 40 bytes.
pub volume_name-IsVolumeName : (s t : Text) → volume_name s ≡ ok t → IsVolumeName t
unfolding volume_name
volume_name-IsVolumeName s t h = normal-IsVolumeName (to_lower (trim_space s)) t h

normal_fixpoint : (t : Text) → IsVolumeName t → normal_volume_name t ≡ ok t
unfolding normal_volume_name
normal_fixpoint t v = rw v.spelled (ground (arith, v.body_some, v.short, v.dashed, v.spelled))

-- A name that is returned is accepted again, and is then left as it is.
pub volume_name_idem : (s t : Text) → volume_name s ≡ ok t → volume_name t ≡ ok t
unfolding volume_name
volume_name_idem s t h =
    let v = volume_name-IsVolumeName s t h in
    rw (normal_fixed t (slug_re-all t v.dashed)) (normal_fixpoint t v)

-- The prefix is optional: a body that does not begin with it names the same volume with it.
pub volume_name_prefix_optional :
    (body : Text)
    → all slug_or_dash body ≡ true
    → is_nil body ≡ false
    → has_prefix body volume_name_prefix ≡ false
    → volume_name (volume_name_prefix ++ body) ≡ volume_name body
unfolding volume_name normal_volume_name
volume_name_prefix_optional body a some_body bare =
    rw (normal_fixed body a, normal_fixed (volume_name_prefix ++ body) (ground arith))
      (ground arith)

-- No name that is returned begins like a volume ID.
pub volume_name_not_id : (s t : Text) → volume_name s ≡ ok t → has_prefix t (codes "vol-") ≡ false
volume_name_not_id s t h = let v = volume_name-IsVolumeName s t h in rw v.spelled refl

-- A name that is returned holds no space to trim, and is not empty.
pub volume_name_trimmed : (s t : Text) → volume_name s ≡ ok t → trim_space t ≡ t
volume_name_trimmed s t h =
    let v = volume_name-IsVolumeName s t h in
    trim_space_none t
      (all_mono slug_or_dash (λ c. not (is_space c)) no_space t (slug_re-all t v.dashed))

pub volume_name_not_nil : (s t : Text) → volume_name s ≡ ok t → is_nil t ≡ false
volume_name_not_nil s t h = let v = volume_name-IsVolumeName s t h in rw v.spelled refl
