-- ===== src/Validate/Tests.antt =====
-- The validators on concrete inputs, with the cases of the repository's own tests among them.
use wrenn.Prelude.{
  ok, err, ◌≤◌, ◌≡◌, ◌⊎◌, refl, true, [], ◌∷◌, List, all, All, length, Text, codes, trim_space,
  is_space, cut, count, byte_length,
}
use wrenn.Regexp.{matches}
use wrenn.Validate.{
  no_match, reserved, too_many_slashes, display_name, sanitize_display_name, safe_name, email,
  metadata, listed, slug_format, team_slug, template_ref, split_ref, volume_name,
  normal_volume_name,
}
use wrenn.Validate.Safe.{
  IsSafeName, safe_name_iff, sanitize_display_name_valid, is_inert, email_inert,
}
use wrenn.Validate.Slugs.{is_dashed, slug_format_iff, IsRef, template_ref-IsRef}
use wrenn.Validate.Names.{volume_name_idem, volume_name-IsVolumeName, IsVolumeName}
use wrenn.Validate.Labels.{IsLabel, metadata_iff}

hidden : safe_name (codes ".hidden") ≡ err no_match
unfolding safe_name matches
hidden = refl

-- Two dots in a row are accepted inside a name.
inner_dots : safe_name (codes "a..b") ≡ ok tt
unfolding safe_name matches
inner_dots = refl

reserved_slug : team_slug (codes "wrenn") ≡ err reserved
unfolding team_slug matches listed
reserved_slug = refl

two_slashes : template_ref (codes "acme/team/devbox") ≡ err too_many_slashes
unfolding template_ref split_ref trim_space is_space count
two_slashes = refl

upper_volume : volume_name (codes " VL-Cache ") ≡ ok (codes "vl-cache")
unfolding volume_name normal_volume_name trim_space is_space matches
upper_volume = refl

markup : sanitize_display_name (codes "a<b>c") (codes "user") ≡ codes "abc"
unfolding sanitize_display_name trim_space is_space
markup = refl

safe_name_iff_example : IsSafeName (codes "my-snapshot.v2")
unfolding safe_name matches
safe_name_iff_example = (safe_name_iff (codes "my-snapshot.v2")).0 refl

sanitize_display_name_valid_example :
    (sanitize_display_name (codes "<b>Bob") (codes "user") ≡ codes "user")
    ⊎ (display_name (sanitize_display_name (codes "<b>Bob") (codes "user")) ≡ ok tt)
sanitize_display_name_valid_example = sanitize_display_name_valid (codes "<b>Bob") (codes "user")

email_inert_example :
    (all is_inert (codes "a+b@example.co") ≡ true) × (byte_length (codes "a+b@example.co") ≤ 254)
unfolding email matches
email_inert_example = email_inert (codes "a+b@example.co") refl

slug_format_iff_example :
    (is_dashed (codes "acme-corp") ≡ true)
    × (3 ≤ byte_length (codes "acme-corp"))
    × (byte_length (codes "acme-corp") ≤ 40)
unfolding slug_format matches
slug_format_iff_example = (slug_format_iff (codes "acme-corp")).0 refl

template_ref-IsRef_example :
    IsRef (trim_space (codes " acme/devbox")) (codes "acme") (codes "devbox")
unfolding template_ref split_ref slug_format safe_name matches trim_space is_space count cut
template_ref-IsRef_example =
    template_ref-IsRef (codes " acme/devbox") (codes "acme") (codes "devbox") refl

volume_name_idem_example : volume_name (codes "vl-cache") ≡ ok (codes "vl-cache")
unfolding volume_name normal_volume_name trim_space is_space matches
volume_name_idem_example = volume_name_idem (codes "Cache") (codes "vl-cache") refl

volume_name-IsVolumeName_example : IsVolumeName (codes "vl-cache")
unfolding volume_name normal_volume_name trim_space is_space matches
volume_name-IsVolumeName_example = volume_name-IsVolumeName (codes "Cache") (codes "vl-cache") refl

abbrev labels : List (Text × Text)
labels = (codes "team", codes "blue") ∷ []

metadata_iff_example : (length labels ≤ 20) × All IsLabel labels
unfolding metadata matches listed
metadata_iff_example = (metadata_iff labels).0 refl
