-- ===== src/Validate.antt =====
-- pkg/validate: what the control plane accepts as names, slugs, references, metadata and addresses.
-- A text is a list of code points; a regular expression is the pattern of the source.
pub mod Safe
pub mod Slugs
pub mod Names
pub mod Labels
mod Tests
use wrenn.Prelude.{
  Outcome, ok, err, ◌>>=◌, ◌>>◌, or_fail, check, ℕ, ◌+◌, ◌≡◌, Bool, true, false, not, ◌&&◌, ◌||◌,
  List, [], ◌∷◌, ◌++◌, Option, none, some, leb, ltb, ◌==◌, if◌then◌else◌, length, all, take, Text,
  codes, text_eq, is_lower, is_letter, is_digit, in_range, is_nil, trim_space, has_prefix,
  trim_prefix, cut, count, to_lower, byte_length,
}
use wrenn.Regexp.{Regexp, class, seq, star, plus, up_to, lit, matches}

pub data Error : Type 0 where
  empty_value bad_length no_match reserved too_many bad_slug bad_name too_many_slashes : Error

abbrev pub Result : Type 0 → Type 0
Result = Outcome Error

abbrev pub is_alnum : ℕ → Bool
is_alnum c = is_letter c || is_digit c

abbrev pub is_name_char : ℕ → Bool
is_name_char c = is_alnum c || c == b'.' || c == b'_' || c == b'-'

abbrev pub is_display_char : ℕ → Bool
is_display_char c = is_name_char c || c == b' '

abbrev pub is_slug_char : ℕ → Bool
is_slug_char c = is_lower c || is_digit c

-- ^[a-zA-Z0-9][a-zA-Z0-9._-]{0,63}$, and the same pattern for metadata keys.
abbrev pub name_re : Regexp
name_re = seq (class is_alnum) (up_to 63 (class is_name_char))

abbrev pub metadata_key_re : Regexp
metadata_key_re = name_re

-- ^[A-Za-z0-9 ._-]{1,100}$
abbrev pub display_name_re : Regexp
display_name_re = seq (class is_display_char) (up_to 99 (class is_display_char))

-- ^[a-z0-9]+(-[a-z0-9]+)*$
abbrev pub slug_re : Regexp
slug_re =
    seq (plus (class is_slug_char))
      (star (seq (class (λ c. c == b'-')) (plus (class is_slug_char))))

abbrev pub is_local_char : ℕ → Bool
is_local_char c = is_name_char c || c == b'%' || c == b'+'

abbrev pub is_domain_char : ℕ → Bool
is_domain_char c = is_alnum c || c == b'.' || c == b'-'

-- ^[a-zA-Z0-9._%+\-]+@[a-zA-Z0-9.\-]+\.[a-zA-Z]{2,}$
abbrev pub email_re : Regexp
email_re = seq (plus (class is_local_char)) (
    seq (lit b'@') (
      seq (plus (class is_domain_char))
        (seq (lit b'.') (seq (class is_letter) (seq (class is_letter) (star (class is_letter)))))))

unfoldable pub display_name : Text → Result (Unit {0})
display_name name = do
  check (not (is_nil name)) empty_value
  check (matches display_name_re name) no_match

abbrev pub keep_display : Text → Text
keep_display [] = []
keep_display (c ∷ cs) = let rest = keep_display cs in if is_display_char c then c ∷ rest else rest

abbrev pub clip : Text → Text
clip cleaned = if ltb 100 (byte_length cleaned) then trim_space (take 100 cleaned) else cleaned

-- The kept characters are ASCII, so that the first 100 bytes are the first 100 characters.
unfoldable pub sanitize_display_name : Text → Text → Text
sanitize_display_name name fallback =
    let cleaned = clip (trim_space (keep_display name)) in
    if is_nil cleaned then fallback else cleaned

unfoldable pub safe_name : Text → Result (Unit {0})
safe_name name = do check (not (is_nil name)) empty_value; check (matches name_re name) no_match

unfoldable pub email : Text → Result (Unit {0})
email address = do
  check (not (is_nil address)) empty_value
  check (leb (byte_length address) 254) bad_length
  check (matches email_re address) no_match

abbrev pub reserved_metadata_keys : List Text
reserved_metadata_keys =
    codes "kernel_version" ∷ codes "vmm_version" ∷ codes "agent_version" ∷ codes "envd_version" ∷ []

unfoldable pub listed : Text → List Text → Bool
listed s [] = false
listed s (t ∷ ts) = text_eq t s || listed s ts

unfoldable pub metadata_entries : List (Text × Text) → Result (Unit {0})
metadata_entries [] = ok tt
metadata_entries ((k, v) ∷ rest) = do
  check (not (listed k reserved_metadata_keys)) reserved
  check (matches metadata_key_re k) no_match
  check (leb (length v) 64) bad_length
  metadata_entries rest

-- A map is the list of its entries, in the order in which they are visited.
unfoldable pub metadata : List (Text × Text) → Result (Unit {0})
unfolding metadata_entries
metadata meta = do check (leb (length meta) 20) too_many; metadata_entries meta

unfoldable pub slug_format : Text → Result (Unit {0})
slug_format slug = do
  check (not (is_nil slug)) empty_value
  check (leb 3 (byte_length slug) && leb (byte_length slug) 40) bad_length
  check (matches slug_re slug) no_match

abbrev pub reserved_slugs : List Text
reserved_slugs = codes "platform" ∷ codes "wrenn" ∷ codes "0" ∷ []

unfoldable pub team_slug : Text → Result (Unit {0})
unfolding slug_format
team_slug slug = do slug_format slug; check (not (listed slug reserved_slugs)) reserved

abbrev pub qualified : Text × Text × Bool → Result (Text × Text)
qualified (slug, name, found) = do
  or_fail (slug_format slug) bad_slug
  or_fail (safe_name name) bad_name
  ok (slug, name)

abbrev pub own : Text → Result (Text × Text)
own ref = do safe_name ref; ok ([], ref)

-- The switch on the number of slashes.
unfoldable pub split_ref : Text → Result (Text × Text)
unfolding slug_format safe_name
split_ref ref =
    let slashes = count b'/' ref in
    if is_nil ref
    then err empty_value
    else if slashes == 0
    then own ref
    else if slashes == 1
    then qualified (cut b'/' ref)
    else err too_many_slashes

unfoldable pub template_ref : Text → Result (Text × Text)
template_ref ref = split_ref (trim_space ref)

abbrev pub volume_name_prefix : Text
volume_name_prefix = codes "vl-"

abbrev pub prefixed : Text → Result Text
prefixed name = do
  check (leb (byte_length name) 40) bad_length
  check (matches slug_re name) no_match
  ok name

-- VolumeName from the trimmed, lower-case name on.
unfoldable pub normal_volume_name : Text → Result Text
normal_volume_name normalized =
    let body = trim_prefix normalized volume_name_prefix in
    if is_nil normalized
    then err empty_value
    else if is_nil body
    then err empty_value
    else prefixed (volume_name_prefix ++ body)

unfoldable pub volume_name : Text → Result Text
volume_name name = normal_volume_name (to_lower (trim_space name))
