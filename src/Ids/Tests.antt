-- ===== src/Ids/Tests.antt =====
-- Identifiers on concrete inputs.
use wrenn.Prelude.{ℕ, ◌≡◌, ◌≤◌, ◌^◌, ◌-◌, refl, true, List, [], ◌∷◌, ◌++◌, Text, codes, arith, ◌↔◌}
use wrenn.Ids.{
  ok, panics, parse_uuid, format_uuid, uuid_to_base36, char36, index36, zeros, template_id,
  is_reserved_template_id, prefix_sandbox, prefix_volume, base36_to_uuid,
}
use wrenn.Ids.Digits
use wrenn.Ids.Bytes.{IsUuid}
use wrenn.Ids.Roundtrip.{parse_uuid-format_uuid, format_uuid-parse_uuid, parse_uuid_panics}
use wrenn.Ids.Reserved.{template_id_reserved_iff}

abbrev sample : List ℕ
sample = zeros 14 ++ 1 ∷ 44 ∷ []

abbrev sample_text : Text
sample_text = codes "000000000000000000000008c"

sample_written : uuid_to_base36 sample ≡ sample_text
unfolding uuid_to_base36 char36
sample_written = refl

parse_uuid-format_uuid_example :
    parse_uuid prefix_volume (format_uuid prefix_volume (record { bytes = sample; valid = true }))
    ≡ ok (record { bytes = sample; valid = true })
parse_uuid-format_uuid_example = parse_uuid-format_uuid prefix_volume sample (refl, omega arith)

format_uuid-parse_uuid_example :
    (format_uuid prefix_sandbox (record { bytes = sample; valid = true })
      ≡ codes "cl-" ++ sample_text)
    × (true ≡ true)
    × IsUuid sample
unfolding parse_uuid base36_to_uuid index36 char36 format_uuid
format_uuid-parse_uuid_example =
    format_uuid-parse_uuid prefix_sandbox (codes "cl-" ++ sample_text)
      (record { bytes = sample; valid = true }) refl

parse_uuid_panics_example :
    parse_uuid prefix_volume (prefix_volume ++ codes "zzzzzzzzzzzzzzzzzzzzzzzzz") ≡ panics
unfolding index36 Digits.read_onto
parse_uuid_panics_example =
    parse_uuid_panics prefix_volume (codes "zzzzzzzzzzzzzzzzzzzzzzzzz") (36 ^ 25 - 1) refl refl
      (omega arith)

template_id_reserved_iff_example : is_reserved_template_id (template_id 3) ≡ true ↔ 3 ≤ 1024
template_id_reserved_iff_example = template_id_reserved_iff 3 (omega arith)
