-- ===== src/Validate/Labels.antt =====
-- Metadata maps.
use wrenn.Prelude.{ok, ◌≤◌, ◌≡◌, ◌↔◌, refl, false, [], ◌∷◌, List, arith, length, All, Text}
use wrenn.Validate.{metadata, metadata_entries, listed, reserved_metadata_keys}
use wrenn.Validate.Safe.{IsSafeName, name_re-IsSafeName}

-- A label that a user may set: a key like a safe name that is none of the system's, and a value of
-- at most 64 characters.
abbrev pub IsLabel : Text × Text → Type 0
IsLabel (k, v) = (listed k reserved_metadata_keys ≡ false) × IsSafeName k × (length v ≤ 64)

entries-All : (meta : List (Text × Text)) → (metadata_entries meta ≡ ok tt) ↔ All IsLabel meta
unfolding metadata_entries
entries-All [] = (λ h. tt, λ h. refl)
entries-All ((k, v) ∷ rest) = (
  λ h. (
    (ground arith, (name_re-IsSafeName k).0 (ground arith), ground arith),
    (entries-All rest).0 (ground arith),
  ),
  λ h. ground (arith, (name_re-IsSafeName k).1 h.0.1, (entries-All rest).1 h.1),
)

-- Metadata accepts exactly the maps of at most 20 labels in which every one may be set.
pub metadata_iff :
    (meta : List (Text × Text)) → (metadata meta ≡ ok tt) ↔ ((length meta ≤ 20) × All IsLabel meta)
unfolding metadata
metadata_iff meta = (
  λ h. (ground arith, (entries-All meta).0 (ground arith)),
  λ h. ground (arith, (entries-All meta).1 h.1),
)
