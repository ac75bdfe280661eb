-- ===== src/Volumes/Resolved.antt =====
-- What a reference to a volume resolves to.
use wrenn.Prelude.{
  ◌≡◌, refl, sym, subst, inl, inr, true, ◌&&◌, List, [], ◌∷◌, Option, some, Text, text_eq, Outcome,
  trim_space, is_nil, has_prefix, err, ok, arith, Bool-cases, Option-cases,
}
use wrenn.Ids
use wrenn.Ids.{prefix_volume, Uuid, parse_volume_id}
use wrenn.Validate
use wrenn.Validate.Names.{
  volume_name_idem, volume_name_not_id, volume_name_trimmed, volume_name_not_nil,
}
use wrenn.Validate.{volume_name}
use wrenn.Volumes.{Ident, Volume, Db}
use wrenn.Volumes.Statements.{get_volume_by_team, get_volume_by_team_and_name}
use wrenn.Volumes.Service.{resolve, resolve_id, find_named, get, or_not_found}
use wrenn.Volumes.Untouched.{row_of}
use wrenn.Volumes.{select_named}

-- A row stands under its own key.
abbrev pub IsKeyed : Db → Type 0
IsKeyed d = (k : Ident) (v : Volume) → row_of d k ≡ some v → v.id ≡ k

get_row :
    (id team : Ident) (d : Db) (v : Volume)
    → (get id team d).0 ≡ ok v
    → (row_of d id ≡ some v) × (text_eq v.team_id team ≡ true)
unfolding get get_volume_by_team
get_row id team d v h = elim (Option-cases (row_of d id)) [
  | inl e ↦ absurd (ground arith)
  | inr (w, e) ↦ ground arith
]

select_named_row :
    (team : Ident) (name : Text) (row : Ident → Option Volume) (ids : List Ident) (v : Volume)
    → select_named team name row ids ≡ some v
    → (k : Ident) × (row k ≡ some v) × (text_eq v.team_id team ≡ true)
select_named_row team name row [] v h = absurd (ground arith)
select_named_row team name row (id ∷ ids) v h = elim (Option-cases (row id)) [
  | inl e ↦ select_named_row team name row ids v (ground arith)
  | inr (w, e) ↦ elim (Bool-cases (text_eq w.team_id team && text_eq w.name name)) [
    | inl same ↦ (id, ground arith, ground arith)
    | inr other ↦ select_named_row team name row ids v (ground arith)
  ]
]

find_row :
    (team : Ident) (name : Text) (d : Db) (v : Volume)
    → (or_not_found (get_volume_by_team_and_name team name d)).0 ≡ ok v
    → (k : Ident) × (row_of d k ≡ some v) × (text_eq v.team_id team ≡ true)
unfolding get_volume_by_team_and_name
find_row team name d v h = select_named_row team name d.volumes.row d.volumes.ids v (ground arith)

resolve_id_row :
    (team : Ident) (r : Ids.Result Uuid) (d : Db) (v : Volume)
    → (resolve_id team r d).0 ≡ ok v
    → (k : Ident) × (row_of d k ≡ some v) × (text_eq v.team_id team ≡ true)
unfolding get
resolve_id_row team (Ids.ok id) d v h =
    let (at, own) = get_row id.bytes team d v h in (id.bytes, at, own)
resolve_id_row team (Ids.err e) d v h = absurd (ground arith)
resolve_id_row team Ids.panics d v h = absurd (ground arith)

find_named_row :
    (team : Ident) (r : Outcome Validate.Error Text) (d : Db) (v : Volume)
    → (find_named team r d).0 ≡ ok v
    → (k : Ident) × (row_of d k ≡ some v) × (text_eq v.team_id team ≡ true)
find_named_row team (err e) d v h = absurd (ground arith)
find_named_row team (ok name) d v h = find_row team name d v h

-- A reference resolves only to a volume of the team, which the table holds.
resolve_row :
    (team : Ident) (ref : Text) (d : Db) (v : Volume)
    → (resolve team ref d).0 ≡ ok v
    → (k : Ident) × (row_of d k ≡ some v) × (text_eq v.team_id team ≡ true)
unfolding resolve get
resolve_row team ref d v h = elim (Bool-cases (is_nil (trim_space ref))) [
  | inl e ↦ absurd (ground arith)
  | inr e ↦ elim (Bool-cases (has_prefix (trim_space ref) prefix_volume)) [
    | inl p ↦ resolve_id_row team (parse_volume_id (trim_space ref)) d v (rw (e, p) at h)
    | inr p ↦ find_named_row team (volume_name (trim_space ref)) d v (rw (e, p) at h)
  ]
]

-- The volume that a reference resolves to is the team's own, and stands under its identifier.
pub resolve_found :
    (team : Ident) (ref : Text) (d : Db) (v : Volume)
    → IsKeyed d
    → (resolve team ref d).0 ≡ ok v
    → (row_of d v.id ≡ some v) × (text_eq v.team_id team ≡ true)
resolve_found team ref d v keyed h =
    let (k, at, own) = resolve_row team ref d v h in
    (subst (λ i. row_of d i ≡ some v) (sym (keyed k v at)) at, own)

-- A name that VolumeName returns is resolved as a name, however it was written, and never as an ID.
pub resolve_as_name :
    (team : Ident) (name full : Text) (d : Db)
    → volume_name name ≡ ok full
    → resolve team full d ≡ or_not_found (get_volume_by_team_and_name team full d)
unfolding resolve
resolve_as_name team name full d h =
    let again = volume_name_idem name full h in
    let trimmed = volume_name_trimmed name full h in
    rw (trimmed, volume_name_not_nil name full h, volume_name_not_id name full h, again) refl
