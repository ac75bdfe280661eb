-- ===== src/Volumes/Tests.antt =====
-- Volumes on concrete inputs.
use wrenn.Prelude.{
  ◌≡◌, ◌≤◌, refl, sym, ap, ◌∙◌, inl, inr, true, false, List, [], ◌∷◌, Option, none, some,
  if◌then◌else◌, text_eq, text_eq→≡, codes, length, is_ok, Bool-cases, trim_space, is_space,
}
use wrenn.Regexp.{matches}
use wrenn.Validate.{volume_name, normal_volume_name}
use wrenn.Ids.{default_volume_mount_path, zeros}
use wrenn.Volumes.{Ident, Volume, Db, fine, detached, attached}
use wrenn.Volumes.Statements.{
  reserve_volume_for_attach, get_volume_by_team_and_name, begin_volume_delete, delete_volume_row,
  is_deletable,
}
use wrenn.Volumes.Service.{
  or_not_found, resolve, get, delete, HostCalls, host_found, removed, volume_not_found,
}
use wrenn.Volumes.Reserve.{
  release_volume_reservations, reserve_volumes_for_create, ReservedVolume, reserved_of,
}
use wrenn.Volumes.Untouched.{row_of, is_reserved}
use wrenn.Volumes.Claimed.{IsTidy, untimed}
use wrenn.Volumes.Restored.{reserve_volumes_restores}
use wrenn.Volumes.Resolved.{resolve_as_name, IsKeyed}
use wrenn.Volumes.Granted.{reserve_volumes_grants, HasClaims}
use wrenn.Volumes.Deleted.{delete-Deletes, delete_held, is_file_gone}

abbrev team : Ident
team = zeros 16

abbrev cache_id : Ident
cache_id = 7 ∷ zeros 15

abbrev cache : Volume
cache = record {
  id = cache_id;
  team_id = team;
  host_id = some (9 ∷ []);
  name = codes "vl-cache";
  size_mb = 200;
  status = detached;
  sandbox_id = none;
  mount_path = [];
  last_attached_at = none;
  last_updated = 0;
}

abbrev store : Volume → Db
store v = record {
  volumes = record { ids = v.id ∷ []; row = λ k. if text_eq k v.id then some v else none };
  calls = 0;
  turn = λ n. record { now = n; fault = fine };
}

abbrev in_use : Volume
in_use = record cache { status = attached; sandbox_id = some (3 ∷ []) }

store-IsKeyed : IsKeyed (store cache)
store-IsKeyed k v at = elim (Bool-cases (text_eq k cache_id)) [
  | inl e ↦
      let same : some cache ≡ some v = rw e at at in
      sym (ap (λ x. x.id) (some_injective same)) ∙ sym (text_eq→≡ k cache_id e)
  | inr e ↦ absurd (none_ne_some (rw e at at))
]
  where
    some_injective : {a b : Volume} → some a ≡ some b → a ≡ b
    some_injective h = cc

    none_ne_some : {v : Volume} → Path (Option Volume) none (some v) → ⊥
    none_ne_some h = cc

store-IsTidy : (k : Ident) → IsTidy (row_of (store cache) k)
store-IsTidy k = elim (Bool-cases (text_eq k cache_id)) [
  | inl e ↦ rw e (λ was. refl)
  | inr e ↦ rw e tt
]

reserve_volumes_restores_example :
    untimed (
      row_of
        (reserve_volumes_for_create true team
          (codes "vl-cache" ∷ codes "other" ∷ [])
          (store cache)).1
        cache_id)
    ≡ untimed (some cache)
unfolding reserve_volumes_for_create release_volume_reservations resolve get
    reserve_volume_for_attach get_volume_by_team_and_name volume_name normal_volume_name trim_space
    is_space matches default_volume_mount_path
reserve_volumes_restores_example =
    reserve_volumes_restores true team cache_id (codes "vl-cache" ∷ codes "other" ∷ [])
      (store cache) volume_not_found (λ n. refl) (λ i. store-IsTidy i) refl

abbrev claims : List ReservedVolume
claims = reserved_of team cache ∷ []

reserve_volumes_grants_example :
    (length claims ≤ 4)
    × HasClaims team (some (9 ∷ [])) (is_reserved cache_id claims) (some cache) (
        row_of (reserve_volumes_for_create true team (codes "cache" ∷ []) (store cache)).1 cache_id)
unfolding reserve_volumes_for_create release_volume_reservations resolve get
    reserve_volume_for_attach get_volume_by_team_and_name volume_name normal_volume_name trim_space
    is_space matches default_volume_mount_path
reserve_volumes_grants_example =
    reserve_volumes_grants true team cache_id (codes "cache" ∷ []) (store cache) claims
      (some (9 ∷ [])) store-IsKeyed refl

abbrev host_calls : HostCalls
host_calls = record { lookup = host_found; has_client = true; removal = removed }

delete-Deletes_example :
    (v : Volume) × (some cache ≡ some v)
    × (is_deletable team v ≡ true)
    × (is_file_gone host_calls v.host_id ≡ true)
    × (row_of (delete cache_id team host_calls (store cache)).1 cache_id ≡ none)
unfolding delete begin_volume_delete delete_volume_row
delete-Deletes_example = delete-Deletes cache_id team host_calls (store cache) refl

delete_held_example :
    (is_ok (delete cache_id team host_calls (store in_use)).0 ≡ false)
    × (row_of (delete cache_id team host_calls (store in_use)).1 cache_id ≡ some in_use)
delete_held_example = delete_held cache_id team host_calls (store in_use) in_use refl refl

resolve_as_name_example :
    resolve team (codes "vl-cache") (store cache)
    ≡ or_not_found (get_volume_by_team_and_name team (codes "vl-cache") (store cache))
unfolding volume_name normal_volume_name trim_space is_space matches
resolve_as_name_example =
    resolve_as_name team (codes " Cache") (codes "vl-cache") (store cache) refl
