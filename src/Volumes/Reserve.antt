-- ===== src/Volumes/Reserve.antt =====
-- pkg/service/sandbox.go: claiming the volumes of a capsule that is being created, and what becomes
-- of the claims.
use wrenn.Prelude.{
  ◌&&◌, ◌+◌, ℕ, zero, suc, ◌==◌, Bool, true, false, not, ltb, List, [], ◌∷◌, ◌++◌, Option, none,
  some, if◌then◌else◌, length, Text, text_eq, err, ok,
}
use wrenn.Ids.{default_volume_mount_path}
use wrenn.Volumes.{Ident, Volume, Db, has_id}
use wrenn.Volumes.Statements.{
  reserve_volume_for_attach, release_volume_reservation, link_volume_reservation,
  mark_volume_attached,
}
use wrenn.Volumes.Service.{
  Result, Stop, fails, panics, fail, invalid_request, volume_in_use, volume_host_mismatch, resolve,
}

pub record ReservedVolume : Type 0 where
  pub id : Ident
  pub team_id : Ident
  pub size_mb : ℕ
  pub mount_path : Text

unfoldable pub release_volume_reservations : List ReservedVolume → Db → Db
release_volume_reservations [] d = d
release_volume_reservations (rv ∷ rest) d =
    release_volume_reservations rest (release_volume_reservation rv.id d).1

unfoldable pub link_volume_reservations : List ReservedVolume → Ident → Db → Db
link_volume_reservations [] sandbox d = d
link_volume_reservations (rv ∷ rest) sandbox d =
    link_volume_reservations rest sandbox (link_volume_reservation rv.id sandbox d).1

abbrev pub mark_volumes_attached_retries : ℕ
mark_volumes_attached_retries = 3

-- The attempts that are left for one volume, and whether the next volume is tried; `expired k n` is
-- whether the context is done before the retry `n` of the volume `k`. The waits are not modelled.
unfoldable pub mark_attempts :
    (Ident → ℕ → Bool) → ℕ → ℕ → ReservedVolume → Ident → Ident → Db → Bool × Db
mark_attempts expired zero attempt rv host sandbox d = (true, d)
mark_attempts expired (suc n) attempt rv host sandbox d =
    let (answer, e) = mark_volume_attached rv.id host sandbox rv.mount_path d in
    let again = mark_attempts expired n (attempt + 1) rv host sandbox e in
    if ltb 0 attempt && expired rv.id attempt
    then (false, d)
    else elim answer [ ok _ ↦ (true, e) | err _ ↦ again ]

unfoldable pub mark_volumes_attached :
    (Ident → ℕ → Bool) → List ReservedVolume → Ident → Ident → Db → Db
unfolding mark_attempts
mark_volumes_attached expired [] host sandbox d = d
mark_volumes_attached expired (rv ∷ rest) host sandbox d =
    let (goes_on, e) = mark_attempts expired mark_volumes_attached_retries 0 rv host sandbox d in
    let others = mark_volumes_attached expired rest host sandbox e in if goes_on then others else e

-- A host that the volumes so far do not pin the capsule to, while they pin it to another.
abbrev pub conflicts : Option Ident → Option Ident → Bool
conflicts (some a) (some b) = not (text_eq a b)
conflicts none b = false
conflicts (some a) none = false

abbrev pub pin : Option Ident → Option Ident → Option Ident
pin pinned none = pinned
pin pinned (some b) = some b

abbrev pub reserved_of : Ident → Volume → ReservedVolume
reserved_of team v = record {
  id = v.id;
  team_id = team;
  size_mb = v.size_mb;
  mount_path = default_volume_mount_path (record { bytes = v.id; valid = true });
}

abbrev pub Reserving : Type 0
Reserving = Result (List ReservedVolume × Option Ident) × Db

-- An error gives the claims back; a panic does not come to that.
abbrev pub stopped : Stop → List ReservedVolume → Db → Reserving
unfolding release_volume_reservations
stopped (fails e) reserved d = fail e (release_volume_reservations reserved d)
stopped panics reserved d = (err panics, d)

-- The loop over the references, with the volumes seen, the host and the claims so far.
unfoldable pub reserve_each :
    Ident → List Text → List Ident → Option Ident → List ReservedVolume → Db → Reserving
reserve_each team [] seen pinned reserved d = (ok (reserved, pinned), d)
reserve_each team (ref ∷ refs) seen pinned reserved d =
    let (answer, e) = resolve team ref d in
    elim answer [
      | err why ↦ stopped why reserved e
      | ok vol ↦ elim (has_id vol.id seen) [
        | true ↦ reserve_each team refs seen pinned reserved e
        | false ↦ elim (conflicts pinned vol.host_id) [
          | true ↦ stopped (fails volume_host_mismatch) reserved e
          | false ↦
              let (claimed, f) = reserve_volume_for_attach vol.id e in
              elim claimed [
                | err _ ↦ stopped (fails volume_in_use) reserved f
                | ok _ ↦
                    reserve_each team refs (vol.id ∷ seen) (pin pinned vol.host_id)
                      (reserved ++ reserved_of team vol ∷ []) f
              ]
        ]
      ]
    ]

abbrev pub max_volumes_per_sandbox : ℕ
max_volumes_per_sandbox = 4

-- `available` is whether the deployment has a volume service.
unfoldable pub reserve_volumes_for_create : Bool → Ident → List Text → Db → Reserving
unfolding reserve_each
reserve_volumes_for_create available team refs d =
    if length refs == 0
    then (ok ([], none), d)
    else if ltb max_volumes_per_sandbox (length refs)
    then fail invalid_request d
    else if not available
    then fail invalid_request d
    else reserve_each team refs [] none [] d
