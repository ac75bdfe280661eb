-- ===== src/Volumes/Turns.antt =====
-- The ways in which one turn of the loop of reserveVolumesForCreate goes.
use wrenn.Prelude.{
  ◌≡◌, refl, inl, inr, true, false, List, [], ◌∷◌, ◌++◌, Option, Text, Outcome, Outcome-cases, err,
  ok, Bool-cases,
}
use wrenn.Volumes.{Ident, Volume, Db, DbError, has_id}
use wrenn.Volumes.Statements.{reserve_volume_for_attach}
use wrenn.Volumes.Service.{Stop, fails, volume_in_use, volume_host_mismatch, resolve}
use wrenn.Volumes.Reserve.{ReservedVolume, reserve_each, stopped, conflicts, pin, reserved_of}

module _ (team : Ident) (ref : Text) (refs : List Text) (seen : List Ident) (pinned : Option Ident)
    (reserved : List ReservedVolume) (d : Db) where
  abbrev resolved : Outcome Stop Volume × Db
  resolved = resolve team ref d

  abbrev claimed : Volume → Outcome DbError Volume × Db
  claimed vol = reserve_volume_for_attach vol.id resolved.1

  abbrev result : Outcome Stop (List ReservedVolume × Option Ident) × Db
  result = reserve_each team (ref ∷ refs) seen pinned reserved d

  pub data EachCase : Type 0 where
    unresolved :
        (why : Stop) → resolved.0 ≡ err why → result ≡ stopped why reserved resolved.1 → EachCase
    repeated :
        (vol : Volume)
        → resolved.0 ≡ ok vol
        → has_id vol.id seen ≡ true
        → result ≡ reserve_each team refs seen pinned reserved resolved.1
        → EachCase
    mismatched :
        (vol : Volume)
        → resolved.0 ≡ ok vol
        → has_id vol.id seen ≡ false
        → conflicts pinned vol.host_id ≡ true
        → result ≡ stopped (fails volume_host_mismatch) reserved resolved.1
        → EachCase
    refused :
        (vol : Volume)
        → resolved.0 ≡ ok vol
        → has_id vol.id seen ≡ false
        → conflicts pinned vol.host_id ≡ false
        → (x : DbError) → (claimed vol).0 ≡ err x
        → result ≡ stopped (fails volume_in_use) reserved (claimed vol).1
        → EachCase
    claims :
        (vol : Volume)
        → resolved.0 ≡ ok vol
        → has_id vol.id seen ≡ false
        → conflicts pinned vol.host_id ≡ false
        → (v : Volume) → (claimed vol).0 ≡ ok v
        → result
          ≡ reserve_each team refs
              (vol.id ∷ seen)
              (pin pinned vol.host_id)
              (reserved ++ reserved_of team vol ∷ [])
              (claimed vol).1
        → EachCase

  pub EachCase-of : EachCase
  unfolding reserve_each
  EachCase-of = elim (Outcome-cases resolved.0) [
    | inl (why, w) ↦ unresolved why w (rw (reserve_each, w) refl)
    | inr (vol, w) ↦ elim (Bool-cases (has_id vol.id seen)) [
      | inl s ↦ repeated vol w s (rw (reserve_each, w, s) refl)
      | inr s ↦ elim (Bool-cases (conflicts pinned vol.host_id)) [
        | inl c ↦ mismatched vol w s c (rw (reserve_each, w, s, c) refl)
        | inr c ↦ elim (Outcome-cases (claimed vol).0) [
          | inl (x, r) ↦ refused vol w s c x r (rw (reserve_each, w, s, c, r) refl)
          | inr (v, r) ↦ claims vol w s c v r (rw (reserve_each, w, s, c, r) refl)
        ]
      ]
    ]
  ]
