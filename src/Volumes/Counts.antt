-- ===== src/Volumes/Counts.antt =====
-- How many volumes a create claims, and the guards before its loop.
use wrenn.Prelude.{
  suc, ◌==◌, ◌+◌, ◌≤◌, ◌≡◌, refl, ap, inl, inr, Bool, false, ltb, List, [], ◌∷◌, ◌++◌, Option, none,
  length, Text, is_ok, ◌⊎◌, ok, arith, Bool-cases,
}
use wrenn.Volumes.{Ident, Db}
use wrenn.Volumes.Statements.{reserve_volume_for_attach}
use wrenn.Volumes.Service.{fails, volume_in_use, volume_host_mismatch, resolve}
use wrenn.Volumes.Turns.{EachCase-of, unresolved, repeated, mismatched, refused, claims}
use wrenn.Volumes.Reserve.{
  reserved_of, ReservedVolume, reserve_each, reserve_volumes_for_create, pin,
}
use wrenn.Volumes.Reserve.{max_volumes_per_sandbox}
use wrenn.Volumes.Pins.{ok_injective, stopped_fails}

length-snoc :
    (reserved : List ReservedVolume) (rv : ReservedVolume)
    → length (reserved ++ rv ∷ []) ≡ suc (length reserved)
length-snoc [] rv = refl
length-snoc (r ∷ rest) rv = ap suc (length-snoc rest rv)

pub each_count :
    (team : Ident) (refs : List Text) (seen : List Ident) (pinned : Option Ident)
    (reserved all_reserved : List ReservedVolume) (final : Option Ident) (d : Db)
    → (reserve_each team refs seen pinned reserved d).0 ≡ ok (all_reserved, final)
    → length all_reserved ≤ length refs + length reserved
unfolding reserve_each
each_count team [] seen pinned reserved all_reserved final d got =
    let same : length reserved ≡ length all_reserved = ap (λ a. length a.0) (ok_injective got) in
    omega (arith, same)
each_count team (ref ∷ refs) seen pinned reserved all_reserved final d got =
    let f = (resolve team ref d).1 in
    let a : List ReservedVolume × Option Ident = (all_reserved, final) in
    elim (EachCase-of team ref refs seen pinned reserved d) [
      | unresolved why w same ↦ absurd (stopped_fails why reserved f a (rw same at got))
      | repeated vol w s same ↦
          let more =
            each_count team refs seen pinned reserved all_reserved final f (rw same at got) in
          omega (arith, more)
      | mismatched vol w s c same ↦
          absurd (stopped_fails (fails volume_host_mismatch) reserved f a (rw same at got))
      | refused vol w s c x r same ↦ absurd (
          stopped_fails (fails volume_in_use) reserved (reserve_volume_for_attach vol.id f).1 a
            (rw same at got))
      | claims vol w s c v r same ↦
          let more =
            each_count team refs (vol.id ∷ seen) (pin pinned vol.host_id)
              (reserved ++ reserved_of team vol ∷ []) all_reserved final
              (reserve_volume_for_attach vol.id f).1 (rw same at got) in
          let one_more = length-snoc reserved (reserved_of team vol) in
          omega (arith, more, one_more)
    ]

-- The guards of reserveVolumesForCreate.
pub asked :
    (available : Bool) (team : Ident) (refs : List Text) (d : Db)
    → let r = reserve_volumes_for_create available team refs d in
      (r ≡ (ok ([], none), d))
      ⊎ (is_ok r.0 ≡ false)
      ⊎ ((length refs ≤ 4) × (r ≡ reserve_each team refs [] none [] d))
unfolding reserve_volumes_for_create
asked available team refs d = elim (Bool-cases (length refs == 0)) [
  | inl none_asked ↦ inl (rw none_asked refl)
  | inr some_asked ↦ elim (Bool-cases (ltb max_volumes_per_sandbox (length refs))) [
    | inl many ↦ inr (inl (rw (some_asked, many) refl))
    | inr few ↦ elim (Bool-cases available) [
      | inl here ↦ inr (inr (ground (arith, few), rw (some_asked, few, here) refl))
      | inr missing ↦ inr (inl (rw (some_asked, few, missing) refl))
    ]
  ]
]
