-- ===== src/Volumes/Pins.antt =====
-- A host that volumes pin a capsule to stays the host of the whole create.
use wrenn.Prelude.{
  ◌≡◌, sym, ap, ◌∙◌, false, List, [], ◌∷◌, ◌++◌, Option, none, some, Text, text_eq→≡, ok, arith,
}
use wrenn.Volumes.{Ident, Db}
use wrenn.Volumes.Statements.{reserve_volume_for_attach}
use wrenn.Volumes.Service.{
  Result, Stop, fails, panics, volume_in_use, volume_host_mismatch, resolve,
}
use wrenn.Volumes.Turns.{EachCase-of, unresolved, repeated, mismatched, refused, claims}
use wrenn.Volumes.Reserve.{
  conflicts, reserved_of, ReservedVolume, release_volume_reservations, reserve_each, stopped, pin,
}

pub ok_injective :
    {a b : List ReservedVolume × Option Ident}
    → Path (Result (List ReservedVolume × Option Ident)) (ok a) (ok b)
    → a ≡ b
ok_injective e = cc

pub stopped_fails :
    (why : Stop) (reserved : List ReservedVolume) (d : Db) (a : List ReservedVolume × Option Ident)
    → (stopped why reserved d).0 ≡ ok a
    → ⊥
unfolding release_volume_reservations
stopped_fails (fails e) reserved d a h = ground arith
stopped_fails panics reserved d a h = ground arith

pub pin_kept :
    (pinned host : Option Ident) (h : Ident)
    → conflicts pinned host ≡ false
    → pinned ≡ some h
    → pin pinned host ≡ some h
pin_kept none host h c e = absurd (ground arith)
pin_kept (some a) none h c e = e
pin_kept (some a) (some b) h c e =
    let agree : a ≡ b = text_eq→≡ a b (ground arith) in ap some (sym agree) ∙ e

pub each_pinned :
    (team : Ident) (refs : List Text) (seen : List Ident) (pinned : Option Ident)
    (reserved all_reserved : List ReservedVolume) (final : Option Ident) (d : Db) (h : Ident)
    → (reserve_each team refs seen pinned reserved d).0 ≡ ok (all_reserved, final)
    → pinned ≡ some h
    → final ≡ some h
unfolding reserve_each
each_pinned team [] seen pinned reserved all_reserved final d h got e =
    sym (ap (λ a. a.1) (ok_injective got)) ∙ e
each_pinned team (ref ∷ refs) seen pinned reserved all_reserved final d h got e =
    let f = (resolve team ref d).1 in
    let a : List ReservedVolume × Option Ident = (all_reserved, final) in
    elim (EachCase-of team ref refs seen pinned reserved d) [
      | unresolved why w same ↦ absurd (stopped_fails why reserved f a (rw same at got))
      | repeated vol w s same ↦
          each_pinned team refs seen pinned reserved all_reserved final f h (rw same at got) e
      | mismatched vol w s c same ↦
          absurd (stopped_fails (fails volume_host_mismatch) reserved f a (rw same at got))
      | refused vol w s c x r same ↦ absurd (
          stopped_fails (fails volume_in_use) reserved (reserve_volume_for_attach vol.id f).1 a
            (rw same at got))
      | claims vol w s c v r same ↦
          each_pinned team refs (vol.id ∷ seen) (pin pinned vol.host_id)
            (reserved ++ reserved_of team vol ∷ []) all_reserved final
            (reserve_volume_for_attach vol.id f).1 h (rw same at got)
            (pin_kept pinned vol.host_id h c e)
    ]
