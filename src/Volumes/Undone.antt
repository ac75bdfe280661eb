-- ===== src/Volumes/Undone.antt =====
-- Giving back all the claims of a create that got its volumes.
use wrenn.Prelude.{
  ◌≡◌, ◌≢◌, refl, sym, ap, ◌∙◌, inl, inr, Bool, true, false, List, [], ◌∷◌, ◌++◌, Option, none,
  Text, is_ok, ok,
}
use wrenn.Volumes.{Ident, Db}
use wrenn.Volumes.Statements.{reserve_volume_for_attach}
use wrenn.Volumes.Service.{fails, volume_in_use, volume_host_mismatch, resolve}
use wrenn.Volumes.Turns.{EachCase-of, unresolved, repeated, mismatched, refused, claims}
use wrenn.Volumes.Reserve.{
  reserved_of, ReservedVolume, reserve_each, reserve_volumes_for_create, pin,
}
use wrenn.Volumes.Untouched.{row_of, is_reserved, is_reserved-snoc, resolve-Reads}
use wrenn.Volumes.Claimed.{IsFine, IsTidy, untimed, undone, reserve_turn}
use wrenn.Volumes.Restored.{IsHeld, read-IsHeld, claim-IsHeld, claim_undone}
use wrenn.Volumes.Pins.{ok_injective, stopped_fails}
use wrenn.Volumes.Counts.{asked}

each_undone :
    (team k : Ident) (refs : List Text) (seen : List Ident) (pinned : Option Ident)
    (reserved all_reserved : List ReservedVolume) (final : Option Ident) (d : Db)
    → IsHeld reserved d
    → (reserve_each team refs seen pinned reserved d).0 ≡ ok (all_reserved, final)
    → undone
        (is_reserved k all_reserved)
        (row_of (reserve_each team refs seen pinned reserved d).1 k)
      ≡ undone (is_reserved k reserved) (row_of d k)
unfolding reserve_each
each_undone team k [] seen pinned reserved all_reserved final d h got =
    ap (λ a. undone (is_reserved k a.0) (row_of d k)) (sym (ok_injective got))
each_undone team k (ref ∷ refs) seen pinned reserved all_reserved final d h got =
    let f = (resolve team ref d).1 in
    let reads = resolve-Reads team ref d in
    let a : List ReservedVolume × Option Ident = (all_reserved, final) in
    let now = read-IsHeld reserved d f reads h in
    let read : undone (is_reserved k reserved) (row_of f k)
        ≡ undone (is_reserved k reserved) (row_of d k) =
      ap (λ t. undone (is_reserved k reserved) (t.row k)) reads.0 in
    elim (EachCase-of team ref refs seen pinned reserved d) [
      | unresolved why w same ↦ absurd (stopped_fails why reserved f a (rw same at got))
      | repeated vol w s same ↦ rw same (
          each_undone team k refs seen pinned reserved all_reserved final f now (rw same at got)
          ∙ read)
      | mismatched vol w s c same ↦
          absurd (stopped_fails (fails volume_host_mismatch) reserved f a (rw same at got))
      | refused vol w s c x r same ↦ absurd (
          stopped_fails (fails volume_in_use) reserved (reserve_volume_for_attach vol.id f).1 a
            (rw same at got))
      | claims vol w s c v r same ↦
          let next = (reserve_volume_for_attach vol.id f).1 in
          rw same (
            each_undone team k refs (vol.id ∷ seen) (pin pinned vol.host_id)
              (reserved ++ reserved_of team vol ∷ []) all_reserved final next
              (claim-IsHeld team reserved f vol v r now) (rw same at got)
            ∙ (ap (λ b. undone b (row_of next k))
                  (is_reserved-snoc k reserved (reserved_of team vol))
                ∙ (claim_undone vol.id k (is_reserved k reserved) f v r (now.tidy k) (now.held k)
                    ∙ read)))
    ]

true_ne_false : true ≢ false
true_ne_false e = cc

pub reserve_undone :
    (available : Bool) (team k : Ident) (refs : List Text) (d : Db) (reserved : List ReservedVolume)
    (pinned : Option Ident)
    → IsFine d
    → ((i : Ident) → IsTidy (row_of d i))
    → (reserve_volumes_for_create available team refs d).0 ≡ ok (reserved, pinned)
    → undone
        (is_reserved k reserved)
        (row_of (reserve_volumes_for_create available team refs d).1 k)
      ≡ untimed (row_of d k)
reserve_undone available team k refs d reserved pinned answered tidy got =
    elim (asked available team refs d) [
      | inl same ↦
          let nothing : reserved ≡ [] = sym (ap (λ a. a.0) (ok_injective (rw same at got))) in
          rw (same, nothing) refl
      | inr (inl failed) ↦ absurd (true_ne_false (ap is_ok (sym got) ∙ failed))
      | inr (inr (few, same)) ↦ rw same (
          each_undone team k refs [] none [] reserved pinned d
            (record {
              answered = answered;
              tidy = tidy;
              held = λ i among. absurd (true_ne_false (sym among));
            })
            (rw same at got))
    ]

each_turn :
    (team : Ident) (refs : List Text) (seen : List Ident) (pinned : Option Ident)
    (reserved : List ReservedVolume) (a : List ReservedVolume × Option Ident) (d : Db)
    → (reserve_each team refs seen pinned reserved d).0 ≡ ok a
    → (reserve_each team refs seen pinned reserved d).1.turn ≡ d.turn
unfolding reserve_each
each_turn team [] seen pinned reserved a d got = refl
each_turn team (ref ∷ refs) seen pinned reserved a d got =
    let f = (resolve team ref d).1 in
    let reads = resolve-Reads team ref d in
    elim (EachCase-of team ref refs seen pinned reserved d) [
      | unresolved why w same ↦ absurd (stopped_fails why reserved f a (rw same at got))
      | repeated vol w s same ↦
          rw same (each_turn team refs seen pinned reserved a f (rw same at got) ∙ reads.1)
      | mismatched vol w s c same ↦
          absurd (stopped_fails (fails volume_host_mismatch) reserved f a (rw same at got))
      | refused vol w s c x r same ↦ absurd (
          stopped_fails (fails volume_in_use) reserved (reserve_volume_for_attach vol.id f).1 a
            (rw same at got))
      | claims vol w s c v r same ↦
          let next = (reserve_volume_for_attach vol.id f).1 in
          rw same (
            each_turn team refs (vol.id ∷ seen) (pin pinned vol.host_id)
              (reserved ++ reserved_of team vol ∷ []) a next (rw same at got)
            ∙ (reserve_turn vol.id f ∙ reads.1))
    ]

pub reserve_all_turn :
    (available : Bool) (team : Ident) (refs : List Text) (d : Db)
    (a : List ReservedVolume × Option Ident)
    → (reserve_volumes_for_create available team refs d).0 ≡ ok a
    → (reserve_volumes_for_create available team refs d).1.turn ≡ d.turn
reserve_all_turn available team refs d a got = elim (asked available team refs d) [
  | inl same ↦ rw same refl
  | inr (inl failed) ↦ absurd (true_ne_false (ap is_ok (sym got) ∙ failed))
  | inr (inr (few, same)) ↦ rw same (each_turn team refs [] none [] a d (rw same at got))
]
