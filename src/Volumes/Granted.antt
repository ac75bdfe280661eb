-- ===== src/Volumes/Granted.antt =====
-- What a create that gets its volumes has claimed.
use wrenn.Prelude.{
  ℕ, ◌≤◌, ◌≡◌, ◌≢◌, refl, sym, ap, subst, ◌∙◌, inl, inr, Bool, true, false, ◌||◌, List, [], ◌∷◌,
  ◌++◌, Option, none, some, length, Text, text_eq, text_eq→≡, text_eq_refl, is_ok, ◌⊎◌, ok, arith,
  Bool-cases,
}
use wrenn.Volumes.Resolved.{IsKeyed, resolve_found}
use wrenn.Volumes.{Ident, Volume, Db, detached}
use wrenn.Volumes.Statements.{reserve_volume_for_attach}
use wrenn.Volumes.Service.{fails, volume_in_use, volume_host_mismatch, resolve}
use wrenn.Volumes.Turns.{EachCase-of, unresolved, repeated, mismatched, refused, claims}
use wrenn.Volumes.Reserve.{
  reserved_of, ReservedVolume, reserve_each, reserve_volumes_for_create, pin,
}
use wrenn.Volumes.Untouched.{
  Reads, row_of, is_reserved, is_reserved-snoc, resolve-Reads, reserve_keeps,
}
use wrenn.Volumes.Claimed.{
  IsAttaching, reserve_row, not_attaching, ||-true, ||-false, claim-IsAttaching,
}
use wrenn.Volumes.Statements.{claim}
use wrenn.Volumes.Pins.{ok_injective, stopped_fails, each_pinned}
use wrenn.Volumes.Counts.{each_count, asked}

-- The host that volumes pin a capsule to is the host of each of them that has one.
abbrev pub IsPinned : Option Ident → Option Ident → Type 0
IsPinned pin none = Unit {0}
IsPinned pin (some h) = pin ≡ some h

-- What becomes of a row that is claimed for a team.
pub record IsGranted (team : Ident) (pinned : Option Ident) (before after : Option Volume)
    : Type 0 where
  pub volume : Volume
  pub now : ℕ
  pub was : before ≡ some volume
  pub was_detached : volume.status ≡ detached
  pub own : text_eq volume.team_id team ≡ true
  pub host : IsPinned pinned volume.host_id
  pub becomes : after ≡ some (claim now volume)

abbrev Grants : Ident → Bool → Bool → Option Ident → Option Volume → Option Volume → Type 0
Grants team claimed_before claimed_after pinned before after =
    ((claimed_after ≡ claimed_before) × (after ≡ before))
    ⊎ ((claimed_before ≡ false) × (claimed_after ≡ true) × IsGranted team pinned before after)

-- The volumes that a loop has claimed are attaching.
abbrev AllAttaching : List ReservedVolume → Db → Type 0
AllAttaching reserved d = (k : Ident) → is_reserved k reserved ≡ true → IsAttaching (row_of d k)

read_attaching :
    (reserved : List ReservedVolume) (d e : Db)
    → Reads d e
    → AllAttaching reserved d
    → AllAttaching reserved e
read_attaching reserved d e (rows, turns) h k among =
    subst (λ t. IsAttaching (t.row k)) (sym rows) (h k among)

true_ne_false : true ≢ false
true_ne_false e = cc

-- One claim, and what the rest of the loop adds to it: the row that is claimed, and another one.
module _ (team : Ident) (reserved all_reserved : List ReservedVolume) (final : Option Ident)
    (d : Db) (vol v : Volume) (r : (reserve_volume_for_attach vol.id d).0 ≡ ok v) where
  abbrev Later : Ident → Option Volume → Type 0
  Later k after =
      Grants team (is_reserved k (reserved ++ reserved_of team vol ∷ []))
        (is_reserved k all_reserved) final (row_of (reserve_volume_for_attach vol.id d).1 k) after

  abbrev Now : Ident → Option Volume → Type 0
  Now k after =
      Grants team (is_reserved k reserved) (is_reserved k all_reserved) final (row_of d k) after

  claim_grants_here :
      (after : Option Volume)
      → row_of d vol.id ≡ some vol
      → text_eq vol.team_id team ≡ true
      → IsPinned final vol.host_id
      → AllAttaching reserved d
      → Later vol.id after
      → Now vol.id after
  claim_grants_here after at own host held later =
      let (was, becomes) = reserve_row vol.id d v vol r at in
      let among : is_reserved vol.id (reserved ++ reserved_of team vol ∷ []) ≡ true =
        is_reserved-snoc vol.id reserved (reserved_of team vol)
        ∙ (ap (λ b. is_reserved vol.id reserved || b) (text_eq_refl vol.id)
            ∙ ||-true (is_reserved vol.id reserved)) in
      let fresh =
        not_attaching (is_reserved vol.id reserved) vol was (λ h. rw at at (held vol.id h)) in
      elim later [
        | inl (members, keeps) ↦ inr (
          fresh,
          members ∙ among,
          record {
            volume = vol;
            now = (d.turn d.calls).now;
            was = at;
            was_detached = was;
            own = own;
            host = host;
            becomes = keeps ∙ becomes;
          },
        )
        | inr (other, _, _) ↦ absurd (true_ne_false (sym among ∙ other))
      ]

  claim_grants_other :
      (k : Ident) (after : Option Volume) → text_eq k vol.id ≡ false → Later k after → Now k after
  claim_grants_other k after e later =
      let members : is_reserved k (reserved ++ reserved_of team vol ∷ []) ≡ is_reserved k reserved =
        is_reserved-snoc k reserved (reserved_of team vol)
        ∙ (ap (λ b. is_reserved k reserved || b) e ∙ ||-false (is_reserved k reserved)) in
      rw (members, reserve_keeps vol.id k d e) at later

  claim_grants :
      (k : Ident) (after : Option Volume)
      → row_of d vol.id ≡ some vol
      → text_eq vol.team_id team ≡ true
      → IsPinned final vol.host_id
      → AllAttaching reserved d
      → Later k after
      → Now k after
  claim_grants k after at own host held later = elim (Bool-cases (text_eq k vol.id)) [
    | inl e ↦
        let same = text_eq→≡ k vol.id e in
        subst (λ i. Now i after) (sym same)
          (claim_grants_here after at own host held (subst (λ i. Later i after) same later))
    | inr e ↦ claim_grants_other k after e later
  ]

IsPinned-by :
    (final pinned host : Option Ident)
    → ((h : Ident) → pin pinned host ≡ some h → final ≡ some h)
    → IsPinned final host
IsPinned-by final pinned none f = tt
IsPinned-by final pinned (some h) f = f h refl

claim-IsKeyed :
    (d : Db) (vol v : Volume)
    → (reserve_volume_for_attach vol.id d).0 ≡ ok v
    → row_of d vol.id ≡ some vol
    → IsKeyed d
    → IsKeyed (reserve_volume_for_attach vol.id d).1
claim-IsKeyed d vol v r at keyed k u here = elim (Bool-cases (text_eq k vol.id)) [
  | inl e ↦
      let same = text_eq→≡ k vol.id e in
      let claimed : some (claim (d.turn d.calls).now vol) ≡ some u =
        sym (reserve_row vol.id d v vol r at).1 ∙ (rw same at here) in
      sym (ap (λ x. x.id) (some_injective claimed)) ∙ sym same
  | inr e ↦ keyed k u (sym (reserve_keeps vol.id k d e) ∙ here)
]
  where
    some_injective : {a b : Volume} → some a ≡ some b → a ≡ b
    some_injective h = cc

each-Grants :
    (team k : Ident) (refs : List Text) (seen : List Ident) (pinned : Option Ident)
    (reserved all_reserved : List ReservedVolume) (final : Option Ident) (d : Db)
    → IsKeyed d
    → AllAttaching reserved d
    → (reserve_each team refs seen pinned reserved d).0 ≡ ok (all_reserved, final)
    → Grants team
        (is_reserved k reserved)
        (is_reserved k all_reserved)
        final
        (row_of d k)
        (row_of (reserve_each team refs seen pinned reserved d).1 k)
unfolding reserve_each
each-Grants team k [] seen pinned reserved all_reserved final d keyed held got =
    inl (ap (λ a. is_reserved k a.0) (sym (ok_injective got)), refl)
each-Grants team k (ref ∷ refs) seen pinned reserved all_reserved final d keyed held got =
    let f = (resolve team ref d).1 in
    let reads = resolve-Reads team ref d in
    let a : List ReservedVolume × Option Ident = (all_reserved, final) in
    let still : AllAttaching reserved f = read_attaching reserved d f reads held in
    let keyed_f : IsKeyed f = λ i u at. keyed i u (ap (λ t. t.row i) (sym reads.0) ∙ at) in
    let read : row_of f k ≡ row_of d k = ap (λ t. t.row k) reads.0 in
    elim (EachCase-of team ref refs seen pinned reserved d) [
      | unresolved why w same ↦ absurd (stopped_fails why reserved f a (rw same at got))
      | repeated vol w s same ↦
          rw (same, ← read)
            (each-Grants team k refs seen pinned reserved all_reserved final f keyed_f still
              (rw same at got))
      | mismatched vol w s c same ↦
          absurd (stopped_fails (fails volume_host_mismatch) reserved f a (rw same at got))
      | refused vol w s c x r same ↦ absurd (
          stopped_fails (fails volume_in_use) reserved (reserve_volume_for_attach vol.id f).1 a
            (rw same at got))
      | claims vol w s c v r same ↦
          let next = (reserve_volume_for_attach vol.id f).1 in
          let got_next = rw same at got in
          let (at, own) = resolve_found team ref d vol keyed w in
          let at_f : row_of f vol.id ≡ some vol = ap (λ t. t.row vol.id) reads.0 ∙ at in
          let host : IsPinned final vol.host_id = IsPinned-by final pinned vol.host_id (λ h.
            each_pinned team refs (vol.id ∷ seen) (pin pinned vol.host_id)
              (reserved ++ reserved_of team vol ∷ []) all_reserved final next h got_next) in
          rw (same, ← read)
            (claim_grants team reserved all_reserved final f vol v r k
              (row_of
                (reserve_each team refs (vol.id ∷ seen) (pin pinned vol.host_id)
                  (reserved ++ reserved_of team vol ∷ []) next).1
                k)
              at_f own host still
              (each-Grants team k refs (vol.id ∷ seen) (pin pinned vol.host_id)
                (reserved ++ reserved_of team vol ∷ []) all_reserved final next
                (claim-IsKeyed f vol v r at_f keyed_f)
                (claim-IsAttaching team reserved f vol v r still) got_next))
    ]

-- A row under the claims that a create ends with.
abbrev pub HasClaims : Ident → Option Ident → Bool → Option Volume → Option Volume → Type 0
HasClaims team pinned claimed before after =
    ((claimed ≡ false) × (after ≡ before)) ⊎ ((claimed ≡ true) × IsGranted team pinned before after)

-- When a create gets its volumes, over a table whose rows stand under their identifiers: they are at
-- most four, each of them was detached and the team's own, is now attaching and otherwise
-- unchanged, and has no host or the one that the capsule is pinned to; every other row is as it was.
pub reserve_volumes_grants :
    (available : Bool) (team k : Ident) (refs : List Text) (d : Db) (reserved : List ReservedVolume)
    (pinned : Option Ident)
    → IsKeyed d
    → (reserve_volumes_for_create available team refs d).0 ≡ ok (reserved, pinned)
    → (length reserved ≤ 4)
      × HasClaims team pinned
          (is_reserved k reserved)
          (row_of d k)
          (row_of (reserve_volumes_for_create available team refs d).1 k)
reserve_volumes_grants available team k refs d reserved pinned keyed got =
    elim (asked available team refs d) [
      | inl same ↦
          let nothing : reserved ≡ [] = sym (ap (λ a. a.0) (ok_injective (rw same at got))) in
          rw (same, nothing) (omega arith, inl (refl, refl))
      | inr (inl failed) ↦ absurd (true_ne_false (ap is_ok (sym got) ∙ failed))
      | inr (inr (few, same)) ↦
          let got_each : (reserve_each team refs [] none [] d).0 ≡ ok (reserved, pinned) =
            rw same at got in
          let count = each_count team refs [] none [] reserved pinned d got_each in
          rw same (
            omega (arith, few, count),
            elim (each-Grants team k refs [] none [] reserved pinned d keyed
                (λ i among. absurd (true_ne_false (sym among))) got_each) [
                  | inl kept ↦ inl kept
                  | inr (_, among, granted) ↦ inr (among, granted)
                ],
          )
    ]
