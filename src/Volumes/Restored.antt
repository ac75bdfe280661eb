-- ===== src/Volumes/Restored.antt =====
-- A create that fails gives back what it claimed.
use wrenn.Prelude.{
  ◌≡◌, ◌≢◌, refl, sym, ap, subst, ◌∙◌, inl, inr, Bool, true, false, ◌||◌, List, [], ◌∷◌, ◌++◌,
  Option, none, some, Text, text_eq, text_eq→≡, err, ok, arith, Bool-cases, Option-cases,
}
use wrenn.Volumes.{Ident, Volume, Db}
use wrenn.Volumes.Statements.{reserve_volume_for_attach, release_volume_reservation}
use wrenn.Volumes.Service.{
  Error, Result, Stop, fails, panics, volume_in_use, volume_host_mismatch, resolve,
}
use wrenn.Volumes.Turns.{EachCase-of, unresolved, repeated, mismatched, refused, claims}
use wrenn.Volumes.Reserve.{
  reserved_of, ReservedVolume, release_volume_reservations, reserve_each,
  reserve_volumes_for_create, stopped, pin,
}
use wrenn.Volumes.Untouched.{
  Reads, row_of, is_reserved, is_reserved-snoc, resolve-Reads, reserve_keeps,
}
use wrenn.Volumes.Claimed.{
  IsFine, IsTidy, IsAttaching, untimed, undone, release_undone, release_turn, reserve_turn,
  reserve_row, reserve_missing, not_attaching, ||-true, claim-IsAttaching, ||-false,
  reserve-IsAttaching, reserve_refused, IsAttaching-IsTidy,
}

pub release_all_undone :
    (k : Ident) (b : Bool) (reserved : List ReservedVolume) (d : Db)
    → IsFine d
    → undone b (row_of (release_volume_reservations reserved d) k)
      ≡ undone (is_reserved k reserved || b) (row_of d k)
unfolding release_volume_reservations
release_all_undone k b [] d h = refl
release_all_undone k b (rv ∷ rest) d h =
    let e = (release_volume_reservation rv.id d).1 in
    let later =
      release_all_undone k b rest e (λ n. ap (λ t. (t n).fault) (release_turn rv.id d) ∙ h n) in
    later
    ∙ (release_undone rv.id k (is_reserved k rest || b) d h
        ∙ ap (λ c. undone c (row_of d k)) (ground arith))

claim_undone_here :
    (id : Ident) (b : Bool) (d : Db) (v : Volume)
    → (reserve_volume_for_attach id d).0 ≡ ok v
    → IsTidy (row_of d id)
    → (b ≡ true → IsAttaching (row_of d id))
    → undone true (row_of (reserve_volume_for_attach id d).1 id) ≡ undone b (row_of d id)
claim_undone_here id b d v h tidy claimed = elim (Option-cases (row_of d id)) [
  | inl e ↦ absurd (reserve_missing id d v h e)
  | inr (w, e) ↦
      let (was, now) = reserve_row id d v w h e in
      let alone : w.sandbox_id ≡ none = (rw e at tidy) was in
      let fresh : b ≡ false = not_attaching b w was (rw e at claimed) in
      rw (now, e, fresh)
        (ap (λ s. some (record w { status = s; sandbox_id = none; last_updated = 0 })) (sym was)
          ∙ ap (λ c. some (record w { sandbox_id = c; last_updated = 0 })) (sym alone))
]

-- Undoing a claim that was just made, with those made before, is undoing the ones made before.
pub claim_undone :
    (id k : Ident) (b : Bool) (d : Db) (v : Volume)
    → (reserve_volume_for_attach id d).0 ≡ ok v
    → IsTidy (row_of d k)
    → (b ≡ true → IsAttaching (row_of d k))
    → undone (b || text_eq k id) (row_of (reserve_volume_for_attach id d).1 k)
      ≡ undone b (row_of d k)
claim_undone id k b d v h tidy claimed = elim (Bool-cases (text_eq k id)) [
  | inl e ↦
      let same = text_eq→≡ k id e in
      rw (e, same, ||-true b) (claim_undone_here id b d v h (rw same at tidy) (rw same at claimed))
  | inr e ↦ rw (e, ||-false b) (ap (undone b) (reserve_keeps id k d e))
]

false_ne_true : false ≢ true
false_ne_true e = cc

ok_ne_err : {e : Stop} {a : List ReservedVolume × Option Ident} → ok a ≢ err e
ok_ne_err h = cc

panics_ne_fails :
    {e : Error}
    → Path (Result (List ReservedVolume × Option Ident)) (err panics) (err (fails e))
    → ⊥
panics_ne_fails h = cc

stopped_restores :
    (k : Ident) (why : Stop) (e : Error) (reserved : List ReservedVolume) (d : Db)
    → IsFine d
    → (stopped why reserved d).0 ≡ err (fails e)
    → untimed (row_of (stopped why reserved d).1 k) ≡ undone (is_reserved k reserved) (row_of d k)
unfolding release_volume_reservations
stopped_restores k (fails _) e reserved d fine_d h =
    release_all_undone k false reserved d fine_d
    ∙ ap (λ b. undone b (row_of d k)) (||-false (is_reserved k reserved))
stopped_restores k panics e reserved d fine_d h = absurd (panics_ne_fails h)

-- What is known of the rows while the loop runs: detached volumes belong to no capsule, and the
-- volumes that it has claimed are attaching.
pub record IsHeld (reserved : List ReservedVolume) (d : Db) : Type 0 where
  pub answered : IsFine d
  pub tidy : (k : Ident) → IsTidy (row_of d k)
  pub held : (k : Ident) → is_reserved k reserved ≡ true → IsAttaching (row_of d k)

pub read-IsHeld :
    (reserved : List ReservedVolume) (d e : Db) → Reads d e → IsHeld reserved d → IsHeld reserved e
read-IsHeld reserved d e (rows, turns) h = record {
  answered = λ n. ap (λ t. (t n).fault) turns ∙ h.answered n;
  tidy = λ k. subst (λ t. IsTidy (t.row k)) (sym rows) (h.tidy k);
  held = λ k r. subst (λ t. IsAttaching (t.row k)) (sym rows) (h.held k r);
}

pub claim-IsHeld :
    (team : Ident) (reserved : List ReservedVolume) (d : Db) (vol v : Volume)
    → (reserve_volume_for_attach vol.id d).0 ≡ ok v
    → IsHeld reserved d
    → IsHeld (reserved ++ reserved_of team vol ∷ []) (reserve_volume_for_attach vol.id d).1
claim-IsHeld team reserved d vol v r h = record {
  answered = λ n. ap (λ t. (t n).fault) (reserve_turn vol.id d) ∙ h.answered n;
  tidy = λ k. elim (Bool-cases (text_eq k vol.id)) [
    | inl e ↦
        IsAttaching-IsTidy (row_of (reserve_volume_for_attach vol.id d).1 k) (claimed_here k e)
    | inr e ↦ subst IsTidy (sym (reserve_keeps vol.id k d e)) (h.tidy k)
  ];
  held = claim-IsAttaching team reserved d vol v r h.held;
}
  where
    claimed_here :
        (k : Ident)
        → text_eq k vol.id ≡ true
        → IsAttaching (row_of (reserve_volume_for_attach vol.id d).1 k)
    claimed_here k e =
        subst (λ i. IsAttaching (row_of (reserve_volume_for_attach vol.id d).1 i))
          (sym (text_eq→≡ k vol.id e)) (reserve-IsAttaching vol.id d v r)

each_restores :
    (team k : Ident) (refs : List Text) (seen : List Ident) (pinned : Option Ident)
    (reserved : List ReservedVolume) (d : Db) (e : Error)
    → IsHeld reserved d
    → (reserve_each team refs seen pinned reserved d).0 ≡ err (fails e)
    → untimed (row_of (reserve_each team refs seen pinned reserved d).1 k)
      ≡ undone (is_reserved k reserved) (row_of d k)
unfolding reserve_each
each_restores team k [] seen pinned reserved d e h failed = absurd (ok_ne_err failed)
each_restores team k (ref ∷ refs) seen pinned reserved d e h failed =
    let f = (resolve team ref d).1 in
    let reads = resolve-Reads team ref d in
    let now = read-IsHeld reserved d f reads h in
    let read : undone (is_reserved k reserved) (row_of f k)
        ≡ undone (is_reserved k reserved) (row_of d k) =
      ap (λ t. undone (is_reserved k reserved) (t.row k)) reads.0 in
    elim (EachCase-of team ref refs seen pinned reserved d) [
      | unresolved why w same ↦
          rw same (stopped_restores k why e reserved f now.answered (rw same at failed) ∙ read)
      | repeated vol w s same ↦
          rw same
            (each_restores team k refs seen pinned reserved f e now (rw same at failed) ∙ read)
      | mismatched vol w s c same ↦ rw same (
          stopped_restores k (fails volume_host_mismatch) e reserved f now.answered
            (rw same at failed)
          ∙ read)
      | refused vol w s c x r same ↦
          let next = (reserve_volume_for_attach vol.id f).1 in
          rw same (
            stopped_restores k (fails volume_in_use) e reserved next
              (λ n. ap (λ t. (t n).fault) (reserve_turn vol.id f) ∙ now.answered n)
              (rw same at failed)
            ∙ (ap (undone (is_reserved k reserved)) (reserve_refused vol.id k f x now.answered r)
                ∙ read))
      | claims vol w s c v r same ↦
          let next = (reserve_volume_for_attach vol.id f).1 in
          rw same (
            each_restores team k refs (vol.id ∷ seen) (pin pinned vol.host_id)
              (reserved ++ reserved_of team vol ∷ []) next e
              (claim-IsHeld team reserved f vol v r now) (rw same at failed)
            ∙ (ap (λ b. undone b (row_of next k))
                  (is_reserved-snoc k reserved (reserved_of team vol))
                ∙ (claim_undone vol.id k (is_reserved k reserved) f v r (now.tidy k) (now.held k)
                    ∙ read)))
    ]

-- When every call of the database is answered and no detached volume belongs to a capsule, a create
-- that is refused its volumes leaves every row as it was, up to the time of its last change.
pub reserve_volumes_restores :
    (available : Bool) (team k : Ident) (refs : List Text) (d : Db) (e : Error)
    → IsFine d
    → ((i : Ident) → IsTidy (row_of d i))
    → (reserve_volumes_for_create available team refs d).0 ≡ err (fails e)
    → untimed (row_of (reserve_volumes_for_create available team refs d).1 k) ≡ untimed (row_of d k)
unfolding reserve_volumes_for_create
reserve_volumes_restores available team k refs d e answered tidy failed = ground (
  arith,
  each_restores team k refs [] none [] d e
      (record { answered = answered; tidy = tidy; held = λ i among. absurd (false_ne_true among) }),
)
