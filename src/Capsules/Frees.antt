-- ===== src/Capsules/Frees.antt =====
-- When the volumes of a capsule are given back.
use wrenn.Prelude.{
  ℕ, zero, suc, ◌+◌, ◌≤◌, ◌<◌, ◌≡◌, ◌≢◌, ◌⊎◌, inl, inr, refl, ap, ◌∙◌, Bool, true, false, ◌&&◌, ltb,
  List, Option, Outcome-cases, err, ok, arith, Bool-cases,
}
use wrenn.Volumes.{Ident, Volume, Db}
use wrenn.Volumes.Service
use wrenn.Volumes.Reserve.{ReservedVolume, release_volume_reservations, reserve_volumes_for_create}
use wrenn.Volumes.Untouched.{row_of, is_reserved}
use wrenn.Volumes.Claimed.{IsFine, IsTidy, untimed, undone, ||-false}
use wrenn.Volumes.Restored.{reserve_volumes_restores, release_all_undone}
use wrenn.Volumes.Undone.{reserve_all_turn, reserve_undone}
use wrenn.Capsules.{World, insert_sandbox, with_db, Result, Error, fails, panics}
use wrenn.Capsules.Change.{
  Attempt, destroyed, not_there, broken, Attempts, Teardown, confirmed, unconfirmed, gave_up,
  tear_down, destroy_in_background,
}
use wrenn.Capsules.Create.{
  Lookups, CreateParams, Plan, Host, Boot, new_sandbox, insert, placed, reserved_for, find_host,
  create, plan,
}

-- An answer of the host that says the capsule does not run on it.
abbrev pub is_gone : Attempt → Bool
is_gone destroyed = true
is_gone not_there = true
is_gone broken = false

pub tear_down-confirmed :
    (k i : ℕ) (calls : Attempts)
    → tear_down k i calls ≡ confirmed
    → (j : ℕ) × (i ≤ j) × (j < i + k) × (is_gone (calls.reply j) ≡ true)
unfolding tear_down
tear_down-confirmed zero i calls h = absurd (unconfirmed_ne_confirmed h)
  where
    unconfirmed_ne_confirmed : unconfirmed ≢ confirmed
    unconfirmed_ne_confirmed e = cc
tear_down-confirmed (suc k) i calls h = elim (Bool-cases (ltb 0 i && calls.expired i)) [
  | inl e ↦ absurd (ground arith)
  | inr e ↦ elim (Bool-cases (is_gone (calls.reply i))) [
    | inl gone ↦ (i, omega arith, omega arith, gone)
    | inr there ↦
        let later : tear_down k (i + 1) calls ≡ confirmed = ground arith in
        let (j, low, high, gone) = tear_down-confirmed k (i + 1) calls later in
        (j, omega (arith, low), omega (arith, high), gone)
  ]
]

Teardown-cases : (t : Teardown) → (t ≡ confirmed) ⊎ (t ≡ unconfirmed) ⊎ (t ≡ gave_up)
Teardown-cases confirmed = inl refl
Teardown-cases unconfirmed = inr (inl refl)
Teardown-cases gave_up = inr (inr refl)

-- The goroutine of a destroy changes neither table unless one of its three attempts is answered with
-- the capsule gone from the host.
pub destroy_in_background_frees :
    (id : Ident) (calls : Attempts) (w : World)
    → (((destroy_in_background id calls w).db ≡ w.db)
        × ((destroy_in_background id calls w).sandboxes ≡ w.sandboxes))
      ⊎ ((i : ℕ) × (i < 3) × (is_gone (calls.reply i) ≡ true))
unfolding destroy_in_background
destroy_in_background_frees id calls w = elim (Teardown-cases (tear_down 3 0 calls)) [
  | inl e ↦
      let (j, low, high, gone) = tear_down-confirmed 3 0 calls e in
      inr (j, omega (arith, high), gone)
  | inr (inl e) ↦ inl (rw (destroy_in_background, e) (refl, refl))
  | inr (inr e) ↦ inl (rw (destroy_in_background, e) (refl, refl))
]

-- Giving the claims of a create back, from any world with its volumes.
release_restores :
    (k : Ident) (reserved : List ReservedVolume) (d e : Db) (before : Option Volume)
    → IsFine d
    → e.volumes ≡ d.volumes
    → e.turn ≡ d.turn
    → undone (is_reserved k reserved) (row_of d k) ≡ before
    → untimed (row_of (release_volume_reservations reserved e) k) ≡ before
release_restores k reserved d e before answered rows turns h =
    release_all_undone k false reserved e (λ n. ap (λ t. (t n).fault) turns ∙ answered n)
    ∙ (ap (λ b. undone b (row_of e k)) (||-false (is_reserved k reserved))
        ∙ (ap (λ t. undone (is_reserved k reserved) (t.row k)) rows ∙ h))

insert_db :
    (p : Plan) (h : Host) (w : World)
    → ((insert_sandbox (new_sandbox p h) w).1.db.volumes ≡ w.db.volumes)
      × ((insert_sandbox (new_sandbox p h) w).1.db.turn ≡ w.db.turn)
unfolding insert_sandbox
insert_db p h w = ground arith

placed_restores :
    (p : Plan) (k : Ident) (reserved : List ReservedVolume) (r : Result Host) (w : World)
    (before : Option Volume) (e : Error)
    → IsFine w.db
    → undone (is_reserved k reserved) (row_of w.db k) ≡ before
    → (placed p reserved r w).0 ≡ err (fails e)
    → untimed (row_of (placed p reserved r w).1.db k) ≡ before
placed_restores p k reserved (err (fails x)) w before e answered h failed =
    release_restores k reserved w.db w.db before answered refl refl h
placed_restores p k reserved (err panics) w before e answered h failed =
    absurd (panics_ne_fails failed)
  where
    panics_ne_fails : {x : Error} → Path (Result Boot) (err panics) (err (fails x)) → ⊥
    panics_ne_fails q = cc
placed_restores p k reserved (ok host) w before e answered h failed =
    let v = (insert_sandbox (new_sandbox p host) w).1 in
    let (rows, turns) = insert_db p host w in
    elim (Outcome-cases (insert_sandbox (new_sandbox p host) w).0) [
      | inl (x, r) ↦
          rw (insert, r) (release_restores k reserved w.db v.db before answered rows turns h)
      | inr (sb, r) ↦ absurd (ok_ne_fails (rw (insert, r) at failed))
    ]
  where
    ok_ne_fails : {b : Boot} {x : Error} → Path (Result Boot) (ok b) (err (fails x)) → ⊥
    ok_ne_fails q = cc

reserved_for_restores :
    (look : Lookups) (q : Plan) (is_byoc : Bool) (k : Ident) (w : World) (e : Error)
    → IsFine w.db
    → ((i : Ident) → IsTidy (row_of w.db i))
    → let r = reserve_volumes_for_create look.volumes_available q.team q.volume_refs w.db in
      (reserved_for look q is_byoc r w).0 ≡ err (fails e)
      → untimed (row_of (reserved_for look q is_byoc r w).1.db k) ≡ untimed (row_of w.db k)
reserved_for_restores look q is_byoc k w e answered tidy failed =
    let r = reserve_volumes_for_create look.volumes_available q.team q.volume_refs w.db in
    elim (Outcome-cases r.0) [
      | inl (Service.fails x, same) ↦
          rw (reserved_for, same)
            (reserve_volumes_restores look.volumes_available q.team k q.volume_refs w.db x answered
              tidy same)
      | inl (Service.panics, same) ↦ absurd (panics_ne_fails (rw (reserved_for, same) at failed))
      | inr ((reserved, pinned), same) ↦
          rw (reserved_for, same)
            (placed_restores q k reserved (find_host look pinned is_byoc q) (with_db r.1 w)
              (untimed (row_of w.db k)) e
              (λ n.
                ap (λ t. (t n).fault)
                  (reserve_all_turn look.volumes_available q.team q.volume_refs w.db
                    (reserved, pinned) same)
                ∙ answered n)
              (reserve_undone look.volumes_available q.team k q.volume_refs w.db reserved pinned
                answered tidy same)
              (rw (reserved_for, same) at failed))
    ]
  where
    panics_ne_fails : {x : Error} → Path (Result Boot) (err panics) (err (fails x)) → ⊥
    panics_ne_fails h = cc

-- When every call of the database is answered and no detached volume belongs to a capsule, a create
-- that returns an error, at whatever point, leaves every volume as it was, up to the time of its
-- last change.
pub create_restores :
    (look : Lookups) (id k : Ident) (p : CreateParams) (w : World) (e : Error)
    → IsFine w.db
    → ((i : Ident) → IsTidy (row_of w.db i))
    → (create look id p w).0 ≡ err (fails e)
    → untimed (row_of (create look id p w).1.db k) ≡ untimed (row_of w.db k)
unfolding create
create_restores look id k p w e answered tidy failed = elim (Outcome-cases (plan look id p)) [
  | inl (x, r) ↦ rw (create, r) refl
  | inr ((q, is_byoc), r) ↦
      rw (create, r)
        (reserved_for_restores look q is_byoc k w e answered tidy (rw (create, r) at failed))
]
