-- ===== src/Team/Moves.antt =====
-- The calls that move the slug of a team (pkg/service/team.go) keep its owner.
use wrenn.Prelude.{
  ℕ, ◌+◌, inl, inr, not, none, some, Text, text_eq, Outcome, err, ok, Bool-cases, Option-cases,
  ◌&&◌, Outcome-cases,
}
use wrenn.Validate.{team_slug}
use wrenn.Volumes.{Ident, DbError, no_rows, unique_violation, failed}
use wrenn.Team.{ReservedSlug, Team, Tables, World, found, fail_as, internally, get_team, is_live}
use wrenn.Team.Calls.{missing_always, by_admin}
use wrenn.Team.Slugs.{
  get_team_by_slug, select_slug, get_active_reserved_slug, active, insert_reserved_slug,
  set_reserved, reservation, delete_reserved_slug, update_team_slug, move_slug, is_taken,
  transaction, absent, claimable, swap, exchange, change_of, change_slug, cools, normal,
}
use wrenn.Team.Kept.{
  Kept, Kept-refl, Keeps, statement-Keeps, then-Keeps, fail_as-Keeps, transaction-Keeps,
  update_team-Kept,
}
use wrenn.Team.Members.{team-Keeps}
use wrenn.Team.Reads.{by_admin-Keeps}

absent-Keeps :
    {A : Type 0} (w : World) (p : Outcome DbError A × World) → Keeps w p → Keeps w (absent p)
absent-Keeps w (ok a, v) h = h
absent-Keeps w (err no_rows, v) h = h
absent-Keeps w (err unique_violation, v) h = h
absent-Keeps w (err failed, v) h = h

claimable-Keeps :
    (id : Ident) (w : World) (p : Outcome DbError ReservedSlug × World)
    → Keeps w p
    → Keeps w (claimable id p)
claimable-Keeps id w (ok r, v) h = elim (Bool-cases (text_eq r.team_id id)) [
  | inl e ↦ rw (claimable, e) (h)
  | inr e ↦ rw (claimable, e) (h)
]
claimable-Keeps id w (err no_rows, v) h = h
claimable-Keeps id w (err unique_violation, v) h = h
claimable-Keeps id w (err failed, v) h = h

by_slug-Keeps : (slug : Text) (w : World) → Keeps w (get_team_by_slug slug w)
unfolding get_team_by_slug
by_slug-Keeps slug w =
    statement-Keeps (λ now t. (found (select_slug slug t.team t.ids), t)) w (Kept-refl w.tables)

reserved-Keeps : (slug : Text) (w : World) → Keeps w (get_active_reserved_slug slug w)
unfolding get_active_reserved_slug
reserved-Keeps slug w =
    statement-Keeps (λ now t. (found (active now (t.reserved slug)), t)) w (Kept-refl w.tables)

reserve-Keeps : (slug : Text) (id : Ident) (w : World) → Keeps w (insert_reserved_slug slug id w)
unfolding insert_reserved_slug
reserve-Keeps slug id w =
    statement-Keeps
      (λ now t.
        (ok tt, set_reserved slug (some record { team_id = id; expires_at = now + reservation }) t))
      w (Kept-refl w.tables)

unreserve-Keeps : (slug : Text) (w : World) → Keeps w (delete_reserved_slug slug w)
unfolding delete_reserved_slug
unreserve-Keeps slug w =
    statement-Keeps (λ now t. (ok tt, set_reserved slug none t)) w (Kept-refl w.tables)

move_slug-Kept :
    (id : Ident) (slug : Text) (now : ℕ) (t : Tables) → Kept t (move_slug id slug now t).1
move_slug-Kept id slug now t = elim (Option-cases (t.team id)) [
  | inl n ↦ rw (move_slug, n) (Kept-refl t)
  | inr (v, at) ↦ elim (Bool-cases (is_live v.deleted_at && is_taken slug id t.team t.ids)) [
    | inl e ↦ rw (move_slug, at, e) (Kept-refl t)
    | inr e ↦
        rw (move_slug, at, e)
          (update_team-Kept id (λ u. is_live u.deleted_at)
            (λ u. record u { slug = slug; slug_changed_at = some now }) t)
  ]
]

slug-Keeps : (id : Ident) (slug : Text) (w : World) → Keeps w (update_team_slug id slug w)
unfolding update_team_slug
slug-Keeps id slug w =
    statement-Keeps (λ now t. move_slug id slug now t) w
      (move_slug-Kept id slug (w.turn w.calls).now w.tables)

swap-Keeps : (id : Ident) (old new : Text) (w : World) → Keeps w (swap id old new w)
unfolding swap
swap-Keeps id old new w =
    let p = fail_as internally (insert_reserved_slug old id w) in
    let q = fail_as internally (delete_reserved_slug new p.1) in
    then-Keeps w p _
      (fail_as-Keeps internally w (insert_reserved_slug old id w) (reserve-Keeps old id w))
      (λ _ _.
        then-Keeps p.1 q _
          (fail_as-Keeps internally p.1 (delete_reserved_slug new p.1) (unreserve-Keeps new p.1))
          (λ _ _.
            fail_as-Keeps internally q.1 (update_team_slug id new q.1) (slug-Keeps id new q.1)))

exchange-Keeps : (id : Ident) (old new : Text) (w : World) → Keeps w (exchange id old new w)
unfolding exchange
exchange-Keeps id old new w =
    let p = absent (get_team_by_slug new w) in
    let q = claimable id (get_active_reserved_slug new p.1) in
    let r = transaction (swap id old new) q.1 in
    then-Keeps w p _ (absent-Keeps w (get_team_by_slug new w) (by_slug-Keeps new w)) (λ free _.
      elim (Bool-cases (not free)) [
        | inl e ↦ rw e (Kept-refl p.1.tables)
        | inr e ↦ rw e (
            then-Keeps p.1 q _
              (claimable-Keeps id p.1 (get_active_reserved_slug new p.1) (reserved-Keeps new p.1))
              (λ _ _.
                then-Keeps q.1 r (λ _ w3. (ok old, w3))
                  (transaction-Keeps (swap id old new) q.1 (λ v u s. swap-Keeps id old new v))
                  (λ _ _. Kept-refl r.1.tables)))
      ])

change_of-Keeps :
    (clock : ℕ) (id : Ident) (new : Text) (v : Team) (w : World)
    → Keeps w (change_of clock id new v w)
unfolding change_of
change_of-Keeps clock id new v w = elim (Bool-cases (not (is_live v.deleted_at))) [
  | inl a ↦ rw (change_of, a) (Kept-refl w.tables)
  | inr a ↦ elim (Bool-cases (text_eq v.slug new)) [
    | inl b ↦ rw (change_of, a, b) (Kept-refl w.tables)
    | inr b ↦ elim (Bool-cases (cools clock v.slug_changed_at)) [
      | inl c ↦ rw (change_of, a, b, c) (Kept-refl w.tables)
      | inr c ↦ rw (change_of, a, b, c) (exchange-Keeps id v.slug new w)
    ]
  ]
]

pub change_slug-Keeps :
    (clock : ℕ) (id caller : Ident) (slug : Text) (w : World)
    → Keeps w (change_slug clock id caller slug w)
unfolding change_slug
change_slug-Keeps clock id caller slug w =
    let p = by_admin id caller w in
    let q = fail_as missing_always (get_team id p.1) in
    elim (Outcome-cases (team_slug (normal slug))) [
      | inl (e, h) ↦ rw (change_slug, h) (Kept-refl w.tables)
      | inr (u, h) ↦
          rw (change_slug, h)
            (then-Keeps w p _ (by_admin-Keeps id caller w) (λ _ _.
              then-Keeps p.1 q _
                (fail_as-Keeps missing_always p.1 (get_team id p.1) (team-Keeps id p.1))
                (λ v _. change_of-Keeps clock id (normal slug) v q.1)))
    ]
