-- ===== src/Team/Members.antt =====
-- The calls on the members of a team, its name and its flag (pkg/service/team.go) keep its owner.
use wrenn.Prelude.{
  ◌≡◌, inl, inr, refl, ap, ◌∙◌, Bool, true, false, not, some, if◌then◌else◌, Text, Outcome, err, ok,
  arith, Bool-cases, Option-cases,
}
use wrenn.Regexp.{matches}
use wrenn.Volumes.{Ident, DbError}
use wrenn.Team.{
  Role, owner, is_role, Membership, Team, World, found, then_, fail_as, internally, missing_as,
  forbidden, not_found, Answer, get_team_membership, delete_api_keys_by_team_and_creator,
  without_keys, delete_team_member, update_role, update_team, is_live, get_team, set_team_byoc,
  update_team_name,
}
use wrenn.Team.Calls.{
  caller_role, by_admin, member_below_owner, revoke, remove_member, update_member_role, grantable,
  update_to, below_owner, leave_team, rename_team, team_name_re, byoc_of, set_byoc, missing_always,
}
use wrenn.Team.Kept.{
  is_owner, Kept-refl, Keeps, statement-Keeps, then-Keeps, fail_as-Keeps, delete-Keeps,
  update_role-Keeps, update_team-Kept,
}
use wrenn.Team.Reads.{membership-Keeps, membership_row, caller_role-Keeps, by_admin-Keeps}

below-Keeps : (team user : Ident) (w : World) → Keeps w (member_below_owner team user w)
unfolding member_below_owner
below-Keeps team user w =
    let p = fail_as (missing_as not_found) (get_team_membership team user w) in
    then-Keeps w p _
      (fail_as-Keeps (missing_as not_found) w (get_team_membership team user w)
        (membership-Keeps team user w))
      (λ m _. elim (Bool-cases (is_role m.role owner)) [
        | inl e ↦ rw e (Kept-refl p.1.tables)
        | inr e ↦ rw e (Kept-refl p.1.tables)
      ])

abbrev not_owner : Membership → World → Answer (Unit {0})
not_owner m v = if is_role m.role owner then (err forbidden, v) else (ok tt, v)

below_row_of :
    (team user : Ident) (p : Outcome DbError Membership × World) (u : Unit {0})
    → ((m : Membership) → p.0 ≡ ok m → p.1.tables.members team user ≡ some m)
    → (then_ (fail_as (missing_as not_found) p) not_owner).0 ≡ ok u
    → is_owner ((then_ (fail_as (missing_as not_found) p) not_owner).1.tables.members team user)
      ≡ false
below_row_of team user (err d, v) u row h = cc
below_row_of team user (ok m, v) u row h = elim (Bool-cases (is_role m.role owner)) [
  | inl e ↦ ground (arith, e, h)
  | inr e ↦ rw (not_owner, e) (ap (λ q. is_owner q) (row m refl) ∙ e)
]

-- A row that is found not to be the owner's.
below_row :
    (team user : Ident) (w : World) (u : Unit {0})
    → (member_below_owner team user w).0 ≡ ok u
    → is_owner ((member_below_owner team user w).1.tables.members team user) ≡ false
unfolding member_below_owner
below_row team user w u h =
    below_row_of team user (get_team_membership team user w) u (membership_row team user w) h

keys-Keeps :
    (team user : Ident) (w : World) → Keeps w (delete_api_keys_by_team_and_creator team user w)
unfolding delete_api_keys_by_team_and_creator
keys-Keeps team user w =
    statement-Keeps (λ now t. (ok tt, record t { api_keys = without_keys team user t.api_keys })) w
      (Kept-refl w.tables)

revoke-Keeps : (team user : Ident) (w : World) → Keeps w (revoke team user w)
unfolding revoke
revoke-Keeps team user w = keys-Keeps team user w

-- The end of a membership that is not the owner's.
departure-Keeps :
    (team user : Ident) (w : World)
    → is_owner (w.tables.members team user) ≡ false
    → Keeps w
        (then_ (fail_as internally (delete_team_member team user w)) (λ _ v. revoke team user v))
departure-Keeps team user w h =
    let p = fail_as internally (delete_team_member team user w) in
    then-Keeps w p _
      (fail_as-Keeps internally w (delete_team_member team user w) (delete-Keeps team user w h))
      (λ _ _. revoke-Keeps team user p.1)

pub remove_member-Keeps :
    (team caller target : Ident) (w : World) → Keeps w (remove_member team caller target w)
unfolding remove_member
remove_member-Keeps team caller target w =
    let w1 = (by_admin team caller w).1 in
    then-Keeps w (by_admin team caller w) _ (by_admin-Keeps team caller w) (λ _ _.
      then-Keeps w1 (member_below_owner team target w1) _ (below-Keeps team target w1) (λ u e.
        departure-Keeps team target (member_below_owner team target w1).1
          (below_row team target w1 u e)))

grantable_below :
    (new_role : Text) (role : Role) → grantable new_role ≡ some role → is_role role owner ≡ false
grantable_below new_role role h = ground (arith, h)

update_to-Keeps :
    (team caller target : Ident) (role : Role) (w : World)
    → is_role role owner ≡ false
    → Keeps w (update_to team caller target role w)
update_to-Keeps team caller target role w below =
    let w1 = (by_admin team caller w).1 in
    let w2 = (member_below_owner team target w1).1 in
    then-Keeps w (by_admin team caller w) _ (by_admin-Keeps team caller w) (λ _ _.
      then-Keeps w1 (member_below_owner team target w1) _ (below-Keeps team target w1) (λ u e.
        fail_as-Keeps internally w2 (update_role team target role w2)
          (update_role-Keeps team target role w2 below (below_row team target w1 u e))))

pub update_member_role-Keeps :
    (team caller target : Ident) (new_role : Text) (w : World)
    → Keeps w (update_member_role team caller target new_role w)
unfolding update_member_role
update_member_role-Keeps team caller target new_role w = elim (Option-cases (grantable new_role)) [
  | inl e ↦ rw (update_member_role, e) (Kept-refl w.tables)
  | inr (role, e) ↦
      rw (update_member_role, e)
        (update_to-Keeps team caller target role w (grantable_below new_role role e))
]

caller_row_of :
    (team user : Ident) (p : Outcome DbError Membership × World) (role : Role)
    → ((m : Membership) → p.0 ≡ ok m → p.1.tables.members team user ≡ some m)
    → (then_ (fail_as (missing_as forbidden) p) (λ m v. (ok m.role, v))).0 ≡ ok role
    → is_role role owner ≡ false
    → is_owner (
        (then_ (fail_as (missing_as forbidden) p) (λ m v. (ok m.role, v))).1.tables.members team
          user)
      ≡ false
caller_row_of team user (err d, v) role row h n = cc
caller_row_of team user (ok m, v) role row h n =
    let same : m.role ≡ role = cc in
    ap (λ q. is_owner q) (row m refl) ∙ (ap (λ r. is_role r owner) same ∙ n)

caller_row :
    (team user : Ident) (w : World) (role : Role)
    → (caller_role team user w).0 ≡ ok role
    → is_role role owner ≡ false
    → is_owner ((caller_role team user w).1.tables.members team user) ≡ false
unfolding caller_role
caller_row team user w role h n =
    caller_row_of team user (get_team_membership team user w) role (membership_row team user w) h n

pub leave_team-Keeps : (team caller : Ident) (w : World) → Keeps w (leave_team team caller w)
unfolding leave_team below_owner
leave_team-Keeps team caller w =
    let p = caller_role team caller w in
    then-Keeps w p _ (caller_role-Keeps team caller w) (λ role e.
      elim (Bool-cases (is_role role owner)) [
        | inl o ↦ rw (below_owner, o) (Kept-refl p.1.tables)
        | inr n ↦
            rw (below_owner, n)
              (departure-Keeps team caller p.1 (caller_row team caller w role e n))
      ])

name-Keeps : (id : Ident) (name : Text) (w : World) → Keeps w (update_team_name id name w)
unfolding update_team_name
name-Keeps id name w =
    statement-Keeps
      (λ now t.
        (ok tt, update_team id (λ v. is_live v.deleted_at) (λ v. record v { name = name }) t))
      w (update_team-Kept id (λ v. is_live v.deleted_at) (λ v. record v { name = name }) w.tables)

pub rename_team-Keeps :
    (team caller : Ident) (name : Text) (w : World) → Keeps w (rename_team team caller name w)
unfolding rename_team
rename_team-Keeps team caller name w = elim (Bool-cases (not (matches team_name_re name))) [
  | inl e ↦ rw (rename_team, e) (Kept-refl w.tables)
  | inr e ↦
      let w1 = (by_admin team caller w).1 in
      rw (rename_team, e)
        (then-Keeps w (by_admin team caller w) _ (by_admin-Keeps team caller w) (λ _ _.
          fail_as-Keeps internally w1 (update_team_name team name w1) (name-Keeps team name w1)))
]

byoc-Keeps : (id : Ident) (byoc : Bool) (w : World) → Keeps w (set_team_byoc id byoc w)
unfolding set_team_byoc
byoc-Keeps id byoc w =
    statement-Keeps
      (λ now t. (ok tt, update_team id (λ v. true) (λ v. record v { is_byoc = byoc }) t)) w
      (update_team-Kept id (λ v. true) (λ v. record v { is_byoc = byoc }) w.tables)

pub team-Keeps : (id : Ident) (w : World) → Keeps w (get_team id w)
unfolding get_team
team-Keeps id w = statement-Keeps (λ now t. (found (t.team id), t)) w (Kept-refl w.tables)

byoc_of-Keeps :
    (id : Ident) (enabled : Bool) (v : Team) (w : World) → Keeps w (byoc_of id enabled v w)
byoc_of-Keeps id enabled v w = elim (Bool-cases (not (is_live v.deleted_at))) [
  | inl a ↦ rw (byoc_of, a) (Kept-refl w.tables)
  | inr a ↦ elim (Bool-cases (not enabled)) [
    | inl b ↦ rw (byoc_of, a, b) (Kept-refl w.tables)
    | inr b ↦ elim (Bool-cases v.is_byoc) [
      | inl c ↦ rw (byoc_of, a, b, c) (Kept-refl w.tables)
      | inr c ↦
          rw (byoc_of, a, b, c)
            (fail_as-Keeps internally w (set_team_byoc id true w) (byoc-Keeps id true w))
    ]
  ]
]

pub set_byoc-Keeps : (id : Ident) (enabled : Bool) (w : World) → Keeps w (set_byoc id enabled w)
unfolding set_byoc
set_byoc-Keeps id enabled w =
    let p = fail_as missing_always (get_team id w) in
    then-Keeps w p _ (fail_as-Keeps missing_always w (get_team id w) (team-Keeps id w))
      (λ v _. byoc_of-Keeps id enabled v p.1)
