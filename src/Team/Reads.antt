-- ===== src/Team/Reads.antt =====
-- The calls of pkg/service/team.go that read, and that add a member, keep the owner of a team.
use wrenn.Prelude.{
  ◌≡◌, inl, inr, refl, ap, ◌∙◌, not, ◌&&◌, some, Text, ok, Bool-cases, Outcome-cases,
}
use wrenn.Volumes.{Ident, no_rows, unique_violation, failed}
use wrenn.Team.{
  Role, owner, admin, member, is_role, Membership, World, found, fail_as, internally, missing_as,
  forbidden, user_not_found, get_team_membership, get_user_by_email, insert_team_member,
}
use wrenn.Team.Calls.{caller_role, require_admin, by_admin, already_member, add_member}
use wrenn.Team.Kept.{
  Kept-refl, Keeps, statement-Keeps, then-Keeps, fail_as-Keeps, insert_member-Keeps, answered,
  found-some,
}

-- A statement that reads.
pub membership-Keeps : (team user : Ident) (w : World) → Keeps w (get_team_membership team user w)
unfolding get_team_membership
membership-Keeps team user w =
    statement-Keeps (λ now t. (found (t.members team user), t)) w (Kept-refl w.tables)

pub membership_row :
    (team user : Ident) (w : World) (m : Membership)
    → (get_team_membership team user w).0 ≡ ok m
    → (get_team_membership team user w).1.tables.members team user ≡ some m
unfolding get_team_membership
membership_row team user w m h =
    let (got, tables) = answered (λ now t. (found (t.members team user), t)) w m h in
    ap (λ t. t.members team user) tables ∙ found-some (w.tables.members team user) m got

pub caller_role-Keeps : (team user : Ident) (w : World) → Keeps w (caller_role team user w)
unfolding caller_role
caller_role-Keeps team user w =
    let p = fail_as (missing_as forbidden) (get_team_membership team user w) in
    then-Keeps w p (λ m v. (ok m.role, v))
      (fail_as-Keeps (missing_as forbidden) w (get_team_membership team user w)
        (membership-Keeps team user w))
      (λ m e. Kept-refl p.1.tables)

require_admin-Keeps : (role : Role) (w : World) → Keeps w (require_admin role w)
require_admin-Keeps role w =
    elim (Bool-cases (not (is_role role owner) && not (is_role role admin))) [
      | inl e ↦ rw (require_admin, e) (Kept-refl w.tables)
      | inr e ↦ rw (require_admin, e) (Kept-refl w.tables)
    ]

pub by_admin-Keeps : (team caller : Ident) (w : World) → Keeps w (by_admin team caller w)
unfolding by_admin
by_admin-Keeps team caller w =
    then-Keeps w (caller_role team caller w) (λ role v. require_admin role v)
      (caller_role-Keeps team caller w)
      (λ role e. require_admin-Keeps role (caller_role team caller w).1)

already_member-Keeps : (team user : Ident) (w : World) → Keeps w (already_member team user w)
unfolding already_member
already_member-Keeps team user w =
    let read = membership-Keeps team user w in
    elim (Outcome-cases (get_team_membership team user w).0) [
      | inr (m, h) ↦ rw (already_member, h) (read)
      | inl (no_rows, h) ↦ rw (already_member, h) (read)
      | inl (unique_violation, h) ↦ rw (already_member, h) (read)
      | inl (failed, h) ↦ rw (already_member, h) (read)
    ]

email-Keeps : (email : Text) (w : World) → Keeps w (get_user_by_email email w)
unfolding get_user_by_email
email-Keeps email w = statement-Keeps (λ now t. (found (w.users email), t)) w (Kept-refl w.tables)

pub add_member-Keeps :
    (team caller : Ident) (email : Text) (w : World) → Keeps w (add_member team caller email w)
unfolding add_member
add_member-Keeps team caller email w =
    then-Keeps w (by_admin team caller w) _ (by_admin-Keeps team caller w) (λ _ _.
      let w1 = (by_admin team caller w).1 in
      let p = fail_as (missing_as user_not_found) (get_user_by_email email w1) in
      then-Keeps w1 p _
        (fail_as-Keeps (missing_as user_not_found) w1 (get_user_by_email email w1)
          (email-Keeps email w1))
        (λ target _.
          let w2 = p.1 in
          then-Keeps w2 (already_member team target w2) _ (already_member-Keeps team target w2)
            (λ _ _.
              let w3 = (already_member team target w2).1 in
              let q = fail_as internally (insert_team_member target team member w3) in
              then-Keeps w3 q _
                (fail_as-Keeps internally w3 (insert_team_member target team member w3)
                  (insert_member-Keeps target team member w3 refl))
                (λ _ _. Kept-refl q.1.tables))))
