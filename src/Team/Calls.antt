-- ===== src/Team/Calls.antt =====
-- The calls of pkg/service/team.go on the members of a team, its name and its flag.
use wrenn.Prelude.{
  ℕ, Bool, true, not, ◌&&◌, ◌||◌, ◌==◌, Option, none, some, if◌then◌else◌, Text, text_eq, codes,
  is_digit, is_letter, err, ok,
}
use wrenn.Regexp.{Regexp, class, seq, up_to, matches}
use wrenn.Volumes.{Ident, DbError, no_rows, unique_violation, failed}
use wrenn.Team.{
  Role, is_role, Team, World, get_team_membership, get_user_by_email, get_team, insert_team_member,
  delete_team_member, update_role, delete_api_keys_by_team_and_creator, is_live, update_team_name,
  set_team_byoc, Error, Answer, then_, fail_as, internally, missing_as, owner, admin, member,
  validation_failed, forbidden, not_found, user_not_found, team_not_found, conflict, internal,
}

unfoldable pub caller_role : Ident → Ident → World → Answer Role
caller_role team user w =
    then_ (fail_as (missing_as forbidden) (get_team_membership team user w)) (λ m v. (ok m.role, v))

abbrev pub require_admin : Role → World → Answer (Unit {0})
require_admin role w =
    if not (is_role role owner) && not (is_role role admin) then (err forbidden, w) else (ok tt, w)

-- The caller is an admin or the owner.
unfoldable pub by_admin : Ident → Ident → World → Answer (Unit {0})
unfolding caller_role
by_admin team caller w = then_ (caller_role team caller w) (λ role v. require_admin role v)

unfoldable pub already_member : Ident → Ident → World → Answer (Unit {0})
already_member team user w =
    let (answer, v) = get_team_membership team user w in
    elim answer [
      | ok m ↦ (err conflict, v)
      | err e ↦ elim e [
        | no_rows ↦ (ok tt, v)
        | unique_violation ↦ (err internal, v)
        | failed ↦ (err internal, v)
      ]
    ]

unfoldable pub add_member : Ident → Ident → Text → World → Answer Ident
unfolding by_admin already_member
add_member team caller email w = then_ (by_admin team caller w) (λ _ w1.
    then_ (fail_as (missing_as user_not_found) (get_user_by_email email w1)) (λ target w2.
      then_ (already_member team target w2) (λ _ w3.
        then_ (fail_as internally (insert_team_member target team member w3))
          (λ _ w4. (ok target, w4)))))

-- The row of a member who is not the owner.
unfoldable pub member_below_owner : Ident → Ident → World → Answer (Unit {0})
member_below_owner team user w =
    then_ (fail_as (missing_as not_found) (get_team_membership team user w))
      (λ m v. if is_role m.role owner then (err forbidden, v) else (ok tt, v))

-- The API keys of a user who left; a failure is only logged.
unfoldable pub revoke : Ident → Ident → World → Answer (Unit {0})
revoke team user w = (ok tt, (delete_api_keys_by_team_and_creator team user w).1)

unfoldable pub remove_member : Ident → Ident → Ident → World → Answer (Unit {0})
unfolding by_admin member_below_owner revoke
remove_member team caller target w = then_ (by_admin team caller w) (λ _ w1.
    then_ (member_below_owner team target w1) (λ _ w2.
      then_ (fail_as internally (delete_team_member team target w2))
        (λ _ w3. revoke team target w3)))

-- The roles that can be given.
abbrev pub grantable : Text → Option Role
grantable new_role =
    if text_eq new_role (codes "admin")
    then some admin
    else if text_eq new_role (codes "member")
    then some member
    else none

abbrev pub update_to : Ident → Ident → Ident → Role → World → Answer (Unit {0})
update_to team caller target role w = then_ (by_admin team caller w) (λ _ w1.
    then_ (member_below_owner team target w1)
      (λ _ w2. fail_as internally (update_role team target role w2)))

unfoldable pub update_member_role : Ident → Ident → Ident → Text → World → Answer (Unit {0})
unfolding by_admin member_below_owner
update_member_role team caller target new_role w = elim (grantable new_role) [
  | none ↦ (err validation_failed, w)
  | some role ↦ update_to team caller target role w
]

unfoldable pub below_owner : Role → World → Answer (Unit {0})
below_owner role w = if is_role role owner then (err forbidden, w) else (ok tt, w)

unfoldable pub leave_team : Ident → Ident → World → Answer (Unit {0})
unfolding caller_role below_owner revoke
leave_team team caller w = then_ (caller_role team caller w) (λ role w1.
    then_ (below_owner role w1) (λ _ w2.
      then_ (fail_as internally (delete_team_member team caller w2))
        (λ _ w3. revoke team caller w3)))

abbrev pub is_team_char : ℕ → Bool
is_team_char c =
    is_letter c || is_digit c || c == b' ' || c == b'_' || c == b'-' || c == b'@' || c == b'\''

-- ^[A-Za-z0-9 _\-@']{1,128}$
abbrev pub team_name_re : Regexp
team_name_re = seq (class is_team_char) (up_to 127 (class is_team_char))

unfoldable pub rename_team : Ident → Ident → Text → World → Answer (Unit {0})
unfolding by_admin
rename_team team caller name w =
    if not (matches team_name_re name)
    then (err validation_failed, w)
    else then_ (by_admin team caller w) (λ _ w1. fail_as internally (update_team_name team name w1))

-- SetBYOC: every error of the lookup is that the team is not there.
abbrev pub missing_always : DbError → Error
missing_always d = team_not_found

abbrev pub byoc_of : Ident → Bool → Team → World → Answer (Unit {0})
byoc_of id enabled v w =
    if not (is_live v.deleted_at)
    then (err team_not_found, w)
    else if not enabled
    then (err conflict, w)
    else if v.is_byoc
    then (ok tt, w)
    else fail_as internally (set_team_byoc id true w)

unfoldable pub set_byoc : Ident → Bool → World → Answer (Unit {0})
set_byoc id enabled w =
    then_ (fail_as missing_always (get_team id w)) (λ v w1. byoc_of id enabled v w1)
