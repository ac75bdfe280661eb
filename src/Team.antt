-- ===== src/Team.antt =====
-- pkg/service/team.go: the teams, their members, and the slugs that they give up
-- (pkg/db/teams.sql.go). A statement runs as one step on all the tables.
pub mod Calls
pub mod Slugs
pub mod Kept
pub mod Reads
pub mod Members
pub mod Moves
pub mod Held
pub mod Owners
mod Tests
use wrenn.Prelude.{
  ℕ, ◌+◌, ◌≡◌, Bool, true, false, not, ◌&&◌, ◌||◌, ◌==◌, List, [], ◌∷◌, Option, none, some,
  if◌then◌else◌, Text, text_eq, codes, is_digit, is_letter, Outcome, err, ok,
}
use wrenn.Regexp.{Regexp, class, seq, up_to, matches}
use wrenn.Volumes.{Ident, Turn, fine, refused, lost, DbError, no_rows, unique_violation, failed}

pub data Role : Type 0 where
  owner admin member : Role

abbrev pub role_code : Role → ℕ
role_code owner = 0
role_code admin = 1
role_code member = 2

abbrev pub is_role : Role → Role → Bool
is_role a b = role_code a == role_code b

-- A row of users_teams.
pub record Membership : Type 0 where
  pub role : Role
  pub is_default : Bool

pub record Team : Type 0 where
  pub name : Text
  pub slug : Text
  pub is_byoc : Bool
  pub deleted_at : Option ℕ
  pub slug_changed_at : Option ℕ

pub record ReservedSlug : Type 0 where
  pub team_id : Ident
  pub expires_at : ℕ

-- The members are by team and user, and an API key is the pair of its team and its creator.
pub record Tables : Type 0 where
  pub ids : List Ident
  pub team : Ident → Option Team
  pub members : Ident → Ident → Option Membership
  pub reserved : Text → Option ReservedSlug
  pub api_keys : List (Ident × Ident)

-- The users are read only, by their email. The time and the fate of each call of the database to
-- come are as those of the volumes.
pub record World : Type 0 where
  pub tables : Tables
  pub users : Text → Option Ident
  pub calls : ℕ
  pub turn : ℕ → Turn

abbrev pub with_tables : Tables → World → World
with_tables t w = record w { tables = t; calls = w.calls + 1 }

abbrev pub statement {ℓ} :
    {R : Type ℓ} → (ℕ → Tables → Outcome DbError R × Tables) → World → Outcome DbError R × World
statement run w =
    let turn = w.turn w.calls in
    let (answer, t) = run turn.now w.tables in
    elim turn.fault [
      | fine ↦ (answer, with_tables t w)
      | refused ↦ (err failed, with_tables w.tables w)
      | lost ↦ (err failed, with_tables t w)
    ]

abbrev pub found {ℓ} : {A : Type ℓ} → Option A → Outcome DbError A
found none = err no_rows
found (some a) = ok a

abbrev pub set_member : Ident → Ident → Option Membership → Tables → Tables
set_member team user m t = record t {
  members = λ j k. if text_eq j team && text_eq k user then m else t.members j k;
}

abbrev pub set_team : Ident → Team → Tables → Tables
set_team id v t = record t { team = λ k. if text_eq k id then some v else t.team k }

-- UPDATE teams ... WHERE id = $1 AND test.
abbrev pub update_team : Ident → (Team → Bool) → (Team → Team) → Tables → Tables
update_team id test change t = elim (t.team id) [
  | none ↦ t
  | some v ↦ if test v then set_team id (change v) t else t
]

unfoldable pub get_team_membership : Ident → Ident → World → Outcome DbError Membership × World
get_team_membership team user = statement (λ now t. (found (t.members team user), t))

unfoldable pub get_user_by_email : Text → World → Outcome DbError Ident × World
get_user_by_email email w = statement (λ now t. (found (w.users email), t)) w

unfoldable pub get_team : Ident → World → Outcome DbError Team × World
get_team id = statement (λ now t. (found (t.team id), t))

-- A membership needs its team, and is one for each team and user.
abbrev pub insert_row : Ident → Ident → Role → Tables → Outcome DbError (Unit {0}) × Tables
insert_row user team role t = elim (t.team team) [
  | none ↦ (err failed, t)
  | some v ↦ elim (t.members team user) [
    | some m ↦ (err unique_violation, t)
    | none ↦ (ok tt, set_member team user (some record { role = role; is_default = false }) t)
  ]
]

unfoldable pub insert_team_member :
    Ident → Ident → Role → World → Outcome DbError (Unit {0}) × World
insert_team_member user team role = statement (λ now t. insert_row user team role t)

unfoldable pub delete_team_member : Ident → Ident → World → Outcome DbError (Unit {0}) × World
delete_team_member team user = statement (λ now t. (ok tt, set_member team user none t))

abbrev pub change_role : Role → Option Membership → Option Membership
change_role role none = none
change_role role (some m) = some (record m { role = role })

unfoldable pub update_role : Ident → Ident → Role → World → Outcome DbError (Unit {0}) × World
update_role team user role =
    statement (λ now t. (ok tt, set_member team user (change_role role (t.members team user)) t))

abbrev pub is_key_of : Ident → Ident → Ident × Ident → Bool
is_key_of team user (a, b) = text_eq a team && text_eq b user

abbrev pub without_keys : Ident → Ident → List (Ident × Ident) → List (Ident × Ident)
without_keys team user [] = []
without_keys team user (k ∷ ks) =
    let rest = without_keys team user ks in if is_key_of team user k then rest else k ∷ rest

unfoldable pub delete_api_keys_by_team_and_creator :
    Ident → Ident → World → Outcome DbError (Unit {0}) × World
delete_api_keys_by_team_and_creator team user =
    statement (λ now t. (ok tt, record t { api_keys = without_keys team user t.api_keys }))

abbrev pub is_live : Option ℕ → Bool
is_live none = true
is_live (some deleted) = false

unfoldable pub update_team_name : Ident → Text → World → Outcome DbError (Unit {0}) × World
update_team_name id name =
    statement (λ now t.
      (ok tt, update_team id (λ v. is_live v.deleted_at) (λ v. record v { name = name }) t))

unfoldable pub set_team_byoc : Ident → Bool → World → Outcome DbError (Unit {0}) × World
set_team_byoc id byoc =
    statement (λ now t. (ok tt, update_team id (λ v. true) (λ v. record v { is_byoc = byoc }) t))

pub data Error : Type 0 where
  validation_failed forbidden not_found user_not_found team_not_found conflict internal : Error

-- What a call answers, and the calls after it, which an error ends.
abbrev pub Answer : Type 0 → Type 0
Answer R = Outcome Error R × World

abbrev pub then_ : {A B : Type 0} → Answer A → (A → World → Answer B) → Answer B
then_ (err e, w) next = (err e, w)
then_ (ok a, w) next = next a w

abbrev pub fail_as : {A : Type 0} → (DbError → Error) → Outcome DbError A × World → Answer A
fail_as e (err d, w) = (err (e d), w)
fail_as e (ok a, w) = (ok a, w)

abbrev pub internally : DbError → Error
internally d = internal

abbrev pub missing_as : Error → DbError → Error
missing_as e no_rows = e
missing_as e unique_violation = internal
missing_as e failed = internal
