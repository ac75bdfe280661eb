-- ===== src/Team/Tests.antt =====
-- Teams on concrete inputs.
use wrenn.Prelude.{
  ◌≡◌, inl, inr, refl, true, false, [], ◌∷◌, none, some, if◌then◌else◌, text_eq, codes, err, ok,
  Bool-cases, trim_space, is_space,
}
use wrenn.Regexp.{matches}
use wrenn.Validate.{team_slug, slug_format, listed}
use wrenn.Volumes.{Ident, fine}
use wrenn.Team.{Role, owner, admin, member, Membership, Team, Tables, World, internal}
use wrenn.Team.Calls.{add_member, leave_team, update_member_role}
use wrenn.Team
use wrenn.Team.Slugs.{check_slug, change_slug}
use wrenn.Team.Held.{deleted_slug_stuck}
use wrenn.Team.Owners.{adds, leaves, changes_role, here, next, HasOwner, OwnersStay, one_owner}

abbrev acme : Ident
acme = 9 ∷ []

abbrev founder : Ident
founder = 1 ∷ []

abbrev guest : Ident
guest = 2 ∷ []

-- A team of its owner alone.
abbrev start : World
start = record {
  tables = record {
    ids = acme ∷ [];
    team = λ k.
        if text_eq k acme
        then some record {
          name = codes "acme";
          slug = codes "acme";
          is_byoc = false;
          deleted_at = none;
          slug_changed_at = none;
        }
        else none;
    members = λ k x.
        if text_eq k acme
        then if text_eq founder x then some record { role = owner; is_default = false } else none
        else none;
    reserved = λ s. none;
    api_keys = [];
  };
  users = λ email. some guest;
  calls = 0;
  turn = λ n. record { now = n; fault = fine };
}

-- The owner adds a member, and then tries to give up its role and to leave.
abbrev after : World
after =
    (leave_team acme founder
      (update_member_role acme founder founder (codes "member")
        (add_member acme founder (codes "guest@example.com") start).1).1).1

founder_owns : HasOwner (start.tables.team acme) (start.tables.members acme)
founder_owns = (
  founder,
  λ x. elim (Bool-cases (text_eq founder x)) [ inl e ↦ rw e (refl) | inr e ↦ rw e (refl) ],
)

one_owner_example :
    HasOwner (after.tables.team acme) (after.tables.members acme)
    × OwnersStay
        (start.tables.team acme)
        (after.tables.team acme)
        (start.tables.members acme)
        (after.tables.members acme)
one_owner_example =
    one_owner {w = start} {v = after} acme
      (next
        (next (next here (adds acme founder (codes "guest@example.com")))
          (changes_role acme founder founder (codes "member")))
        (leaves acme founder))
      founder_owns

joined : after.tables.members acme guest ≡ some record { role = member; is_default = false }
unfolding leave_team update_member_role add_member Team.get_team_membership Team.get_user_by_email
    Team.insert_team_member
joined = refl

-- A team that is deleted, and still has its slug.
abbrev old_team : Team
old_team = record {
  name = codes "gone";
  slug = codes "gone";
  is_byoc = false;
  deleted_at = some 0;
  slug_changed_at = none;
}

abbrev acme_team : Team
acme_team = record {
  name = codes "acme";
  slug = codes "acme";
  is_byoc = false;
  deleted_at = none;
  slug_changed_at = none;
}

abbrev with_deleted : World
with_deleted = record start {
  tables = record start.tables {
    ids = (8 ∷ []) ∷ acme ∷ [];
    team = λ k.
        if text_eq k (8 ∷ [])
        then some old_team
        else if text_eq k acme
        then some acme_team
        else none;
  };
}

deleted_slug_stuck_example :
    ((check_slug (codes " Gone") with_deleted).0 ≡ ok true)
    × ((change_slug 5 acme founder (codes " Gone") with_deleted).0 ≡ err internal)
    × ((change_slug 5 acme founder (codes " Gone") with_deleted).1.tables ≡ with_deleted.tables)
unfolding team_slug slug_format trim_space is_space matches listed
deleted_slug_stuck_example =
    deleted_slug_stuck 5 acme founder (codes " Gone") record { role = owner; is_default = false }
      acme_team with_deleted (λ n. refl) refl refl refl refl refl refl refl refl refl refl
