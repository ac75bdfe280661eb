-- ===== src/Team/Owners.antt =====
-- Each team has one owner, for good (pkg/service/team.go): the creation of a team, and any run of the calls.
use wrenn.Prelude.{
  ℕ, ◌≡◌, inl, inr, refl, sym, ap, ◌∙◌, subst, Bool, true, false, not, ◌∷◌, Option, none, some,
  Text, text_eq, text_eq→≡, text_eq_refl, Outcome, err, ok, arith, Bool-cases, Option-cases,
}
use wrenn.Regexp.{matches}
use wrenn.Volumes.{Ident, DbError}
use wrenn.Team.{
  ReservedSlug, Role, owner, is_role, Membership, Team, Tables, World, statement, found, Answer,
  then_, fail_as, Error, internally, get_team, update_team, is_live, insert_team_member, set_team,
  set_member,
}
use wrenn.Team.Calls.{
  team_name_re, add_member, remove_member, update_member_role, leave_team, rename_team, set_byoc,
}
use wrenn.Team.Slugs.{
  is_taken, creation, create_team, insert_team, insert_row, new_team, change_slug,
}
use wrenn.Team.Moves.{change_slug-Keeps}
use wrenn.Team
use wrenn.Team.Kept.{
  is_owner, SameOwners, TeamKept, Kept, Kept-refl, Kept-trans, Keeps, transaction-Keeps, answered,
  same-TeamKept,
}
use wrenn.Team.Members.{
  remove_member-Keeps, update_member_role-Keeps, leave_team-Keeps, rename_team-Keeps,
  set_byoc-Keeps,
}
use wrenn.Team.Reads.{add_member-Keeps}

then_ok :
    {A B : Type 0} (e : DbError → Error) (p : Outcome DbError A × World)
    (next : A → World → Answer B) (b : B)
    → (then_ (fail_as e p) next).0 ≡ ok b
    → (a : A) × (p.0 ≡ ok a) × (then_ (fail_as e p) next ≡ next a p.1)
then_ok e (err d, v) next b h = cc
then_ok e (ok a, v) next b h = (a, refl, refl)

fail_as_ok :
    {A : Type 0} (e : DbError → Error) (p : Outcome DbError A × World) (a : A)
    → (fail_as e p).0 ≡ ok a
    → (p.0 ≡ ok a) × ((fail_as e p).1 ≡ p.1)
fail_as_ok e (err d, v) a h = cc
fail_as_ok e (ok b, v) a h = let same : b ≡ a = cc in (ap ok same, refl)

-- The tables with a team that is new, and with its owner.
abbrev with_team : Ident → Text → Text → Tables → Tables
with_team id name slug t = record (set_team id (new_team name slug) t) { ids = id ∷ t.ids }

abbrev with_owner : Ident → Ident → Tables → Tables
with_owner id user t = set_member id user (some record { role = owner; is_default = false }) t

inserted_team :
    (id : Ident) (name slug : Text) (t : Tables) (u : Unit {0})
    → (insert_row id name slug t).0 ≡ ok u
    → (t.team id ≡ none) × ((insert_row id name slug t).1 ≡ with_team id name slug t)
inserted_team id name slug t u h = elim (Option-cases (t.team id)) [
  | inr (v, e) ↦ ground (arith, e, h)
  | inl e ↦ elim (Bool-cases (is_taken slug id t.team t.ids)) [
    | inl f ↦ ground (arith, e, f, h)
    | inr f ↦ (e, rw (insert_row, e, f) (refl))
  ]
]

inserted_owner :
    (id user : Ident) (t : Tables) (u : Unit {0})
    → (Team.insert_row user id owner t).0 ≡ ok u
    → (Team.insert_row user id owner t).1 ≡ with_owner id user t
inserted_owner id user t u h = elim (Option-cases (t.team id)) [
  | inl e ↦ ground (arith, e, h)
  | inr (v, e) ↦ elim (Option-cases (t.members id user)) [
    | inr (m, f) ↦ ground (arith, e, f, h)
    | inl f ↦ rw (Team.insert_row, e, f) (refl)
  ]
]

new-TeamKept :
    (a : Option Team) (v : Team) (m n : Ident → Option Membership) (u : Ident)
    → a ≡ none
    → is_owner (n u) ≡ true
    → ((x : Ident) → text_eq u x ≡ false → is_owner (n x) ≡ is_owner (m x))
    → TeamKept a (some v) m n
new-TeamKept none v m n u e o same = (u, o, same)
new-TeamKept (some w) v m n u e o same = cc

text_eq_swap : (s t : Text) → text_eq s t ≡ false → text_eq t s ≡ false
text_eq_swap s t h = elim (Bool-cases (text_eq t s)) [
  | inl e ↦
      let f = subst (λ x. text_eq x t ≡ true) (text_eq→≡ t s e) (text_eq_refl t) in
      ground (arith, f, h)
  | inr e ↦ e
]

created-Kept :
    (id user : Ident) (name slug : Text) (t : Tables)
    → t.team id ≡ none
    → Kept t (with_owner id user (with_team id name slug t))
created-Kept id user name slug t absent_id k = elim (Bool-cases (text_eq k id)) [
  | inl e ↦
      rw (set_team, e)
        (new-TeamKept (t.team k) (new_team name slug) (t.members k) _ user
          (ap t.team (text_eq→≡ k id e) ∙ absent_id) (rw (e, text_eq_refl user) (refl))
          (λ x other. rw (e, text_eq_swap user x other) (refl)))
  | inr e ↦
      rw (set_team, e)
        (same-TeamKept (t.team k) (t.members k)
          ((with_owner id user (with_team id name slug t)).members k) (λ x. rw e (refl)))
]

creation-Keeps :
    (id user : Ident) (name slug : Text) (w : World) (u : Unit {0})
    → (creation id user name slug w).0 ≡ ok u
    → Keeps w (creation id user name slug w)
unfolding creation insert_team insert_team_member
creation-Keeps id user name slug w u h =
    let p = insert_team id name slug w in
    let (a, first, both) =
      then_ok internally p (λ _ v. fail_as internally (insert_team_member user id owner v)) u h in
    let q = insert_team_member user id owner p.1 in
    let (second, after) = fail_as_ok internally q u (ap (λ r. r.0) (sym both) ∙ h) in
    let (got, tables) = answered (λ now t. insert_row id name slug t) w a first in
    let (fresh, row) = inserted_team id name slug w.tables a got in
    let (got', tables') = answered (λ now t. Team.insert_row user id owner t) p.1 u second in
    let row' = inserted_owner id user p.1.tables u got' in
    subst (λ t. Kept w.tables t)
      (sym (
        ap (λ r. r.1.tables) both
        ∙ ap (λ v. v.tables) after
        ∙ tables'
        ∙ row'
        ∙ ap (with_owner id user) (tables ∙ row)))
      (created-Kept id user name slug w.tables fresh)

create_team-Keeps :
    (id : Ident) (slug : Text) (user : Ident) (name : Text) (w : World)
    → Keeps w (create_team id slug user name w)
unfolding create_team
create_team-Keeps id slug user name w = elim (Bool-cases (not (matches team_name_re name))) [
  | inl e ↦ rw (create_team, e) (Kept-refl w.tables)
  | inr e ↦
      rw (create_team, e)
        (transaction-Keeps (creation id user name slug) w
          (λ v u h. creation-Keeps id user name slug v u h))
]

-- The calls of the service, in any order.
pub data Step : World → World → Type 0 where
  creates :
      {w : World} (id : Ident) (slug : Text) (user : Ident) (name : Text)
      → Step w (create_team id slug user name w).1
  renames :
      {w : World} (team caller : Ident) (name : Text) → Step w (rename_team team caller name w).1
  changes_slug :
      {w : World} (clock : ℕ) (id caller : Ident) (slug : Text)
      → Step w (change_slug clock id caller slug w).1
  adds :
      {w : World} (team caller : Ident) (email : Text) → Step w (add_member team caller email w).1
  removes : {w : World} (team caller target : Ident) → Step w (remove_member team caller target w).1
  changes_role :
      {w : World} (team caller target : Ident) (role : Text)
      → Step w (update_member_role team caller target role w).1
  leaves : {w : World} (team caller : Ident) → Step w (leave_team team caller w).1
  sets_byoc : {w : World} (id : Ident) (enabled : Bool) → Step w (set_byoc id enabled w).1

pub data Reaches : World → World → Type 0 where
  here : {w : World} → Reaches w w
  next : {u v w : World} → Reaches u v → Step v w → Reaches u w

Step-Kept : {w v : World} → Step w v → Kept w.tables v.tables
Step-Kept (creates id slug user name) = create_team-Keeps id slug user name _
Step-Kept (renames team caller name) = rename_team-Keeps team caller name _
Step-Kept (changes_slug clock id caller slug) = change_slug-Keeps clock id caller slug _
Step-Kept (adds team caller email) = add_member-Keeps team caller email _
Step-Kept (removes team caller target) = remove_member-Keeps team caller target _
Step-Kept (changes_role team caller target role) =
    update_member_role-Keeps team caller target role _
Step-Kept (leaves team caller) = leave_team-Keeps team caller _
Step-Kept (sets_byoc id enabled) = set_byoc-Keeps id enabled _

Reaches-Kept : {w v : World} → Reaches w v → Kept w.tables v.tables
Reaches-Kept {w} here = Kept-refl w.tables
Reaches-Kept (next {u} {v} {w} r s) =
    Kept-trans u.tables v.tables w.tables (Reaches-Kept r) (Step-Kept s)

-- A team has one owner; an identifier that is no team's has none.
abbrev pub HasOwner : Option Team → (Ident → Option Membership) → Type 0
HasOwner none m = (x : Ident) → is_owner (m x) ≡ false
HasOwner (some v) m = (u : Ident) × ((x : Ident) → is_owner (m x) ≡ text_eq u x)

-- A team stays, and its owners stay its owners, and no other member becomes one.
abbrev pub OwnersStay :
    Option Team → Option Team → (Ident → Option Membership) → (Ident → Option Membership) → Type 0
OwnersStay none b m n = Unit {0}
OwnersStay (some v) none m n = ⊥
OwnersStay (some v) (some w) m n = SameOwners m n

Kept-HasOwner :
    (a b : Option Team) (m n : Ident → Option Membership)
    → TeamKept a b m n
    → HasOwner a m
    → HasOwner b n
Kept-HasOwner none none m n h o = λ x. h x ∙ o x
Kept-HasOwner none (some v) m n (u, owns, same) o = (
  u,
  λ x. elim (Bool-cases (text_eq u x)) [
    | inl e ↦ subst (λ y. is_owner (n y) ≡ true) (text_eq→≡ u x e) owns ∙ sym e
    | inr e ↦ same x e ∙ o x ∙ sym e
  ],
)
Kept-HasOwner (some v) none m n h o = absurd h
Kept-HasOwner (some v) (some w) m n h (u, o) = (u, λ x. h x ∙ o x)

Kept-OwnersStay :
    (a b : Option Team) (m n : Ident → Option Membership) → TeamKept a b m n → OwnersStay a b m n
Kept-OwnersStay none b m n h = tt
Kept-OwnersStay (some v) none m n h = h
Kept-OwnersStay (some v) (some w) m n h = h

-- In any run of the calls on teams other than their deletion, whatever the database does: if a team
-- had one owner at first, and an identifier that was no team's had none, then so it is after the run,
-- and a team that was there is there still, with the same owner.
pub one_owner :
    {w v : World} (k : Ident)
    → Reaches w v
    → HasOwner (w.tables.team k) (w.tables.members k)
    → HasOwner (v.tables.team k) (v.tables.members k)
      × OwnersStay (w.tables.team k) (v.tables.team k) (w.tables.members k) (v.tables.members k)
one_owner {w} {v} k r o =
    let kept = Reaches-Kept r k in
    (
      Kept-HasOwner (w.tables.team k) (v.tables.team k) (w.tables.members k) (v.tables.members k)
          kept o,
      Kept-OwnersStay (w.tables.team k) (v.tables.team k) (w.tables.members k) (v.tables.members k)
          kept,
    )
