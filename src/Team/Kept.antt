-- ===== src/Team/Kept.antt =====
-- What the calls of pkg/service/team.go keep of the teams and their owners, first for the statements
-- (pkg/db/teams.sql.go) and the ways in which the calls combine them.
use wrenn.Prelude.{
  ℕ, ◌≡◌, inl, inr, refl, sym, ap, ◌∙◌, Bool, true, false, ◌&&◌, Option, none, some, text_eq,
  text_eq→≡, Outcome, err, ok, arith, Bool-cases, Option-cases, and_parts,
}
use wrenn.Volumes.{Ident, DbError, Fault-cases}
use wrenn.Team.{
  Role, owner, is_role, Membership, Team, Tables, World, statement, set_member, set_team,
  update_team, insert_row, insert_team_member, delete_team_member, update_role, change_role, found,
  Answer, then_, fail_as, internally, Error,
}
use wrenn.Team.Slugs.{transaction, closed, begin, commit}

abbrev pub is_owner : Option Membership → Bool
is_owner none = false
is_owner (some m) = is_role m.role owner

abbrev pub SameOwners : (Ident → Option Membership) → (Ident → Option Membership) → Type 0
SameOwners m n = (x : Ident) → is_owner (n x) ≡ is_owner (m x)

-- A team stays, with the same owners, and one that is new has an owner more.
abbrev pub TeamKept :
    Option Team → Option Team → (Ident → Option Membership) → (Ident → Option Membership) → Type 0
TeamKept none none m n = SameOwners m n
TeamKept none (some v) m n =
    (u : Ident) × (is_owner (n u) ≡ true)
    × ((x : Ident) → text_eq u x ≡ false → is_owner (n x) ≡ is_owner (m x))
TeamKept (some v) none m n = ⊥
TeamKept (some v) (some w) m n = SameOwners m n

abbrev pub Kept : Tables → Tables → Type 0
Kept t t' = (k : Ident) → TeamKept (t.team k) (t'.team k) (t.members k) (t'.members k)

pub same-TeamKept :
    (a : Option Team) (m n : Ident → Option Membership) → SameOwners m n → TeamKept a a m n
same-TeamKept none m n h = h
same-TeamKept (some v) m n h = h

pub Kept-refl : (t : Tables) → Kept t t
Kept-refl t k = same-TeamKept (t.team k) (t.members k) (t.members k) (λ x. refl)

TeamKept-trans :
    (a b c : Option Team) (m n p : Ident → Option Membership)
    → TeamKept a b m n
    → TeamKept b c n p
    → TeamKept a c m p
TeamKept-trans none none none m n p h g = λ x. g x ∙ h x
TeamKept-trans none none (some w) m n p h (u, o, same) = (u, o, λ x e. same x e ∙ h x)
TeamKept-trans none (some v) none m n p h g = absurd g
TeamKept-trans none (some v) (some w) m n p (u, o, same) g = (u, g u ∙ o, λ x e. g x ∙ same x e)
TeamKept-trans (some v) none c m n p h g = absurd h
TeamKept-trans (some v) (some w) none m n p h g = absurd g
TeamKept-trans (some v) (some w) (some x) m n p h g = λ x. g x ∙ h x

pub Kept-trans : (s t u : Tables) → Kept s t → Kept t u → Kept s u
Kept-trans s t u h g k =
    TeamKept-trans (s.team k) (t.team k) (u.team k) (s.members k) (t.members k) (u.members k) (h k)
      (g k)

abbrev pub Keeps {ℓ} : {R : Type ℓ} → World → R × World → Type 0
Keeps w a = Kept w.tables a.1.tables

pub statement-Keeps :
    {R : Type 0} (run : ℕ → Tables → Outcome DbError R × Tables) (w : World)
    → Kept w.tables (run (w.turn w.calls).now w.tables).1
    → Keeps w (statement run w)
statement-Keeps run w h = elim (Fault-cases (w.turn w.calls).fault) [
  | inl e ↦ rw (statement, e) (h)
  | inr (inl e) ↦ rw (statement, e) (Kept-refl w.tables)
  | inr (inr e) ↦ rw (statement, e) (h)
]

pub answered :
    {R : Type 0} (run : ℕ → Tables → Outcome DbError R × Tables) (w : World) (a : R)
    → (statement run w).0 ≡ ok a
    → let ran = run (w.turn w.calls).now w.tables in
      (ran.0 ≡ ok a) × ((statement run w).1.tables ≡ ran.1)
answered run w a h = elim (Fault-cases (w.turn w.calls).fault) [
  | inl e ↦ ground (arith, e, h)
  | inr (inl e) ↦ ground (arith, e, h)
  | inr (inr e) ↦ ground (arith, e, h)
]

pub found-some : {A : Type 0} (o : Option A) (a : A) → found o ≡ ok a → o ≡ some a
found-some none a h = cc
found-some (some b) a h = cc

pub then-Keeps :
    {A B : Type 0} (w : World) (p : Answer A) (next : A → World → Answer B)
    → Keeps w p
    → ((a : A) → p.0 ≡ ok a → Keeps p.1 (next a p.1))
    → Keeps w (then_ p next)
then-Keeps w (err e, v) next h g = h
then-Keeps w (ok a, v) next h g = Kept-trans w.tables v.tables (next a v).1.tables h (g a refl)

pub fail_as-Keeps :
    {A : Type 0} (e : DbError → Error) (w : World) (p : Outcome DbError A × World)
    → Keeps w p
    → Keeps w (fail_as e p)
fail_as-Keeps e w (err d, v) h = h
fail_as-Keeps e w (ok a, v) h = h

commit-Keeps :
    {R : Type 0} (u w : World) (r : R) (v : World)
    → Kept u.tables w.tables
    → Kept u.tables v.tables
    → Keeps u (commit w r v)
commit-Keeps u w r v g h = elim (Fault-cases (v.turn v.calls).fault) [
  | inl e ↦ rw (commit, e) (h)
  | inr (inl e) ↦ rw (commit, e) (g)
  | inr (inr e) ↦ rw (commit, e) (h)
]

closed-Keeps :
    {R : Type 0} (w : World) (a : Answer R)
    → ((r : R) → a.0 ≡ ok r → Keeps w a)
    → Keeps w (closed w a)
closed-Keeps w (err e, v) h = Kept-refl w.tables
closed-Keeps w (ok r, v) h = commit-Keeps w w r v (Kept-refl w.tables) (h r refl)

-- A transaction keeps what its body keeps when that succeeds.
pub transaction-Keeps :
    {R : Type 0} (body : World → Answer R) (w : World)
    → ((v : World) (r : R) → (body v).0 ≡ ok r → Keeps v (body v))
    → Keeps w (transaction body w)
transaction-Keeps body w h =
    let p = fail_as internally (begin w) in
    then-Keeps w p (λ _ v. closed v (body v))
      (fail_as-Keeps internally w (begin w)
        (statement-Keeps (λ now t. (ok tt, t)) w (Kept-refl w.tables)))
      (λ a e. closed-Keeps p.1 (body p.1) (λ r s. h p.1 r s))

set_member-Kept :
    (team user : Ident) (m : Option Membership) (t : Tables)
    → is_owner m ≡ is_owner (t.members team user)
    → Kept t (set_member team user m t)
set_member-Kept team user m t h k =
    same-TeamKept (t.team k) (t.members k) ((set_member team user m t).members k) (λ x.
      elim (Bool-cases (text_eq k team && text_eq x user)) [
        | inl e ↦
            let (here, it) = and_parts (text_eq k team) (text_eq x user) e in
            rw (set_member, e)
              (h
                ∙ ap (λ q. is_owner q)
                    (ap (λ j. t.members j user) (sym (text_eq→≡ k team here))
                      ∙ ap (t.members k) (sym (text_eq→≡ x user it))))
        | inr e ↦ rw (set_member, e) (refl)
      ])

pub delete-Keeps :
    (team user : Ident) (w : World)
    → is_owner (w.tables.members team user) ≡ false
    → Keeps w (delete_team_member team user w)
unfolding delete_team_member
delete-Keeps team user w h =
    statement-Keeps (λ now t. (ok tt, set_member team user none t)) w
      (set_member-Kept team user none w.tables (sym h))

changed_role :
    (role : Role) (m : Option Membership)
    → is_role role owner ≡ false
    → is_owner (change_role role m) ≡ false
changed_role role none h = refl
changed_role role (some m) h = h

pub update_role-Keeps :
    (team user : Ident) (role : Role) (w : World)
    → is_role role owner ≡ false
    → is_owner (w.tables.members team user) ≡ false
    → Keeps w (update_role team user role w)
unfolding update_role
update_role-Keeps team user role w below h =
    let m = w.tables.members team user in
    statement-Keeps
      (λ now t. (ok tt, set_member team user (change_role role (t.members team user)) t)) w
      (set_member-Kept team user (change_role role m) w.tables (changed_role role m below ∙ sym h))

insert_row-Kept :
    (user team : Ident) (role : Role) (t : Tables)
    → is_role role owner ≡ false
    → Kept t (insert_row user team role t).1
insert_row-Kept user team role t below = elim (Option-cases (t.team team)) [
  | inl e ↦ rw (insert_row, e) (Kept-refl t)
  | inr (v, e) ↦ elim (Option-cases (t.members team user)) [
    | inl f ↦
        rw (insert_row, e, f)
          (set_member-Kept team user (some record { role = role; is_default = false }) t
            (below ∙ ap (λ q. is_owner q) (sym f)))
    | inr (m, f) ↦ rw (insert_row, e, f) (Kept-refl t)
  ]
]

pub insert_member-Keeps :
    (user team : Ident) (role : Role) (w : World)
    → is_role role owner ≡ false
    → Keeps w (insert_team_member user team role w)
unfolding insert_team_member
insert_member-Keeps user team role w below =
    statement-Keeps (λ now t. insert_row user team role t) w
      (insert_row-Kept user team role w.tables below)

present-TeamKept :
    (a : Option Team) (v w : Team) (m n : Ident → Option Membership)
    → a ≡ some v
    → SameOwners m n
    → TeamKept a (some w) m n
present-TeamKept none v w m n e h = cc
present-TeamKept (some u) v w m n e h = h

set_team-Kept :
    (id : Ident) (v w : Team) (t : Tables) → t.team id ≡ some v → Kept t (set_team id w t)
set_team-Kept id v w t h k = elim (Bool-cases (text_eq k id)) [
  | inl e ↦
      rw (set_team, e)
        (present-TeamKept (t.team k) v w (t.members k) (t.members k)
          (ap t.team (text_eq→≡ k id e) ∙ h) (λ x. refl))
  | inr e ↦ rw (set_team, e) (Kept-refl t k)
]

pub update_team-Kept :
    (id : Ident) (test : Team → Bool) (change : Team → Team) (t : Tables)
    → Kept t (update_team id test change t)
update_team-Kept id test change t = elim (Option-cases (t.team id)) [
  | inl e ↦ rw (update_team, e) (Kept-refl t)
  | inr (v, e) ↦ elim (Bool-cases (test v)) [
    | inl f ↦ rw (update_team, e, f) (set_team-Kept id v (change v) t e)
    | inr f ↦ rw (update_team, e, f) (Kept-refl t)
  ]
]
