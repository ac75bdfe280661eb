-- ===== src/Team/Slugs.antt =====
-- The creation of a team and the changes of its slug (pkg/service/team.go), with the statements that
-- they make in transactions (pkg/db/teams.sql.go).
use wrenn.Prelude.{
  ℕ, ◌+◌, Bool, true, false, not, ◌&&◌, ◌||◌, List, [], ◌∷◌, Option, none, some, ltb, if◌then◌else◌,
  Text, text_eq, Outcome, err, ok, trim_space, to_lower,
}
use wrenn.Regexp.{matches}
use wrenn.Validate.{team_slug}
use wrenn.Volumes.{Ident, fine, refused, lost, DbError, no_rows, unique_violation, failed}
use wrenn.Team.{
  owner, Team, ReservedSlug, Tables, World, with_tables, statement, found, set_team, update_team,
  is_live, insert_team_member, get_team, validation_failed, team_not_found, conflict, internal,
  Answer, then_, fail_as, internally,
}
use wrenn.Team.Calls.{missing_always, by_admin, team_name_re}

abbrev pub has_slug : Text → Option Team → Bool
has_slug slug none = false
has_slug slug (some v) = text_eq v.slug slug

abbrev pub has_live_slug : Text → Option Team → Bool
has_live_slug slug none = false
has_live_slug slug (some v) = text_eq v.slug slug && is_live v.deleted_at

-- SELECT ... WHERE slug = $1 AND deleted_at IS NULL.
abbrev pub select_slug : Text → (Ident → Option Team) → List Ident → Option Ident
select_slug slug team [] = none
select_slug slug team (k ∷ ks) =
    let later = select_slug slug team ks in if has_live_slug slug (team k) then some k else later

-- The slug is unique among all rows, those of deleted teams too.
abbrev pub is_taken : Text → Ident → (Ident → Option Team) → List Ident → Bool
is_taken slug id team [] = false
is_taken slug id team (k ∷ ks) =
    (not (text_eq k id) && has_slug slug (team k)) || is_taken slug id team ks

unfoldable pub get_team_by_slug : Text → World → Outcome DbError Ident × World
get_team_by_slug slug = statement (λ now t. (found (select_slug slug t.team t.ids), t))

abbrev pub active : ℕ → Option ReservedSlug → Option ReservedSlug
active now none = none
active now (some r) = if ltb now r.expires_at then some r else none

unfoldable pub get_active_reserved_slug : Text → World → Outcome DbError ReservedSlug × World
get_active_reserved_slug slug = statement (λ now t. (found (active now (t.reserved slug)), t))

abbrev pub new_team : Text → Text → Team
new_team name slug = record {
  name = name;
  slug = slug;
  is_byoc = false;
  deleted_at = none;
  slug_changed_at = none;
}

abbrev pub insert_row : Ident → Text → Text → Tables → Outcome DbError (Unit {0}) × Tables
insert_row id name slug t = elim (t.team id) [
  | some v ↦ (err unique_violation, t)
  | none ↦
      if is_taken slug id t.team t.ids
      then (err unique_violation, t)
      else (ok tt, record (set_team id (new_team name slug) t) { ids = id ∷ t.ids })
]

unfoldable pub insert_team : Ident → Text → Text → World → Outcome DbError (Unit {0}) × World
insert_team id name slug = statement (λ now t. insert_row id name slug t)

-- Nanoseconds.
abbrev pub reservation : ℕ
reservation = 2592000000000000

abbrev pub slug_change_cooldown : ℕ
slug_change_cooldown = 5184000000000000

abbrev pub set_reserved : Text → Option ReservedSlug → Tables → Tables
set_reserved slug r t = record t { reserved = λ s. if text_eq s slug then r else t.reserved s }

unfoldable pub insert_reserved_slug : Text → Ident → World → Outcome DbError (Unit {0}) × World
insert_reserved_slug slug team = statement (λ now t.
    (ok tt, set_reserved slug (some record { team_id = team; expires_at = now + reservation }) t))

unfoldable pub delete_reserved_slug : Text → World → Outcome DbError (Unit {0}) × World
delete_reserved_slug slug = statement (λ now t. (ok tt, set_reserved slug none t))

abbrev pub move_slug : Ident → Text → ℕ → Tables → Outcome DbError (Unit {0}) × Tables
move_slug id slug now t = elim (t.team id) [
  | none ↦ (ok tt, t)
  | some v ↦
      if is_live v.deleted_at && is_taken slug id t.team t.ids then (err unique_violation, t) else (
        ok tt,
        update_team id (λ v. is_live v.deleted_at)
            (λ v. record v { slug = slug; slug_changed_at = some now }) t,
      )
]

unfoldable pub update_team_slug : Ident → Text → World → Outcome DbError (Unit {0}) × World
update_team_slug id slug = statement (λ now t. move_slug id slug now t)

-- A transaction: an error in it, and a commit that is refused, restore the tables.
abbrev pub restore : World → World → World
restore w v = with_tables w.tables v

abbrev pub commit : {R : Type 0} → World → R → World → Answer R
commit w r v = elim (v.turn v.calls).fault [
  | fine ↦ (ok r, with_tables v.tables v)
  | refused ↦ (err internal, restore w v)
  | lost ↦ (err internal, with_tables v.tables v)
]

abbrev pub closed : {R : Type 0} → World → Answer R → Answer R
closed w (err e, v) = (err e, restore w v)
closed w (ok r, v) = commit w r v

abbrev pub begin : World → Outcome DbError (Unit {0}) × World
begin = statement (λ now t. (ok tt, t))

abbrev pub transaction : {R : Type 0} → (World → Answer R) → World → Answer R
transaction body w = then_ (fail_as internally (begin w)) (λ _ v. closed v (body v))

unfoldable pub creation : Ident → Ident → Text → Text → World → Answer (Unit {0})
creation id user name slug w =
    then_ (fail_as internally (insert_team id name slug w))
      (λ _ v. fail_as internally (insert_team_member user id owner v))

-- `id` and `slug` are drawn at random.
unfoldable pub create_team : Ident → Text → Ident → Text → World → Answer (Unit {0})
unfolding creation
create_team id slug user name w =
    if not (matches team_name_re name)
    then (err validation_failed, w)
    else transaction (creation id user name slug) w

-- That a lookup finds nothing.
abbrev pub absent : {A : Type 0} → Outcome DbError A × World → Answer Bool
absent (ok a, w) = (ok false, w)
absent (err no_rows, w) = (ok true, w)
absent (err unique_violation, w) = (err internal, w)
absent (err failed, w) = (err internal, w)

abbrev pub normal : Text → Text
normal slug = to_lower (trim_space slug)

unfoldable pub check_slug : Text → World → Answer Bool
check_slug slug w =
    let s = normal slug in
    elim (team_slug s) [
      | err e ↦ (ok false, w)
      | ok _ ↦
          then_ (absent (get_team_by_slug s w))
            (λ free v. if free then absent (get_active_reserved_slug s v) else (ok false, v))
    ]

-- The cooldown, by the clock of the service.
abbrev pub cools : ℕ → Option ℕ → Bool
cools clock none = false
cools clock (some changed) = ltb clock (changed + slug_change_cooldown)

-- A slug that another team gave up is refused; the team's own is not.
abbrev pub claimable : Ident → Outcome DbError ReservedSlug × World → Answer (Unit {0})
claimable id (ok r, w) = if text_eq r.team_id id then (ok tt, w) else (err conflict, w)
claimable id (err no_rows, w) = (ok tt, w)
claimable id (err unique_violation, w) = (err internal, w)
claimable id (err failed, w) = (err internal, w)

unfoldable pub swap : Ident → Text → Text → World → Answer (Unit {0})
swap id old new w = then_ (fail_as internally (insert_reserved_slug old id w)) (λ _ w1.
    then_ (fail_as internally (delete_reserved_slug new w1))
      (λ _ w2. fail_as internally (update_team_slug id new w2)))

-- The slug that the lookups let pass is moved, in a transaction.
unfoldable pub exchange : Ident → Text → Text → World → Answer Text
unfolding swap
exchange id old new w = then_ (absent (get_team_by_slug new w)) (λ free w1.
    if not free
    then (err conflict, w1)
    else then_ (claimable id (get_active_reserved_slug new w1))
        (λ _ w2. then_ (transaction (swap id old new) w2) (λ _ w3. (ok old, w3))))

unfoldable pub change_of : ℕ → Ident → Text → Team → World → Answer Text
unfolding exchange
change_of clock id new v w =
    if not (is_live v.deleted_at)
    then (err team_not_found, w)
    else if text_eq v.slug new
    then (ok v.slug, w)
    else if cools clock v.slug_changed_at
    then (err conflict, w)
    else exchange id v.slug new w

unfoldable pub change_slug : ℕ → Ident → Ident → Text → World → Answer Text
unfolding change_of
change_slug clock id caller new_slug w =
    let new = normal new_slug in
    elim (team_slug new) [
      | err e ↦ (err validation_failed, w)
      | ok _ ↦ then_ (by_admin id caller w) (λ _ w1.
          then_ (fail_as missing_always (get_team id w1)) (λ v w2. change_of clock id new v w2))
    ]
