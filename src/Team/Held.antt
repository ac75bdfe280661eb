-- ===== src/Team/Held.antt =====
-- A slug that a deleted team holds (pkg/service/team.go, pkg/db/teams.sql.go).
use wrenn.Prelude.{
  ℕ, ◌+◌, ◌≡◌, refl, ap, ◌∙◌, true, false, none, some, Text, text_eq, Outcome, err, ok,
}
use wrenn.Validate.{team_slug}
use wrenn.Volumes.{Ident, DbError, fine, no_rows}
use wrenn.Team.{
  owner, is_role, Membership, Team, Tables, World, with_tables, statement, found, Error, internal,
  then_, get_team_membership, get_team, is_live,
}
use wrenn.Team.Calls.{caller_role, require_admin, by_admin}
use wrenn.Team.Slugs.{
  select_slug, is_taken, get_team_by_slug, get_active_reserved_slug, active, insert_reserved_slug,
  delete_reserved_slug, update_team_slug, move_slug, closed, transaction, absent, claimable, normal,
  check_slug, swap, exchange, change_of, change_slug, cools,
}

-- Every call of the database is answered.
abbrev pub IsFine : World → Type 0
IsFine w = (n : ℕ) → (w.turn n).fault ≡ fine

fine_statement :
    {R : Type 0} (run : ℕ → Tables → Outcome DbError R × Tables) (w : World)
    → IsFine w
    → let ran = run (w.turn w.calls).now w.tables in statement run w ≡ (ran.0, with_tables ran.1 w)
fine_statement run w fine_db = rw (statement, fine_db w.calls) (refl)

-- A call that only reads.
abbrev tick : World → World
tick w = with_tables w.tables w

by_admin_owner :
    (id caller : Ident) (m : Membership) (w : World)
    → IsFine w
    → w.tables.members id caller ≡ some m
    → is_role m.role owner ≡ true
    → by_admin id caller w ≡ (ok tt, tick w)
unfolding by_admin caller_role get_team_membership
by_admin_owner id caller m w fine_db at owns =
    rw
      (
        by_admin,
        caller_role,
        get_team_membership,
        fine_statement (λ now t. (found (t.members id caller), t)) w fine_db,
        at,
        require_admin,
        owns,
      )
      (refl)

get_team_found :
    (id : Ident) (v : Team) (w : World)
    → IsFine w
    → w.tables.team id ≡ some v
    → get_team id w ≡ (ok v, tick w)
unfolding get_team
get_team_found id v w fine_db at =
    fine_statement (λ now t. (found (t.team id), t)) w fine_db ∙ rw at (refl)

no_live_slug :
    (slug : Text) (w : World)
    → IsFine w
    → select_slug slug w.tables.team w.tables.ids ≡ none
    → get_team_by_slug slug w ≡ (err no_rows, tick w)
unfolding get_team_by_slug
no_live_slug slug w fine_db none_live =
    fine_statement (λ now t. (found (select_slug slug t.team t.ids), t)) w fine_db
    ∙ rw none_live (refl)

not_reserved :
    (slug : Text) (w : World)
    → IsFine w
    → w.tables.reserved slug ≡ none
    → get_active_reserved_slug slug w ≡ (err no_rows, tick w)
unfolding get_active_reserved_slug
not_reserved slug w fine_db free =
    fine_statement (λ now t. (found (active now (t.reserved slug)), t)) w fine_db
    ∙ rw (free, active) (refl)

swap_taken :
    (id : Ident) (old new : Text) (v : Team) (w : World)
    → IsFine w
    → w.tables.team id ≡ some v
    → is_live v.deleted_at ≡ true
    → is_taken new id w.tables.team w.tables.ids ≡ true
    → (swap id old new w).0 ≡ err internal
unfolding swap insert_reserved_slug delete_reserved_slug update_team_slug
swap_taken id old new v w fine_db of_it live taken =
    let w1 = (insert_reserved_slug old id w).1 in
    rw
      (
        swap,
        insert_reserved_slug,
        statement,
        fine_db w.calls,
        delete_reserved_slug,
        fine_db (w.calls + 1),
        update_team_slug,
        fine_db (w.calls + 1 + 1),
        move_slug,
        of_it,
        live,
        taken,
      )
      (refl)

err_again :
    {A B : Type 0} {e d : Error}
    → Path (Outcome Error A) (err e) (err d)
    → Path (Outcome Error B) (err e) (err d)
err_again {e = e} {d = d} h = let same : e ≡ d = cc in ap err same

closed_fails :
    {R : Type 0} (w : World) (a : Outcome Error R × World)
    → a.0 ≡ err internal
    → ((closed w a).0 ≡ err internal) × ((closed w a).1.tables ≡ w.tables)
closed_fails w (err e, v) h = (h, refl)
closed_fails w (ok r, v) h = cc

then_fails :
    {A B : Type 0} (t : Tables) (p : Outcome Error A × World)
    (next : A → World → Outcome Error B × World)
    → p.0 ≡ err internal
    → p.1.tables ≡ t
    → ((then_ p next).0 ≡ err internal) × ((then_ p next).1.tables ≡ t)
then_fails t (err e, v) next h same = (err_again h, same)
then_fails t (ok a, v) next h same = cc

transaction_fails :
    {R : Type 0} (body : World → Outcome Error R × World) (w : World)
    → IsFine w
    → (body (tick w)).0 ≡ err internal
    → ((transaction body w).0 ≡ err internal) × ((transaction body w).1.tables ≡ w.tables)
transaction_fails body w fine_db h =
    rw (transaction, statement, fine_db w.calls) (closed_fails (tick w) (body (tick w)) h)

exchange_taken :
    (id : Ident) (old new : Text) (v : Team) (w : World)
    → IsFine w
    → w.tables.team id ≡ some v
    → is_live v.deleted_at ≡ true
    → select_slug new w.tables.team w.tables.ids ≡ none
    → w.tables.reserved new ≡ none
    → is_taken new id w.tables.team w.tables.ids ≡ true
    → ((exchange id old new w).0 ≡ err internal) × ((exchange id old new w).1.tables ≡ w.tables)
unfolding exchange
exchange_taken id old new v w fine_db of_it live none_live free taken =
    let w2 = tick (tick w) in
    let (failed_tx, same) =
      transaction_fails (swap id old new) w2 fine_db
        (swap_taken id old new v (tick w2) fine_db of_it live taken) in
    rw
      (
        exchange,
        no_live_slug new w fine_db none_live,
        absent,
        not_reserved new (tick w) fine_db free,
        claimable,
      )
      (then_fails w.tables (transaction (swap id old new) w2) _ failed_tx same)

change_slug_taken :
    (clock : ℕ) (id caller : Ident) (slug : Text) (m : Membership) (v : Team) (w : World)
    → IsFine w
    → team_slug (normal slug) ≡ ok tt
    → w.tables.members id caller ≡ some m
    → is_role m.role owner ≡ true
    → w.tables.team id ≡ some v
    → is_live v.deleted_at ≡ true
    → v.slug_changed_at ≡ none
    → text_eq v.slug (normal slug) ≡ false
    → select_slug (normal slug) w.tables.team w.tables.ids ≡ none
    → w.tables.reserved (normal slug) ≡ none
    → is_taken (normal slug) id w.tables.team w.tables.ids ≡ true
    → ((change_slug clock id caller slug w).0 ≡ err internal)
      × ((change_slug clock id caller slug w).1.tables ≡ w.tables)
unfolding change_slug change_of
change_slug_taken clock id caller slug m v w fine_db valid at owns of_it live never other none_live
      free taken =
    rw
      (
        change_slug,
        valid,
        by_admin_owner id caller m w fine_db at owns,
        get_team_found id v (tick w) fine_db of_it,
        change_of,
        live,
        other,
        cools,
        never,
      )
      (exchange_taken id v.slug (normal slug) v (tick (tick w)) fine_db of_it live none_live free
        taken)

free_slug :
    (slug : Text) (w : World)
    → IsFine w
    → team_slug (normal slug) ≡ ok tt
    → select_slug (normal slug) w.tables.team w.tables.ids ≡ none
    → w.tables.reserved (normal slug) ≡ none
    → (check_slug slug w).0 ≡ ok true
unfolding check_slug
free_slug slug w fine_db valid none_live free =
    rw
      (
        check_slug,
        valid,
        no_live_slug (normal slug) w fine_db none_live,
        absent,
        not_reserved (normal slug) (tick w) fine_db free,
      )
      (refl)

-- When every call of the database is answered: a well formed slug that no team holds but one that is
-- deleted, and that nobody gave up, is reported as available; and yet the owner of another team, whose
-- slug never changed, cannot change to it: the call fails with an internal error and changes nothing.
pub deleted_slug_stuck :
    (clock : ℕ) (id caller : Ident) (slug : Text) (m : Membership) (v : Team) (w : World)
    → IsFine w
    → team_slug (normal slug) ≡ ok tt
    → w.tables.members id caller ≡ some m
    → is_role m.role owner ≡ true
    → w.tables.team id ≡ some v
    → is_live v.deleted_at ≡ true
    → v.slug_changed_at ≡ none
    → text_eq v.slug (normal slug) ≡ false
    → select_slug (normal slug) w.tables.team w.tables.ids ≡ none
    → w.tables.reserved (normal slug) ≡ none
    → is_taken (normal slug) id w.tables.team w.tables.ids ≡ true
    → ((check_slug slug w).0 ≡ ok true)
      × ((change_slug clock id caller slug w).0 ≡ err internal)
      × ((change_slug clock id caller slug w).1.tables ≡ w.tables)
deleted_slug_stuck clock id caller slug m v w fine_db valid at owns of_it live never other none_live
      free taken =
    let (failed_call, same) =
      change_slug_taken clock id caller slug m v w fine_db valid at owns of_it live never other
        none_live free taken in
    (free_slug slug w fine_db valid none_live free, failed_call, same)
