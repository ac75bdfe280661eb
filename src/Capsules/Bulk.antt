-- ===== src/Capsules/Bulk.antt =====
-- The statements of pkg/db/sandboxes.sql.go that the host monitor (internal/api/host_monitor.go)
-- makes.
use wrenn.Prelude.{
  Bool, false, ◌&&◌, ◌||◌, List, [], ◌∷◌, Option, none, some, if◌then◌else◌, text_eq, Outcome, ok,
}
use wrenn.Volumes.{Ident, DbError, has_id}
use wrenn.Capsules.{
  SandboxStatus, starting, running, pausing, resuming, stopping, missing, is_in, Sandbox, World,
  statement, move,
}

abbrev pub one_of : SandboxStatus → List SandboxStatus → Bool
one_of s [] = false
one_of s (t ∷ ts) = is_in s t || one_of s ts

abbrev pub change_if : (Sandbox → Bool) → (Sandbox → Sandbox) → Option Sandbox → Option Sandbox
change_if test change none = none
change_if test change (some v) = if test v then some (change v) else some v

-- UPDATE sandboxes SET status = to, last_updated = NOW() WHERE test, on every row.
abbrev pub bulk :
    (Ident → Sandbox → Bool) → SandboxStatus → World → Outcome DbError (Unit {0}) × World
bulk test to = statement (λ now rows. (ok tt, λ k. change_if (test k) (move to now) (rows k)))

unfoldable pub bulk_update_status_by_ids :
    List Ident → SandboxStatus → World → Outcome DbError (Unit {0}) × World
bulk_update_status_by_ids ids to = bulk (λ k v. has_id k ids) to

unfoldable pub bulk_restore_missing_to_status :
    List Ident → SandboxStatus → World → Outcome DbError (Unit {0}) × World
bulk_restore_missing_to_status ids to = bulk (λ k v. has_id k ids && is_in v.status missing) to

-- The status pending that the statement also names is given to no capsule.
abbrev pub at_risk : SandboxStatus → Bool
at_risk s = one_of s (running ∷ starting ∷ pausing ∷ resuming ∷ stopping ∷ [])

unfoldable pub mark_sandboxes_missing_by_host : Ident → World → Outcome DbError (Unit {0}) × World
mark_sandboxes_missing_by_host host =
    bulk (λ k v. text_eq v.host_id host && at_risk v.status) missing

-- A row with its primary key, which is its id.
abbrev pub Listed : Type 0
Listed = List (Ident × Sandbox)

abbrev pub list_row : (Sandbox → Bool) → Ident → Option Sandbox → Listed → Listed
list_row test k none rest = rest
list_row test k (some v) rest = if test v then (k, v) ∷ rest else rest

abbrev pub rows_of : (Sandbox → Bool) → (Ident → Option Sandbox) → List Ident → Listed
rows_of test rows [] = []
rows_of test rows (k ∷ ks) = list_row test k (rows k) (rows_of test rows ks)

-- `keys` are the keys of the table, in the order of the answer.
unfoldable pub list_sandboxes_by_host_and_status :
    List Ident → Ident → List SandboxStatus → World → Outcome DbError Listed × World
list_sandboxes_by_host_and_status keys host statuses = statement (λ now rows.
    (ok (rows_of (λ v. text_eq v.host_id host && one_of v.status statuses) rows keys), rows))
