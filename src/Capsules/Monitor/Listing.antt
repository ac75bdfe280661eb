-- ===== src/Capsules/Monitor/Listing.antt =====
-- The rows that a listing answers, and those that a statement on many rows leaves as they are
-- (internal/api/host_monitor.go, pkg/db/sandboxes.sql.go).
use wrenn.Prelude.{
  ℕ, ◌≡◌, ◌⊎◌, refl, sym, ap, ◌∙◌, subst, inl, inr, Bool, true, false, not, ◌&&◌, List, [], ◌∷◌,
  Option, none, some, if◌then◌else◌, text_eq, text_eq→≡, text_eq_refl, Outcome, ok, arith,
  Bool-cases, and_parts,
}
use wrenn.Volumes.{Ident, DbError, Fault-cases, has_id}
use wrenn.Capsules.{SandboxStatus, missing, is_in, Sandbox, World, statement, move}
use wrenn.Capsules.Monitor.{Report, alive_in, keys_where}
use wrenn.Capsules.Bulk.{
  Listed, list_sandboxes_by_host_and_status, bulk_update_status_by_ids, rows_of, list_row, bulk,
  bulk_restore_missing_to_status, change_if, one_of,
}
use wrenn.Capsules.Monitor.Settled.{is_over, AreLive, IsLive}

pub has_id_split :
    (k j : Ident) (ids : List Ident) → has_id k (j ∷ ids) ≡ true → (j ≡ k) ⊎ (has_id k ids ≡ true)
has_id_split k j ids h = elim (Bool-cases (text_eq j k)) [
  | inl e ↦ inl (text_eq→≡ j k e)
  | inr e ↦ inr (ground arith)
]

change_passes :
    (test : Sandbox → Bool) (change : Sandbox → Sandbox) (r : Option Sandbox)
    → ((v : Sandbox) → test v ≡ false)
    → change_if test change r ≡ r
change_passes test change none h = refl
change_passes test change (some v) h = rw (change_if, h v) (refl)

-- A statement on many rows leaves the rows that fail its test as they are.
pub bulk_passes :
    (test : Ident → Sandbox → Bool) (to : SandboxStatus) (w : World) (k : Ident)
    → ((v : Sandbox) → test k v ≡ false)
    → (bulk test to w).1.sandboxes k ≡ w.sandboxes k
bulk_passes test to w k h =
    let passes = change_passes (test k) (move to (w.db.turn w.db.calls).now) (w.sandboxes k) h in
    elim (Fault-cases (w.db.turn w.db.calls).fault) [
      | inl e ↦ rw (statement, e) (passes)
      | inr (inl e) ↦ rw (statement, e) (refl)
      | inr (inr e) ↦ rw (statement, e) (passes)
    ]

pub update_passes :
    (ids : List Ident) (to : SandboxStatus) (w : World) (k : Ident)
    → has_id k ids ≡ false
    → (bulk_update_status_by_ids ids to w).1.sandboxes k ≡ w.sandboxes k
unfolding bulk_update_status_by_ids
update_passes ids to w k h = bulk_passes (λ k v. has_id k ids) to w k (λ v. h)

pub restore_passes :
    (ids : List Ident) (to : SandboxStatus) (w : World) (k : Ident)
    → has_id k ids ≡ false
    → (bulk_restore_missing_to_status ids to w).1.sandboxes k ≡ w.sandboxes k
unfolding bulk_restore_missing_to_status
restore_passes ids to w k h =
    bulk_passes (λ k v. has_id k ids && is_in v.status missing) to w k (λ v. ground (arith, h))

abbrev pub any_report : Option (Option SandboxStatus) → Bool
any_report a = true

-- The rows of a listing are there, and neither stopped nor failed.
abbrev pub AllLive : Report → Listed → World → Type 0
AllLive r listed w = AreLive (keys_where any_report r listed) w

has_id_later : (k j : Ident) (ids : List Ident) → has_id k ids ≡ true → has_id k (j ∷ ids) ≡ true
has_id_later k j ids h = ground (arith, h)

has_id_first : (k j : Ident) (ids : List Ident) → j ≡ k → has_id k (j ∷ ids) ≡ true
has_id_first k j ids e = subst (λ i. has_id i (j ∷ ids) ≡ true) e (ground (arith, text_eq_refl j))

and-has_id_later :
    {T : Type 0} (k j : Ident) (ids : List Ident)
    → T × (has_id k ids ≡ true)
    → T × (has_id k (j ∷ ids) ≡ true)
and-has_id_later k j ids (met, there) = (met, has_id_later k j ids there)

-- The keys of a group are keys of the listing, with a report that meets the test of the group.
pub keys_where-has :
    (p : Option (Option SandboxStatus) → Bool) (r : Report) (listed : Listed) (k : Ident)
    → has_id k (keys_where p r listed) ≡ true
    → (p (alive_in r.reported k) ≡ true) × (has_id k (keys_where any_report r listed) ≡ true)
keys_where-has p r [] k h = cc
keys_where-has p r ((j, v) ∷ rest) k h =
    let ids = keys_where p r rest in
    let all_ids = keys_where any_report r rest in
    elim (Bool-cases (p (alive_in r.reported j))) [
      | inl e ↦
          elim (has_id_split k j ids
            (subst (λ b. has_id k (if b then j ∷ ids else ids) ≡ true) e h)) [
              | inl same ↦ (
                subst (λ i. p (alive_in r.reported i) ≡ true) same e,
                has_id_first k j all_ids same,
              )
              | inr later ↦ and-has_id_later k j all_ids (keys_where-has p r rest k later)
            ]
      | inr e ↦ and-has_id_later k j all_ids (
          keys_where-has p r rest k (subst (λ b. has_id k (if b then j ∷ ids else ids) ≡ true) e h))
    ]

pub keys_where-misses :
    (p : Option (Option SandboxStatus) → Bool) (r : Report) (listed : Listed) (k : Ident)
    → p (alive_in r.reported k) ≡ false
    → has_id k (keys_where p r listed) ≡ false
keys_where-misses p r listed k h = elim (Bool-cases (has_id k (keys_where p r listed))) [
  | inl e ↦ let (met, there) = keys_where-has p r listed k e in ground (arith, met, h)
  | inr e ↦ e
]

pub IsLive-row : (k : Ident) (w u : World) → u.sandboxes k ≡ w.sandboxes k → IsLive k w → IsLive k u
IsLive-row k w u same (v, at, o) = (v, same ∙ at, o)

-- A listing by statuses that are neither stopped nor failed.
abbrev pub none_over : List SandboxStatus → Bool
none_over [] = true
none_over (s ∷ ss) = not (is_over s) && none_over ss

one_of_not_over :
    (s : SandboxStatus) (statuses : List SandboxStatus)
    → none_over statuses ≡ true
    → one_of s statuses ≡ true
    → is_over s ≡ false
one_of_not_over s [] n h = cc
one_of_not_over s (t ∷ ts) n h =
    let (not_t, later) = and_parts (not (is_over t)) (none_over ts) n in
    elim (Bool-cases (is_in s t)) [
      | inl e ↦ ground (arith, not_t, e)
      | inr e ↦ one_of_not_over s ts later (ground (arith, e, h))
    ]

list_row-has :
    (r : Report) (test : Sandbox → Bool) (j : Ident) (o : Option Sandbox) (rest : Listed)
    (k : Ident)
    → has_id k (keys_where any_report r (list_row test j o rest)) ≡ true
    → (has_id k (keys_where any_report r rest) ≡ true)
      ⊎ ((v : Sandbox) × (o ≡ some v) × (test v ≡ true) × (j ≡ k))
list_row-has r test j none rest k h = inl h
list_row-has r test j (some v) rest k h = elim (Bool-cases (test v)) [
  | inl t ↦
      elim (has_id_split k j (keys_where any_report r rest) (
        subst (λ b. has_id k (keys_where any_report r (if b then (j, v) ∷ rest else rest)) ≡ true) t
          h)) [ inl same ↦ inr (v, refl, t, same) | inr there ↦ inl there ]
  | inr f ↦ inl (
      subst (λ b. has_id k (keys_where any_report r (if b then (j, v) ∷ rest else rest)) ≡ true) f
        h)
]

rows_of-AllLive :
    (r : Report) (host : Ident) (statuses : List SandboxStatus) (w : World) (keys : List Ident)
    → none_over statuses ≡ true
    → AllLive r
        (rows_of (λ v. text_eq v.host_id host && one_of v.status statuses) w.sandboxes keys)
        w
rows_of-AllLive r host statuses w [] n k h = cc
rows_of-AllLive r host statuses w (j ∷ js) n k h =
    let test = λ (v : Sandbox). text_eq v.host_id host && one_of v.status statuses in
    let rest = rows_of test w.sandboxes js in
    let later = rows_of-AllLive r host statuses w js n k in
    elim (list_row-has r test j (w.sandboxes j) rest k h) [
      | inl there ↦ later there
      | inr (v, at, t, same) ↦ (
        v,
        ap w.sandboxes (sym same) ∙ at,
        one_of_not_over v.status statuses n
            (and_parts (text_eq v.host_id host) (one_of v.status statuses) t).1,
      )
    ]

ok_injective : {R : Type 0} {a b : R} → Path (Outcome DbError R) (ok a) (ok b) → a ≡ b
ok_injective h = cc

pub answered :
    {R : Type 0} (run : ℕ → (Ident → Option Sandbox) → Outcome DbError R × (Ident → Option Sandbox))
    (w : World) (a : R)
    → (statement run w).0 ≡ ok a
    → let ran = run (w.db.turn w.db.calls).now w.sandboxes in
      (ran.0 ≡ ok a) × ((statement run w).1.sandboxes ≡ ran.1)
answered run w a h = elim (Fault-cases (w.db.turn w.db.calls).fault) [
  | inl e ↦ ground (arith, e, h)
  | inr (inl e) ↦ ground (arith, e, h)
  | inr (inr e) ↦ ground (arith, e, h)
]

-- After a listing that is answered, its rows are there and live.
pub list-AllLive :
    (r : Report) (keys : List Ident) (host : Ident) (statuses : List SandboxStatus) (w : World)
    (listed : Listed)
    → none_over statuses ≡ true
    → (list_sandboxes_by_host_and_status keys host statuses w).0 ≡ ok listed
    → AllLive r listed (list_sandboxes_by_host_and_status keys host statuses w).1
unfolding list_sandboxes_by_host_and_status
list-AllLive r keys host statuses w listed n h =
    let (same, rows) =
      answered
        (λ now rows.
          (ok (rows_of (λ v. text_eq v.host_id host && one_of v.status statuses) rows keys), rows))
        w listed h in
    subst (λ l. AllLive r l (list_sandboxes_by_host_and_status keys host statuses w).1)
      (ok_injective same)
      (λ k there.
        IsLive-row k w (list_sandboxes_by_host_and_status keys host statuses w).1
          (ap (λ f. f k) rows) (rows_of-AllLive r host statuses w keys n k there))
