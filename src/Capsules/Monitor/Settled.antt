-- ===== src/Capsules/Monitor/Settled.antt =====
-- What the host monitor leaves alone (internal/api/host_monitor.go): the relation that each of its
-- statements keeps.
use wrenn.Prelude.{
  ℕ, ◌≡◌, ◌⊎◌, refl, sym, ap, ◌∙◌, subst, inl, inr, Bool, true, false, ◌&&◌, ◌||◌, List, Option,
  none, some, text_eq, Outcome, ok, arith, Bool-cases, Option-cases, and_parts,
}
use wrenn.Volumes.{Ident, Volume, DbError, Fault-cases, has_id, in_ids}
use wrenn.Volumes.Statements.{detach_volumes_by_sandbox_ids}
use wrenn.Capsules.{SandboxStatus, stopped, error, missing, is_in, Sandbox, World, statement, move}
use wrenn.Capsules.Monitor.{detach_all}
use wrenn.Capsules.Bulk.{
  list_sandboxes_by_host_and_status, bulk_update_status_by_ids, rows_of, bulk,
  bulk_restore_missing_to_status, mark_sandboxes_missing_by_host, change_if, at_risk, one_of,
}

abbrev pub is_over : SandboxStatus → Bool
is_over s = is_in s stopped || is_in s error

-- A row stays, and one that is stopped or has failed stays as it is.
abbrev pub RowKept : Option Sandbox → Option Sandbox → Type 0
RowKept none none = Unit {0}
RowKept none (some w) = ⊥
RowKept (some v) none = ⊥
RowKept (some v) (some w) = (is_over v.status ≡ false) ⊎ (w ≡ v)

-- A volume stays as it is, or it was a capsule's that is stopped or has failed now.
abbrev pub VolumeKept : Ident → World → World → Type 0
VolumeKept k w w' =
    (w'.db.volumes.row k ≡ w.db.volumes.row k)
    ⊎ ((v : Volume) × (s : Ident) × (sb : Sandbox) × (w.db.volumes.row k ≡ some v)
        × (v.sandbox_id ≡ some s)
        × (w'.sandboxes s ≡ some sb)
        × (is_over sb.status ≡ true))

abbrev pub Settles : World → World → Type 0
Settles w w' =
    ((k : Ident) → RowKept (w.sandboxes k) (w'.sandboxes k)) × ((k : Ident) → VolumeKept k w w')

pub RowKept-refl : (r : Option Sandbox) → RowKept r r
RowKept-refl none = tt
RowKept-refl (some v) = inr refl

RowKept-trans : (a b c : Option Sandbox) → RowKept a b → RowKept b c → RowKept a c
RowKept-trans none none none h k = tt
RowKept-trans none none (some w) h k = absurd k
RowKept-trans none (some v) c h k = absurd h
RowKept-trans (some u) none c h k = absurd h
RowKept-trans (some u) (some v) none h k = absurd k
RowKept-trans (some u) (some v) (some w) (inl o) k = inl o
RowKept-trans (some u) (some v) (some w) (inr e) (inl o) =
    inl (ap (λ x. is_over x.status) (sym e) ∙ o)
RowKept-trans (some u) (some v) (some w) (inr e) (inr f) = inr (f ∙ e)

over_stays_row :
    (a b : Option Sandbox) (sb : Sandbox)
    → RowKept a b
    → a ≡ some sb
    → is_over sb.status ≡ true
    → b ≡ some sb
over_stays_row none b sb h e o = cc
over_stays_row (some v) none sb h e o = absurd h
over_stays_row (some v) (some w) sb (inl n) e o = ground (arith, e)
over_stays_row (some v) (some w) sb (inr f) e o = ap some f ∙ e

pub Settles-refl : (w : World) → Settles w w
Settles-refl w = (λ k. RowKept-refl (w.sandboxes k), λ k. inl refl)

VolumeKept-trans :
    (k : Ident) (w u x : World)
    → VolumeKept k w u
    → VolumeKept k u x
    → ((s : Ident) → RowKept (u.sandboxes s) (x.sandboxes s))
    → VolumeKept k w x
VolumeKept-trans k w u x (inl e) (inl f) rows = inl (f ∙ e)
VolumeKept-trans k w u x (inl e) (inr (v, s, sb, a, b, c, o)) rows =
    inr (v, s, sb, sym e ∙ a, b, c, o)
VolumeKept-trans k w u x (inr (v, s, sb, a, b, c, o)) h rows =
    inr (v, s, sb, a, b, over_stays_row (u.sandboxes s) (x.sandboxes s) sb (rows s) c o, o)

pub Settles-trans : (w u x : World) → Settles w u → Settles u x → Settles w x
Settles-trans w u x h g = (
  λ k. RowKept-trans (w.sandboxes k) (u.sandboxes k) (x.sandboxes k) (h.0 k) (g.0 k),
  λ k. VolumeKept-trans k w u x (h.1 k) (g.1 k) g.0,
)

-- A statement on the sandboxes.
pub statement-Settles :
    {R : Type 0} (run : ℕ → (Ident → Option Sandbox) → Outcome DbError R × (Ident → Option Sandbox))
    (w : World)
    → ((k : Ident) → RowKept (w.sandboxes k) ((run (w.db.turn w.db.calls).now w.sandboxes).1 k))
    → Settles w (statement run w).1
statement-Settles run w h = elim (Fault-cases (w.db.turn w.db.calls).fault) [
  | inl e ↦ rw (statement, e) (h, λ k. inl refl)
  | inr (inl e) ↦ rw (statement, e) (λ k. RowKept-refl (w.sandboxes k), λ k. inl refl)
  | inr (inr e) ↦ rw (statement, e) (h, λ k. inl refl)
]

pub list-Settles :
    (keys : List Ident) (host : Ident) (statuses : List SandboxStatus) (w : World)
    → Settles w (list_sandboxes_by_host_and_status keys host statuses w).1
unfolding list_sandboxes_by_host_and_status
list-Settles keys host statuses w =
    statement-Settles
      (λ now rows.
        (ok (rows_of (λ v. text_eq v.host_id host && one_of v.status statuses) rows keys), rows))
      w (λ k. RowKept-refl (w.sandboxes k))

change-RowKept :
    (test : Sandbox → Bool) (change : Sandbox → Sandbox) (r : Option Sandbox)
    → ((v : Sandbox) → r ≡ some v → test v ≡ true → is_over v.status ≡ false)
    → RowKept r (change_if test change r)
change-RowKept test change none h = tt
change-RowKept test change (some v) h = elim (Bool-cases (test v)) [
  | inl e ↦ rw (change_if, e) (inl (h v refl e))
  | inr e ↦ rw (change_if, e) (inr refl)
]

-- A statement on many rows that passes over those that are stopped or have failed.
pub bulk-Settles :
    (test : Ident → Sandbox → Bool) (to : SandboxStatus) (w : World)
    → ((k : Ident) (v : Sandbox)
        → w.sandboxes k ≡ some v
        → test k v ≡ true
        → is_over v.status ≡ false)
    → Settles w (bulk test to w).1
bulk-Settles test to w h =
    statement-Settles (λ now rows. (ok tt, λ k. change_if (test k) (move to now) (rows k))) w
      (λ k. change-RowKept (test k) (move to (w.db.turn w.db.calls).now) (w.sandboxes k) (h k))

missing_not_over : (s : SandboxStatus) → is_in s missing ≡ true → is_over s ≡ false
missing_not_over s h = ground arith

at_risk_not_over : (s : SandboxStatus) → at_risk s ≡ true → is_over s ≡ false
at_risk_not_over s h = ground arith

pub restore-Settles :
    (ids : List Ident) (to : SandboxStatus) (w : World)
    → Settles w (bulk_restore_missing_to_status ids to w).1
unfolding bulk_restore_missing_to_status
restore-Settles ids to w =
    bulk-Settles (λ k v. has_id k ids && is_in v.status missing) to w
      (λ k v at t.
        missing_not_over v.status (and_parts (has_id k ids) (is_in v.status missing) t).1)

pub mark-Settles : (host : Ident) (w : World) → Settles w (mark_sandboxes_missing_by_host host w).1
unfolding mark_sandboxes_missing_by_host
mark-Settles host w =
    bulk-Settles (λ k v. text_eq v.host_id host && at_risk v.status) missing w
      (λ k v at t.
        at_risk_not_over v.status (and_parts (text_eq v.host_id host) (at_risk v.status) t).1)

abbrev pub IsLive : Ident → World → Type 0
IsLive k w = (v : Sandbox) × (w.sandboxes k ≡ some v) × (is_over v.status ≡ false)

-- The rows of these keys are there, and neither stopped nor failed.
abbrev pub AreLive : List Ident → World → Type 0
AreLive ids w = (k : Ident) → has_id k ids ≡ true → IsLive k w

live_row :
    (ids : List Ident) (w : World) (k : Ident) (v : Sandbox)
    → AreLive ids w
    → w.sandboxes k ≡ some v
    → has_id k ids ≡ true
    → is_over v.status ≡ false
live_row ids w k v live at e = let (u, there, o) = live k e in ground (arith, there, o, at)

pub update-Settles :
    (ids : List Ident) (to : SandboxStatus) (w : World)
    → AreLive ids w
    → Settles w (bulk_update_status_by_ids ids to w).1
unfolding bulk_update_status_by_ids
update-Settles ids to w live =
    bulk-Settles (λ k v. has_id k ids) to w (λ k v at e. live_row ids w k v live at e)

-- Freeing the volumes of capsules that are all stopped or have failed.
abbrev pub AreOver : List Ident → World → Type 0
AreOver ids w =
    (k : Ident)
    → has_id k ids ≡ true
    → (v : Sandbox) × (w.sandboxes k ≡ some v) × (is_over v.status ≡ true)

in_ids-some :
    (o : Option Ident) (ids : List Ident)
    → in_ids o ids ≡ true
    → (s : Ident) × (o ≡ some s) × (has_id s ids ≡ true)
in_ids-some none ids h = cc
in_ids-some (some s) ids h = (s, refl, h)

pub detach_rows : (ids : List Ident) (w : World) → (detach_all ids w).sandboxes ≡ w.sandboxes
unfolding detach_all
detach_rows ids w = refl

detach_volume :
    (ids : List Ident) (k : Ident) (w : World)
    → ((detach_all ids w).db.volumes.row k ≡ w.db.volumes.row k)
      ⊎ ((v : Volume) × (w.db.volumes.row k ≡ some v) × (in_ids v.sandbox_id ids ≡ true))
unfolding detach_all detach_volumes_by_sandbox_ids
detach_volume ids k w = elim (Option-cases (w.db.volumes.row k)) [
  | inl e ↦ inl (ground arith)
  | inr (v, e) ↦ elim (Bool-cases (in_ids v.sandbox_id ids)) [
    | inl i ↦ inr (v, e, i)
    | inr o ↦ inl (ground arith)
  ]
]

pub detach-Settles : (ids : List Ident) (w : World) → AreOver ids w → Settles w (detach_all ids w)
detach-Settles ids w over = (
  λ k.
      subst (λ f. RowKept (w.sandboxes k) (f k)) (sym (detach_rows ids w))
        (RowKept-refl (w.sandboxes k)),
  λ k. elim (detach_volume ids k w) [
    | inl same ↦ inl same
    | inr (v, at, i) ↦
        let (s, of_it, there) = in_ids-some v.sandbox_id ids i in
        let (sb, row, o) = over s there in
        inr (v, s, sb, at, of_it, ap (λ f. f s) (detach_rows ids w) ∙ row, o)
  ],
)
