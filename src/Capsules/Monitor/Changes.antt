-- ===== src/Capsules/Monitor/Changes.antt =====
-- The changes of the status of one row by the host monitor (internal/api/host_monitor.go), with the
-- freeing of its volumes.
use wrenn.Prelude.{
  ℕ, ◌≡◌, refl, sym, ap, ◌∙◌, subst, inl, inr, Bool, true, false, [], ◌∷◌, Option, some, text_eq,
  text_eq→≡, text_eq_refl, Outcome, err, ok, arith, Bool-cases, Option-cases,
}
use wrenn.Volumes.{Ident, DbError, has_id}
use wrenn.Capsules.{
  SandboxStatus, is_in, Sandbox, World, move, update_row, set_row, update_sandbox_status_if,
}
use wrenn.Capsules.Edges.{is_in→≡}
use wrenn.Capsules.Monitor.{detach_all, detach_if_ok}
use wrenn.Capsules.Monitor.Settled.{
  is_over, RowKept, RowKept-refl, Settles, Settles-trans, statement-Settles, detach-Settles,
}
use wrenn.Capsules.Monitor.Listing.{answered}

set_row-RowKept :
    (id : Ident) (u v : Sandbox) (rows : Ident → Option Sandbox) (k : Ident)
    → rows id ≡ some v
    → is_over v.status ≡ false
    → RowKept (rows k) (set_row id u rows k)
set_row-RowKept id u v rows k at o = elim (Bool-cases (text_eq k id)) [
  | inl e ↦ rw (set_row, e, ap rows (text_eq→≡ k id e) ∙ at) (inl o)
  | inr e ↦ rw (set_row, e) (RowKept-refl (rows k))
]

update_row-RowKept :
    (id : Ident) (test : Sandbox → Bool) (change : Sandbox → Sandbox)
    (rows : Ident → Option Sandbox) (k : Ident)
    → ((v : Sandbox) → test v ≡ true → is_over v.status ≡ false)
    → RowKept (rows k) ((update_row id test change rows).1 k)
update_row-RowKept id test change rows k h = elim (Option-cases (rows id)) [
  | inl e ↦ rw (update_row, e) (RowKept-refl (rows k))
  | inr (v, e) ↦ elim (Bool-cases (test v)) [
    | inl t ↦ rw (update_row, e, t) (set_row-RowKept id (change v) v rows k e (h v t))
    | inr f ↦ rw (update_row, e, f) (RowKept-refl (rows k))
  ]
]

-- A change of status from one that is neither stopped nor failed.
pub cas-Settles :
    (id : Ident) (from to : SandboxStatus) (w : World)
    → is_over from ≡ false
    → Settles w (update_sandbox_status_if id from to w).1
unfolding update_sandbox_status_if
cas-Settles id from to w o =
    statement-Settles (λ now rows. update_row id (λ v. is_in v.status from) (move to now) rows) w
      (λ k.
        update_row-RowKept id (λ v. is_in v.status from) (move to (w.db.turn w.db.calls).now)
          w.sandboxes k (λ v t. subst (λ s. is_over s ≡ false) (sym (is_in→≡ v.status from t)) o))

update_row_done :
    (id : Ident) (test : Sandbox → Bool) (to : SandboxStatus) (now : ℕ)
    (rows : Ident → Option Sandbox) (a : Sandbox)
    → (update_row id test (move to now) rows).0 ≡ ok a
    → (v : Sandbox) × ((update_row id test (move to now) rows).1 id ≡ some v) × (v.status ≡ to)
update_row_done id test to now rows a h = elim (Option-cases (rows id)) [
  | inl e ↦ ground (arith, e, h)
  | inr (v, e) ↦ elim (Bool-cases (test v)) [
    | inl t ↦ rw (update_row, e, t) (move to now v, ground (arith, text_eq_refl id), refl)
    | inr f ↦ ground (arith, e, f, h)
  ]
]

only_id : (k id : Ident) → has_id k (id ∷ []) ≡ true → id ≡ k
only_id k id h = text_eq→≡ id k (ground (arith, h))

detach_if_ok-Settles :
    (id : Ident) (w : World) (done : Outcome DbError Sandbox × World)
    → Settles w done.1
    → ((a : Sandbox)
        → done.0 ≡ ok a
        → (v : Sandbox) × (done.1.sandboxes id ≡ some v) × (is_over v.status ≡ true))
    → Settles w (detach_if_ok id done)
detach_if_ok-Settles id w (err e, u) changed over = changed
detach_if_ok-Settles id w (ok a, u) changed over =
    Settles-trans w u (detach_all (id ∷ []) u) changed (
      detach-Settles (id ∷ []) u (λ k there.
        subst (λ i. (v : Sandbox) × (u.sandboxes i ≡ some v) × (is_over v.status ≡ true))
          (only_id k id there) (over a refl)))

cas_done :
    (id : Ident) (from to : SandboxStatus) (w : World) (a : Sandbox)
    → (update_sandbox_status_if id from to w).0 ≡ ok a
    → (v : Sandbox) × ((update_sandbox_status_if id from to w).1.sandboxes id ≡ some v)
      × (v.status ≡ to)
unfolding update_sandbox_status_if
cas_done id from to w a h =
    let (same, rows) =
      answered (λ now rows. update_row id (λ v. is_in v.status from) (move to now) rows) w a h in
    let (v, at, s) =
      update_row_done id (λ v. is_in v.status from) to (w.db.turn w.db.calls).now w.sandboxes a
        same in
    (v, ap (λ f. f id) rows ∙ at, s)

-- A change to stopped or failed that is answered frees the volumes of the capsule.
pub final-Settles :
    (id : Ident) (from to : SandboxStatus) (w : World)
    → is_over from ≡ false
    → is_over to ≡ true
    → Settles w (detach_if_ok id (update_sandbox_status_if id from to w))
final-Settles id from to w o f =
    detach_if_ok-Settles id w (update_sandbox_status_if id from to w) (cas-Settles id from to w o)
      (λ a h.
        let (v, at, s) = cas_done id from to w a h in
        (v, at, subst (λ t. is_over t ≡ true) (sym s) f))
