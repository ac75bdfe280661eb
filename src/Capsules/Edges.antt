-- ===== src/Capsules/Edges.antt =====
-- The transitions that the status of a capsule makes.
use wrenn.Prelude.{
  ℕ, ◌≡◌, ◌≢◌, ◌⊎◌, inl, inr, refl, sym, ap, ◌∙◌, Bool, true, false, ◌&&◌, Option, none, some, Text,
  text_eq, text_eq→≡, Outcome, ok, arith, Bool-cases, Option-cases,
}
use wrenn.Volumes.{Ident, DbError, Fault-cases}
use wrenn.Capsules.{
  SandboxStatus, running, is_in, Labels, Sandbox, World, get_sandbox_by_team, get_sandbox,
  update_sandbox_status_if, update_sandbox_running_if, update_sandbox_metadata,
  update_sandbox_disk_size, update_row, set_row, statement, move, run_at,
}

-- The one transition between two statuses.
abbrev pub only : SandboxStatus → SandboxStatus → SandboxStatus → SandboxStatus → Bool
only from to a b = is_in a from && is_in b to

pub only_refl : (from to : SandboxStatus) → only from to from to ≡ true
only_refl from to = ground arith

-- The transitions of one capsule alone.
abbrev pub on :
    Ident → (SandboxStatus → SandboxStatus → Bool) → Ident → SandboxStatus → SandboxStatus → Bool
on id edge k a b = text_eq k id && edge a b

abbrev pub still : Ident → SandboxStatus → SandboxStatus → Bool
still k a b = false

-- What becomes of a row: it stays in the table, with its status or by one transition, and none is new.
abbrev pub Follows :
    (SandboxStatus → SandboxStatus → Bool) → Option Sandbox → Option Sandbox → Type 0
Follows edge none none = Unit {0}
Follows edge none (some w) = ⊥
Follows edge (some v) none = ⊥
Follows edge (some v) (some w) = (v.status ≡ w.status) ⊎ (edge v.status w.status ≡ true)

pub Follows-refl :
    (edge : SandboxStatus → SandboxStatus → Bool) (r : Option Sandbox) → Follows edge r r
Follows-refl edge none = tt
Follows-refl edge (some v) = inl refl

true_ne_false : true ≢ false
true_ne_false e = cc

-- A part that keeps the status, before or after one that follows the transitions.
pub same-Follows :
    (edge : SandboxStatus → SandboxStatus → Bool) (a b c : Option Sandbox)
    → Follows (λ s t. false) a b
    → Follows edge b c
    → Follows edge a c
same-Follows edge none none c h g = g
same-Follows edge none (some v) c h g = absurd h
same-Follows edge (some u) none c h g = absurd h
same-Follows edge (some u) (some v) none h g = absurd g
same-Follows edge (some u) (some v) (some w) (inl e) (inl g) = inl (e ∙ g)
same-Follows edge (some u) (some v) (some w) (inl e) (inr g) = inr (ap (λ s. edge s w.status) e ∙ g)
same-Follows edge (some u) (some v) (some w) (inr e) g = absurd (true_ne_false (sym e))

pub Follows-same :
    (edge : SandboxStatus → SandboxStatus → Bool) (a b c : Option Sandbox)
    → Follows edge a b
    → Follows (λ s t. false) b c
    → Follows edge a c
Follows-same edge none none none h g = tt
Follows-same edge none none (some w) h g = absurd g
Follows-same edge none (some v) c h g = absurd h
Follows-same edge (some u) none c h g = absurd h
Follows-same edge (some u) (some v) none h g = absurd g
Follows-same edge (some u) (some v) (some w) h (inr g) = absurd (true_ne_false (sym g))
Follows-same edge (some u) (some v) (some w) (inl e) (inl g) = inl (e ∙ g)
Follows-same edge (some u) (some v) (some w) (inr e) (inl g) = inr (ap (edge u.status) (sym g) ∙ e)

pub is_in→≡ : (a b : SandboxStatus) → is_in a b ≡ true → a ≡ b
is_in→≡ a b h = ground arith

-- A statement on one row.
pub update-Follows :
    (edge : SandboxStatus → SandboxStatus → Bool) (id k : Ident) (test : Sandbox → Bool)
    (change : Sandbox → Sandbox) (rows : Ident → Option Sandbox)
    → ((v : Sandbox)
        → text_eq k id ≡ true
        → test v ≡ true
        → (v.status ≡ (change v).status) ⊎ (edge v.status (change v).status ≡ true))
    → Follows edge (rows k) ((update_row id test change rows).1 k)
update-Follows edge id k test change rows h = elim (Option-cases (rows id)) [
  | inl e ↦ rw (update_row, e) (Follows-refl edge (rows k))
  | inr (v, e) ↦ elim (Bool-cases (test v)) [
    | inl t ↦ elim (Bool-cases (text_eq k id)) [
      | inl same ↦
          let here : rows k ≡ some v = ap rows (text_eq→≡ k id same) ∙ e in
          rw (update_row, e, t, set_row, same, here) (h v same t)
      | inr other ↦ rw (update_row, e, t, set_row, other) (Follows-refl edge (rows k))
    ]
    | inr f ↦ rw (update_row, e, f) (Follows-refl edge (rows k))
  ]
]

pub statement-Follows :
    {R : Type 0} (edge : SandboxStatus → SandboxStatus → Bool)
    (run : ℕ → (Ident → Option Sandbox) → Outcome DbError R × (Ident → Option Sandbox)) (k : Ident)
    (w : World)
    → Follows edge (w.sandboxes k) ((run (w.db.turn w.db.calls).now w.sandboxes).1 k)
    → Follows edge (w.sandboxes k) ((statement run w).1.sandboxes k)
statement-Follows edge run k w h = elim (Fault-cases (w.db.turn w.db.calls).fault) [
  | inl e ↦ rw (statement, e) h
  | inr (inl e) ↦ rw (statement, e) (Follows-refl edge (w.sandboxes k))
  | inr (inr e) ↦ rw (statement, e) h
]

moves_own :
    (edge : SandboxStatus → SandboxStatus → Bool) (id k : Ident) (a from to : SandboxStatus)
    → edge from to ≡ true
    → text_eq k id ≡ true
    → is_in a from ≡ true
    → on id edge k a to ≡ true
moves_own edge id k a from to e same h = rw (same, is_in→≡ a from h) e

pub status_if-Follows :
    (edge : SandboxStatus → SandboxStatus → Bool) (id k : Ident) (from to : SandboxStatus)
    (w : World)
    → edge from to ≡ true
    → Follows (on id edge k) (w.sandboxes k) ((update_sandbox_status_if id from to w).1.sandboxes k)
unfolding update_sandbox_status_if
status_if-Follows edge id k from to w e =
    statement-Follows (on id edge k)
      (λ now rows. update_row id (λ v. is_in v.status from) (move to now) rows) k w
      (update-Follows (on id edge k) id k (λ v. is_in v.status from)
        (move to (w.db.turn w.db.calls).now) w.sandboxes
        (λ v same t. inr (moves_own edge id k v.status from to e same t)))

pub running_if-Follows :
    (edge : SandboxStatus → SandboxStatus → Bool) (id k : Ident) (from : SandboxStatus) (ip : Text)
    (w : World)
    → edge from running ≡ true
    → Follows
        (on id edge k)
        (w.sandboxes k)
        ((update_sandbox_running_if id from ip w).1.sandboxes k)
unfolding update_sandbox_running_if
running_if-Follows edge id k from ip w e =
    statement-Follows (on id edge k)
      (λ now rows. update_row id (λ v. is_in v.status from) (run_at ip now) rows) k w
      (update-Follows (on id edge k) id k (λ v. is_in v.status from)
        (run_at ip (w.db.turn w.db.calls).now) w.sandboxes
        (λ v same t. inr (moves_own edge id k v.status from running e same t)))

-- What a claim that succeeds has found.
pub status_if-found :
    (id k : Ident) (from to : SandboxStatus) (sb x : Sandbox) (w : World)
    → (update_sandbox_status_if id from to w).0 ≡ ok sb
    → w.sandboxes k ≡ some x
    → text_eq k id ≡ true
    → x.status ≡ from
unfolding update_sandbox_status_if
status_if-found id k from to sb x w claims at same =
    let here : w.sandboxes id ≡ some x = sym (ap w.sandboxes (text_eq→≡ k id same)) ∙ at in
    let found : is_in x.status from ≡ true = ground arith in is_in→≡ x.status from found

-- A claim that is given back.
pub back-Follows :
    (edge : SandboxStatus → SandboxStatus → Bool) (id k : Ident) (from to : SandboxStatus)
    (r s t : Option Sandbox)
    → edge from to ≡ true
    → ((x : Sandbox) → r ≡ some x → text_eq k id ≡ true → x.status ≡ from)
    → Follows (on id (only from to) k) r s
    → Follows (on id (only to from) k) s t
    → Follows (on id edge k) r t
back-Follows edge id k from to none none none e hr f g = tt
back-Follows edge id k from to none none (some z) e hr f g = absurd g
back-Follows edge id k from to none (some y) t e hr f g = absurd f
back-Follows edge id k from to (some x) none t e hr f g = absurd f
back-Follows edge id k from to (some x) (some y) none e hr f g = absurd g
back-Follows edge id k from to (some x) (some y) (some z) e hr (inl f) (inl g) = inl (f ∙ g)
back-Follows edge id k from to (some x) (some y) (some z) e hr f (inr g) =
    let same : text_eq k id ≡ true = ground arith in
    let back : is_in z.status from ≡ true = ground arith in
    inl (hr x refl same ∙ sym (is_in→≡ z.status from back))
back-Follows edge id k from to (some x) (some y) (some z) e hr (inr f) (inl g) =
    let same : text_eq k id ≡ true = ground arith in
    let was : is_in x.status from ≡ true = ground arith in
    let now : is_in y.status to ≡ true = ground arith in
    let claims = moves_own edge id k x.status from to e same was in
    inr (ap (on id edge k x.status) (sym g ∙ is_in→≡ y.status to now) ∙ claims)

-- A statement that does not touch the status.
pub metadata-Follows :
    (id k : Ident) (labels : Labels) (w : World)
    → Follows (λ s t. false) (w.sandboxes k) ((update_sandbox_metadata id labels w).sandboxes k)
unfolding update_sandbox_metadata
metadata-Follows id k labels w =
    statement-Follows (λ s t. false)
      (λ now rows.
        update_row id (λ v. true) (λ v. record v { metadata = labels; last_updated = now }) rows)
      k w
      (update-Follows (λ s t. false) id k (λ v. true)
        (λ v. record v { metadata = labels; last_updated = (w.db.turn w.db.calls).now }) w.sandboxes
        (λ v same t. inl refl))

pub disk-Follows :
    (id k : Ident) (size : ℕ) (w : World)
    → Follows (λ s t. false) (w.sandboxes k) ((update_sandbox_disk_size id size w).sandboxes k)
unfolding update_sandbox_disk_size
disk-Follows id k size w =
    statement-Follows (λ s t. false)
      (λ now rows.
        update_row id (λ v. true) (λ v. record v { disk_size_mb = size; last_updated = now }) rows)
      k w
      (update-Follows (λ s t. false) id k (λ v. true)
        (λ v. record v { disk_size_mb = size; last_updated = (w.db.turn w.db.calls).now })
        w.sandboxes (λ v same t. inl refl))

-- Reading changes no row.
pub get_rows :
    (id team : Ident) (w : World) → (get_sandbox_by_team id team w).1.sandboxes ≡ w.sandboxes
unfolding get_sandbox_by_team
get_rows id team w = ground arith

pub get_all_rows : (id : Ident) (w : World) → (get_sandbox id w).1.sandboxes ≡ w.sandboxes
unfolding get_sandbox
get_all_rows id w = ground arith
