-- ===== src/Tracker.antt =====
-- The tracker of a capsule's proxy connections (pkg/sandbox/conntracker.go): its fields, and each of
-- its methods as the sections that other goroutines see as one step. Steps has the interleavings.
pub mod Steps
pub mod Invariant
pub mod Consistent
pub mod Cases
pub mod Drained
mod Tests
use wrenn.Prelude.{
  ℕ, zero, suc, ◌+◌, Bool, true, false, not, ◌==◌, if◌then◌else◌, Option, none, some, ℤ, pos,
  negsuc,
}

-- Channels and contexts are numbered as they are made; channels of either kind on their own.
pub record Tracker : Type 0 where
  pub draining : Bool
  pub locked : Bool
  pub count : ℤ
  pub zero_ch : Option ℕ
  pub zero_closed : ℕ → Bool
  pub zero_made : ℕ
  pub cancel_drain : Option ℕ
  pub cancel_closed : ℕ → Bool
  pub cancel_made : ℕ
  pub ctx : Option ℕ
  pub ctx_cancelled : ℕ → Bool
  pub ctx_made : ℕ
  pub panicked : Bool

abbrev pub fresh_tracker : Tracker
fresh_tracker = record {
  draining = false;
  locked = false;
  count = pos 0;
  zero_ch = none;
  zero_closed = λ c. false;
  zero_made = 0;
  cancel_drain = none;
  cancel_closed = λ c. false;
  cancel_made = 0;
  ctx = none;
  ctx_cancelled = λ c. false;
  ctx_made = 0;
  panicked = false;
}

abbrev pub up : ℤ → ℤ
up (pos n) = pos (suc n)
up (negsuc zero) = pos 0
up (negsuc (suc n)) = negsuc n

abbrev pub down : ℤ → ℤ
down (pos zero) = negsuc 0
down (pos (suc n)) = pos n
down (negsuc n) = negsuc (suc n)

abbrev pub is_pos : ℕ → ℤ → Bool
is_pos k (pos n) = n == k
is_pos k (negsuc n) = false

abbrev pub mark : ℕ → (ℕ → Bool) → ℕ → Bool
mark c closed k = if k == c then true else closed k

-- Acquire: the first look at draining, without the lock.
unfoldable pub first_look : Tracker → Bool
first_look t = not t.draining

-- Acquire: the look under mu. Where the tracker is draining the lock is given back.
unfoldable pub second_look : Tracker → Tracker × Bool
second_look t = if t.draining then (t, false) else (record t { locked = true }, true)

-- Acquire: the count, and a new channel with the first connection; mu is given back.
unfoldable pub enter : Tracker → Tracker
enter t =
    let next = up t.count in
    if is_pos 1 next
    then record t {
      count = next;
      zero_ch = some t.zero_made;
      zero_made = t.zero_made + 1;
      locked = false;
    }
    else record t { count = next; locked = false }

-- Closing a channel that is closed panics.
unfoldable pub close_zero : ℕ → Tracker → Tracker
close_zero c t =
    if t.zero_closed c
    then record t { panicked = true }
    else record t { zero_closed = mark c t.zero_closed }

close_at_zero : Option ℕ → Tracker → Tracker
unfolding close_zero
close_at_zero none t = t
close_at_zero (some c) t = record (close_zero c t) { zero_ch = none }

unfoldable pub release : Tracker → Tracker
unfolding close_at_zero close_zero
release t =
    let t' = record t { count = down t.count } in
    if is_pos 0 t'.count then close_at_zero t.zero_ch t' else t'

-- waitDrain: the channel to wait for, which is new and closed where nothing is in flight.
unfoldable pub wait_drain : Tracker → Tracker × Option ℕ
wait_drain t =
    if is_pos 0 t.count
    then (
      record t { zero_closed = mark t.zero_made t.zero_closed; zero_made = t.zero_made + 1 },
      some t.zero_made,
    )
    else (t, t.zero_ch)

-- Drain: the store, and the channel by which Reset ends the wait.
unfoldable pub begin_drain : Tracker → Tracker
begin_drain t = record t { draining = true }

unfoldable pub arm_drain : Tracker → Tracker × ℕ
arm_drain t =
    (record t { cancel_drain = some t.cancel_made; cancel_made = t.cancel_made + 1 }, t.cancel_made)

unfoldable pub context : Tracker → Tracker × Option ℕ
context t = elim t.ctx [
  | none ↦ (record t { ctx = some t.ctx_made; ctx_made = t.ctx_made + 1 }, some t.ctx_made)
  | some c ↦ (t, some c)
]

-- ForceClose: the cancelling of the context; what it waits for is waitDrain.
unfoldable pub cancel_context : Tracker → Tracker
cancel_context t = elim t.ctx [
  | none ↦ t
  | some c ↦ record t { ctx_cancelled = mark c t.ctx_cancelled }
]

unfoldable pub close_cancel : ℕ → Tracker → Tracker
close_cancel c t =
    if t.cancel_closed c
    then record t { panicked = true }
    else record t { cancel_closed = mark c t.cancel_closed }

-- Reset: the three sections, in the order of the code.
unfoldable pub reset_drain : Tracker → Tracker
unfolding close_cancel
reset_drain t = elim t.cancel_drain [
  | none ↦ t
  | some c ↦ record (if t.cancel_closed c then t else close_cancel c t) { cancel_drain = none }
]

unfoldable pub reset_context : Tracker → Tracker
reset_context t = record t { ctx = some t.ctx_made; ctx_made = t.ctx_made + 1 }

unfoldable pub reset_open : Tracker → Tracker
reset_open t = record t { draining = false }
