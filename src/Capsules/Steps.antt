-- ===== src/Capsules/Steps.antt =====
-- The service as a machine: its calls and the goroutines they start (pkg/service/sandbox.go), in any
-- order, each of them one step, with any outcome of what they ask of the hosts and of the database. A
-- destroy is two steps: it acts on a capsule that it may have read long before.
use wrenn.Prelude.{
  ◌≢◌, ◌≡◌, ◌⊎◌, refl, sym, subst, ap, ◌∙◌, inl, inr, Bool, true, false, ◌||◌, Option, none, some,
  Text, arith,
}
use wrenn.Volumes.{Ident}
use wrenn.Capsules.{
  SandboxStatus, running, pausing, paused, resuming, snapshotting, stopping, stopped, error, is_in,
  Labels, Sandbox, World, get_sandbox_by_team,
}
use wrenn.Capsules.Change.{
  Reach, pause, pause_in_background, resume, resume_in_background, create_snapshot,
  snapshot_in_background, destroy_found, destroy_in_background, Attempts,
}
use wrenn.Capsules.Create.{Lookups, CreateParams, Boot, Booted, create, create_in_background}
use wrenn.Capsules.Edges.{only, on, still, Follows, get_rows, is_in→≡}
use wrenn.Capsules.Lifecycle.{
  rows_same, pause_follows, resume_follows, pause_background_follows, resume_background_follows,
  end_pause, end_resume,
}
use wrenn.Capsules.Snapshots.{snapshot_follows, snapshot_background_follows, begin_snapshot}
use wrenn.Capsules.Ends.{begin_destroy, destroy_found_follows, destroy_background_follows}
use wrenn.Capsules.Begins.{Opens, end_boot, create_opens, create_background_follows}

true_ne_false : true ≢ false
true_ne_false e = cc

pub data Step : World → World → Type 0 where
  creates :
      {w : World} (look : Lookups) (id : Ident) (p : CreateParams) → Step w (create look id p w).1
  boots :
      {w : World} (b : Boot) (reply : Option Booted) (gone : Bool)
      → Step w (create_in_background b reply gone w)
  pauses : {w : World} (id team : Ident) (reach : Reach) → Step w (pause id team reach w).1
  finishes_pause : {w : World} (id : Ident) (done : Bool) → Step w (pause_in_background id done w)
  resumes : {w : World} (id team : Ident) (reach : Reach) → Step w (resume id team reach w).1
  finishes_resume :
      {w : World} (id : Ident) (reply : Option (Text × Labels))
      → Step w (resume_in_background id reply w)
  snapshots :
      {w : World} (id team : Ident) (name fresh : Text) (taken : Text → Bool) (reach : Reach)
      → Step w (create_snapshot id team name fresh taken reach w).1
  finishes_snapshot :
      {w : World} (id : Ident) (name : Text) (origin : SandboxStatus) (done registered : Bool)
      → Step w (snapshot_in_background id name origin done registered w)
  looks : {w : World} (id team : Ident) → Step w (get_sandbox_by_team id team w).1
  destroys :
      {w : World} (id : Ident) (read : Sandbox) (reach : Reach)
      → Step w (destroy_found id reach read w).1
  finishes_destroy :
      {w : World} (id : Ident) (calls : Attempts) → Step w (destroy_in_background id calls w)

pub data Reaches : World → World → Type 0 where
  here : {w : World} → Reaches w w
  next : {u v w : World} → Reaches u v → Step v w → Reaches u w

-- What a call does to a row of the table.
abbrev pub Moves : {w v : World} → Step w v → Ident → Option Sandbox → Option Sandbox → Type 0
Moves (creates look id p) k = Opens
Moves (boots b reply gone) k = Follows (on b.sandbox.id end_boot k)
Moves (pauses id team reach) k = Follows (on id (only running pausing) k)
Moves (finishes_pause id done) k = Follows (on id end_pause k)
Moves (resumes id team reach) k = Follows (on id (only paused resuming) k)
Moves (finishes_resume id reply) k = Follows (on id end_resume k)
Moves (snapshots id team name fresh taken reach) k = Follows (on id begin_snapshot k)
Moves (finishes_snapshot id name origin done registered) k =
    Follows (on id (only snapshotting origin) k)
Moves (looks id team) k = Follows (still k)
Moves (destroys id read reach) k = Follows (on id begin_destroy k)
Moves (finishes_destroy id calls) k = Follows (on id (only stopping stopped) k)

-- Whatever its hosts and its database do, each call of the service and each goroutine keeps every
-- row of the table, and changes the status of no capsule but its own, by the one transition that is
-- its own. A create changes no row there is, and a new row is starting. A boot ends starting in
-- running or in error. A pause moves running to pausing and its goroutine ends pausing in paused or
-- in running; a resume, paused to resuming, which ends in running or in paused; a snapshot, running
-- or paused to snapshotting, which ends in the status that the goroutine was given. A destroy moves
-- to stopping, from any status, since another call may have changed the one it read, and its
-- goroutine moves stopping to stopped.
pub lifecycle : {w v : World} (s : Step w v) (k : Ident) → Moves s k (w.sandboxes k) (v.sandboxes k)
lifecycle (creates look id p) = create_opens look id p _
lifecycle (boots b reply gone) = create_background_follows b reply gone _
lifecycle (pauses id team reach) = pause_follows id team reach _
lifecycle (finishes_pause id done) = pause_background_follows id done _
lifecycle (resumes id team reach) = resume_follows id team reach _
lifecycle (finishes_resume id reply) = resume_background_follows id reply _
lifecycle (snapshots id team name fresh taken reach) =
    snapshot_follows id team name fresh taken reach _
lifecycle (finishes_snapshot id name origin done registered) =
    snapshot_background_follows id name origin done registered _
lifecycle {w} {v} (looks id team) = rows_same still w v (get_rows id team w)
lifecycle (destroys id read reach) = destroy_found_follows id reach read _
lifecycle (finishes_destroy id calls) = destroy_background_follows id calls _

-- A capsule that is gone or on its way: stopped, failed or being stopped.
abbrev pub is_over : SandboxStatus → Bool
is_over s = is_in s stopping || is_in s stopped || is_in s error

-- It is gone as it was, or stops.
abbrev pub Ended : SandboxStatus → Option Sandbox → Type 0
Ended s none = ⊥
Ended s (some w) = (w.status ≡ s) ⊎ ((is_in w.status stopping || is_in w.status stopped) ≡ true)

-- A transition that brings no capsule back.
IsFinal : (SandboxStatus → SandboxStatus → Bool) → Type 0
IsFinal edge =
    (a b : SandboxStatus)
    → is_over a ≡ true
    → edge a b ≡ true
    → (is_in b stopping || is_in b stopped) ≡ true

Follows-Ended :
    (edge : SandboxStatus → SandboxStatus → Bool) (s : SandboxStatus) (r t : Option Sandbox)
    → IsFinal edge
    → is_over s ≡ true
    → Ended s r
    → Follows edge r t
    → Ended s t
unfolding IsFinal
Follows-Ended edge s none t final h e f = absurd e
Follows-Ended edge s (some u) none final h e f = absurd f
Follows-Ended edge s (some u) (some v) final h (inl e) (inl f) = inl (sym f ∙ e)
Follows-Ended edge s (some u) (some v) final h (inr e) (inl f) =
    inr (ap (λ x. is_in x stopping || is_in x stopped) (sym f) ∙ e)
Follows-Ended edge s (some u) (some v) final h (inl e) (inr f) =
    inr (final u.status v.status (ap is_over e ∙ h) f)
Follows-Ended edge s (some u) (some v) final h (inr e) (inr f) =
    let over : is_over u.status ≡ true = ground arith in inr (final u.status v.status over f)

Opens-Ended : (s : SandboxStatus) (r t : Option Sandbox) → Ended s r → Opens r t → Ended s t
Opens-Ended s none t e f = absurd e
Opens-Ended s (some u) none e f = absurd f
Opens-Ended s (some u) (some v) e f = subst (λ x. Ended s (some x)) f e

only-IsFinal :
    (id k : Ident) (from to : SandboxStatus)
    → is_over from ≡ false
    → IsFinal (on id (only from to) k)
unfolding IsFinal
only-IsFinal id k from to h a b over e =
    let same : is_in a from ≡ true = ground arith in
    let is : a ≡ from = is_in→≡ a from same in absurd (true_ne_false (sym over ∙ ap is_over is ∙ h))

end_boot-IsFinal : (id k : Ident) → IsFinal (on id end_boot k)
unfolding IsFinal
end_boot-IsFinal id k a b over e = ground arith

end_pause-IsFinal : (id k : Ident) → IsFinal (on id end_pause k)
unfolding IsFinal
end_pause-IsFinal id k a b over e = ground arith

end_resume-IsFinal : (id k : Ident) → IsFinal (on id end_resume k)
unfolding IsFinal
end_resume-IsFinal id k a b over e = ground arith

begin_snapshot-IsFinal : (id k : Ident) → IsFinal (on id begin_snapshot k)
unfolding IsFinal
begin_snapshot-IsFinal id k a b over e = ground arith

destroy-IsFinal : (id k : Ident) → IsFinal (on id begin_destroy k)
unfolding IsFinal
destroy-IsFinal id k a b over e = ground arith

stopped-IsFinal : (id k : Ident) → IsFinal (on id (only stopping stopped) k)
unfolding IsFinal
stopped-IsFinal id k a b over e = ground arith

still-IsFinal : (k : Ident) → IsFinal (still k)
unfolding IsFinal
still-IsFinal k a b over e = absurd (true_ne_false (sym e))

Moves-Ended :
    {w v : World} (st : Step w v) (k : Ident) (s : SandboxStatus) (r t : Option Sandbox)
    → is_over s ≡ true
    → Ended s r
    → Moves st k r t
    → Ended s t
Moves-Ended (creates look id p) k s r t h e f = Opens-Ended s r t e f
Moves-Ended (boots b reply gone) k s r t h e f =
    Follows-Ended _ s r t (end_boot-IsFinal b.sandbox.id k) h e f
Moves-Ended (pauses id team reach) k s r t h e f =
    Follows-Ended _ s r t (only-IsFinal id k running pausing refl) h e f
Moves-Ended (finishes_pause id done) k s r t h e f =
    Follows-Ended _ s r t (end_pause-IsFinal id k) h e f
Moves-Ended (resumes id team reach) k s r t h e f =
    Follows-Ended _ s r t (only-IsFinal id k paused resuming refl) h e f
Moves-Ended (finishes_resume id reply) k s r t h e f =
    Follows-Ended _ s r t (end_resume-IsFinal id k) h e f
Moves-Ended (snapshots id team name fresh taken reach) k s r t h e f =
    Follows-Ended _ s r t (begin_snapshot-IsFinal id k) h e f
Moves-Ended (finishes_snapshot id name origin done registered) k s r t h e f =
    Follows-Ended _ s r t (only-IsFinal id k snapshotting origin refl) h e f
Moves-Ended (looks id team) k s r t h e f = Follows-Ended _ s r t (still-IsFinal k) h e f
Moves-Ended (destroys id read reach) k s r t h e f =
    Follows-Ended _ s r t (destroy-IsFinal id k) h e f
Moves-Ended (finishes_destroy id calls) k s r t h e f =
    Follows-Ended _ s r t (stopped-IsFinal id k) h e f

-- In any run of these calls, in any order, a destroy acting on a status read long before among them,
-- a capsule that is stopped, has failed or is being stopped is never brought back: its row stays,
-- with that status or as stopping or stopped.
pub over_stays :
    {w v : World} (k : Ident) (sb : Sandbox)
    → Reaches w v
    → w.sandboxes k ≡ some sb
    → is_over sb.status ≡ true
    → Ended sb.status (v.sandboxes k)
over_stays k sb here at over = subst (Ended sb.status) (sym at) (inl refl)
over_stays k sb (next {u} {v} {w} r s) at over =
    Moves-Ended s k sb.status (v.sandboxes k) (w.sandboxes k) over (over_stays k sb r at over)
      (lifecycle s k)
