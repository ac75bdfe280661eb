-- ===== src/Recipe/Execute/Logs.antt =====
-- What an execution logs, sends and leaves behind (internal/recipe/executor.go).
use wrenn.Prelude.{
  ℕ, ◌+◌, ◌≡◌, refl, sym, ap, ◌∙◌, inl, inr, Bool, true, false, List, [], ◌∷◌, ◌++◌, Option, none,
  some, if◌then◌else◌, Text, Outcome, err, ok, ℤ, arith, Bool-cases, append_assoc, append_nil, map,
  subst, Outcome-cases, Option-cases,
}
use mathlib.Core.List.{map-append}
use wrenn.Recipe.{Kind, run, start, env, workdir, user, copy, Step}
use wrenn.Recipe.Context.{ExecContext, insert, wrapped_command, start_command}
use wrenn.Recipe.Expand.{expand_env}
use wrenn.Recipe.Copying.{
  mkdir_script, user_script, switch_user, src_paths, copy_target, owner_of, copy_script,
}
use wrenn.Recipe.Execute.{
  LogEntry, Request, Reply, PtyChunk, StreamReply, Run, Agent, tell, send, blank_entry, answered,
  started, read_chunks, streamed, exec_raw, exec_env, exec_workdir, exec_user, exec_copy,
  exec_start, exec_run, exec_kind, execute_from, conclude, execute, timeout_of, step_started,
  progress, output,
}

-- What a step that succeeds makes of the context.
abbrev effect : Kind → Step → ExecContext → ExecContext
effect env st c = record c { env_vars = insert st.key (expand_env st.value c.env_vars) c.env_vars }
effect workdir st c = record c { work_dir = st.path }
effect user st c = switch_user st.key c
effect copy st c = c
effect start st c = c
effect run st c = c

abbrev copy_commands : Outcome Text (List Text) → Step → ExecContext → List Text
copy_commands (err s) st c = []
copy_commands (ok paths) st c = copy_script paths (copy_target c st.dst) (owner_of c) ∷ []

-- The commands that a step sends in a context.
abbrev commands : Kind → Step → ExecContext → List Text
commands env st c = []
commands workdir st c = mkdir_script st.path ∷ []
commands user st c = user_script st.key ∷ []
commands copy st c = copy_commands (src_paths st.srcs) st c
commands start st c = start_command c st.shell ∷ []
commands run st c = wrapped_command c st.shell ∷ []

abbrev cmd_of : Request → Text
cmd_of q = q.cmd

abbrev sent_commands : Run → List Text
sent_commands r = map cmd_of r.sent

-- The log of steps that are executed in a context, from the number `n`: an entry with the next number
-- for each step, up to the first that fails, which is the last; the commands in their order; and the
-- context that each step finds is what the steps before it made of the first.
abbrev pub Performs :
    Text → List Step → ℕ → ExecContext → List LogEntry → ℕ → Bool → List Text → ExecContext → Type 0
Performs phase [] n c [] next good cmds c' = (next ≡ n) × (good ≡ true) × (cmds ≡ []) × (c' ≡ c)
Performs phase [] n c (e ∷ es) next good cmds c' = ⊥
Performs phase (st ∷ sts) n c [] next good cmds c' = ⊥
Performs phase (st ∷ sts) n c (e ∷ es) next good cmds c' =
    (e.step ≡ n + 1)
    × (e.phase ≡ phase)
    × (e.cmd ≡ st.raw)
    × (if e.good
        then ((rest : List Text) × (cmds ≡ commands st.kind st c ++ rest)
            × Performs phase sts (n + 1) (effect st.kind st c) es next good rest c')
        else (es ≡ [])
          × (next ≡ n + 1)
          × (good ≡ false)
          × (cmds ≡ commands st.kind st c)
          × (c' ≡ c))

-- One step: its entry, what it sends, and the context after it.
abbrev Handles : Kind → Text → Step → ℕ → Run → LogEntry × Run → Type 0
Handles kind phase st n r (entry, r') =
    (entry.step ≡ n)
    × (entry.phase ≡ phase)
    × (entry.cmd ≡ st.raw)
    × (sent_commands r' ≡ sent_commands r ++ commands kind st r.ctx)
    × (r'.ctx ≡ (if entry.good then effect kind st r.ctx else r.ctx))

sent_send :
    (cmd : Text) (t : ℕ) (r : Run) → sent_commands (send cmd t r) ≡ sent_commands r ++ cmd ∷ []
sent_send cmd t r = map-append cmd_of r.sent (record { cmd = cmd; timeout = t } ∷ [])

-- The fields of an entry that name its step.
abbrev Names : ℕ → Text → Text → LogEntry → Type 0
Names n phase raw e = (e.step ≡ n) × (e.phase ≡ phase) × (e.cmd ≡ raw)

answered-Names :
    (n : ℕ) (phase raw : Text) (reply : Reply)
    → Names n phase raw (answered (blank_entry n phase raw) reply)
answered-Names n phase raw reply = ground arith

started-Names :
    (n : ℕ) (phase raw : Text) (reply : Reply)
    → Names n phase raw (started (blank_entry n phase raw) reply)
started-Names n phase raw reply = ground arith

-- Reading a stream changes neither the context nor what was sent.
abbrev Reads : LogEntry → Run → LogEntry × Run → Type 0
Reads e r (e', r') =
    (e'.step ≡ e.step)
    × (e'.phase ≡ e.phase)
    × (e'.cmd ≡ e.cmd)
    × (r'.ctx ≡ r.ctx)
    × (r'.sent ≡ r.sent)

read_chunks-Reads :
    (e : LogEntry) (step : ℕ) (out : Text) (done : Option ℤ) (cs : List PtyChunk) (r : Run)
    → Reads e r (read_chunks e step out done cs r)
unfolding read_chunks
read_chunks-Reads e step out none [] r = (refl, refl, refl, refl, refl)
read_chunks-Reads e step out (some x) [] r = (refl, refl, refl, refl, refl)
read_chunks-Reads e step out done (c ∷ cs) r = ground (
  arith,
  read_chunks-Reads e step out (some c.exit) cs r,
  read_chunks-Reads e step (out ++ c.bytes) done cs (tell (output step c.bytes) r),
)

module _ (quote : Text → Text) (agent : Agent) where
  env-Handles :
      (phase : Text) (st : Step) (n : ℕ) (r : Run)
      → Handles env phase st n r (exec_env quote agent n phase st r)
  unfolding exec_env
  env-Handles phase st n r = (refl, refl, refl, sym (append_nil (sent_commands r)), refl)

  workdir-Handles :
      (phase : Text) (st : Step) (n : ℕ) (r : Run)
      → Handles workdir phase st n r (exec_workdir quote agent n phase st r)
  unfolding exec_workdir exec_raw
  workdir-Handles phase st n r = ground (
    arith,
    answered-Names n phase st.raw (agent.exec r.calls),
    sent_send (mkdir_script st.path) 10000000000 r,
  )

  user-Handles :
      (phase : Text) (st : Step) (n : ℕ) (r : Run)
      → Handles user phase st n r (exec_user quote agent n phase st r)
  unfolding exec_user exec_raw
  user-Handles phase st n r = ground (
    arith,
    answered-Names n phase st.raw (agent.exec r.calls),
    sent_send (user_script st.key) 30000000000 r,
  )

  start-Handles :
      (phase : Text) (st : Step) (n : ℕ) (r : Run)
      → Handles start phase st n r (exec_start quote agent n phase st r)
  unfolding exec_start
  start-Handles phase st n r = ground (
    arith,
    started-Names n phase st.raw (agent.exec r.calls),
    sent_send (start_command r.ctx st.shell) 10000000000 r,
  )

  copy-Handles :
      (phase : Text) (st : Step) (n : ℕ) (r : Run)
      → Handles copy phase st n r (exec_copy quote agent n phase st r)
  unfolding exec_copy exec_raw
  copy-Handles phase st n r = elim (Outcome-cases (src_paths st.srcs)) [
    | inl (s, e) ↦
        rw (exec_copy, commands, e) (refl, refl, refl, sym (append_nil (sent_commands r)), refl)
    | inr (paths, e) ↦
        let script = copy_script paths (copy_target r.ctx st.dst) (owner_of r.ctx) in
        rw (exec_copy, commands, e)
          (ground (
            arith,
            answered-Names n phase st.raw (agent.exec r.calls),
            sent_send script 60000000000 r,
          ))
  ]

  streamed-Handles :
      (phase : Text) (timeout : ℕ) (st : Step) (n : ℕ) (r : Run) (reply : StreamReply)
      → Handles run phase st n r (
          streamed
            (blank_entry n phase st.raw)
            n
            reply
            (send (wrapped_command r.ctx st.shell) timeout r))
  unfolding streamed
  streamed-Handles phase timeout st n r reply =
      let r' = send (wrapped_command r.ctx st.shell) timeout r in
      let timed = record (blank_entry n phase st.raw) { elapsed = reply.took } in
      let sent = sent_send (wrapped_command r.ctx st.shell) timeout r in
      elim (Outcome-cases reply.chunks) [
        | inl (s, e) ↦ rw (streamed, e) (refl, refl, refl, sent, refl)
        | inr (cs, e) ↦
            rw (streamed, e) (ground (arith, sent, read_chunks-Reads timed n [] none cs r'))
      ]

  run-Handles :
      (phase : Text) (timeout : ℕ) (st : Step) (n : ℕ) (r : Run)
      → Handles run phase st n r (exec_run quote agent n phase timeout st r)
  unfolding exec_run streamed
  run-Handles phase timeout st n r = elim (Option-cases agent.stream) [
    | inl e ↦
        rw (exec_run, e)
          (ground (
            arith,
            answered-Names n phase st.raw (agent.exec r.calls),
            sent_send (wrapped_command r.ctx st.shell) timeout r,
          ))
    | inr (stream, e) ↦ rw (exec_run, e) (streamed-Handles phase timeout st n r (stream r.calls))
  ]

  kind-Handles :
      (kind : Kind) (phase : Text) (default : ℕ) (st : Step) (n : ℕ) (r : Run)
      → Handles kind phase st n r (exec_kind quote agent kind n phase default st r)
  unfolding exec_kind
  kind-Handles env phase default st n r = env-Handles phase st n r
  kind-Handles workdir phase default st n r = workdir-Handles phase st n r
  kind-Handles user phase default st n r = user-Handles phase st n r
  kind-Handles copy phase default st n r = copy-Handles phase st n r
  kind-Handles start phase default st n r = start-Handles phase st n r
  kind-Handles run phase default st n r = run-Handles phase (timeout_of default st.timeout) st n r

-- What a run of the loop leaves: its log, its commands and its context.
abbrev pub Leaves : Text → List Step → ℕ → Run → List LogEntry × ℕ × Bool × Run → Type 0
Leaves phase steps n r (entries, next, good, r') =
    (cmds : List Text) × (sent_commands r' ≡ sent_commands r ++ cmds)
    × Performs phase steps n r.ctx entries next good cmds r'.ctx

conclude-Leaves :
    (phase : Text) (st : Step) (sts : List Step) (n : ℕ) (r r1 : Run) (e : LogEntry)
    (later : List LogEntry × ℕ × Bool × Run)
    → Handles st.kind phase st (n + 1) r (e, r1)
    → Leaves phase sts (n + 1) r1 later
    → Leaves phase (st ∷ sts) n r (conclude e (n + 1) r1 later)
unfolding conclude
conclude-Leaves phase st sts n r r1 e (es, next, good, r2) h (cmds, sent_on, rest) =
    let mine = commands st.kind st r.ctx in
    elim (Bool-cases e.good) [
      | inl g ↦
          let sent_all : sent_commands r2 ≡ sent_commands r ++ (mine ++ cmds) =
            sent_on ∙ ap (λ t. t ++ cmds) h.3 ∙ append_assoc (sent_commands r) mine cmds in
          let moved : r1.ctx ≡ effect st.kind st r.ctx =
            h.4 ∙ ap (λ b. if b then effect st.kind st r.ctx else r.ctx) g in
          rw (conclude, g)
            (
              mine ++ cmds,
              sent_all,
              (
                h.0,
                h.1,
                h.2,
                (
                  cmds,
                  refl,
                  subst (λ c. Performs phase sts (n + 1) c es next good cmds r2.ctx) moved rest,
                ),
              ),
            )
      | inr b ↦
          let kept : r1.ctx ≡ r.ctx =
            h.4 ∙ ap (λ b. if b then effect st.kind st r.ctx else r.ctx) b in
          rw (conclude, b) (mine, h.3, (h.0, h.1, h.2, (refl, refl, refl, refl, kept)))
    ]

module _ (quote : Text → Text) (agent : Agent) where
  execute_from-Leaves :
      (phase : Text) (default : ℕ) (before : List LogEntry) (steps : List Step) (n : ℕ) (r : Run)
      → Leaves phase steps n r (execute_from quote agent phase default before steps n r)
  unfolding execute_from
  execute_from-Leaves phase default before [] n r =
      ([], sym (append_nil (sent_commands r)), (refl, refl, refl, refl))
  execute_from-Leaves phase default before (st ∷ sts) n r =
      let r0 = tell (step_started (n + 1)) r in
      let done = exec_kind quote agent st.kind (n + 1) phase default st r0 in
      let log = before ++ done.0 ∷ [] in
      let r1 = tell (progress (n + 1) log) done.1 in
      conclude-Leaves phase st sts n r done.1 done.0
        (execute_from quote agent phase default log sts (n + 1) r1)
        (kind-Handles quote agent st.kind phase default st (n + 1) r0)
        (execute_from-Leaves phase default log sts (n + 1) r1)

  -- An execution goes through the steps in order up to the first that fails, which is the last. Its
  -- log has one entry for each, numbered on from the start, under the phase and with the step's text,
  -- and says that a step failed only of the last; the step counter that it returns is the number of
  -- that entry, and it reports success exactly when no step failed. Whatever the agent and the stream
  -- answer, the commands that are sent, in their order, are those of these steps, each in the context
  -- that the steps before it made, and the context that is left is what the steps that succeeded made.
  pub execute-Performs :
      (phase : Text) (steps : List Step) (start_step : ℕ) (default : ℤ) (r : Run)
      → Leaves phase steps start_step r (execute quote agent phase steps start_step default r)
  unfolding execute
  execute-Performs phase steps start_step default r =
      execute_from-Leaves phase (timeout_of 600000000000 default) [] steps start_step r
