-- ===== src/Recipe/Execute.antt =====
-- The executor of a recipe (internal/recipe/executor.go). The host agent and the terminal stream are
-- given as their replies, one to each call. A request holds the duration that bounds it, without its
-- conversion to whole seconds; an elapsed time is part of a reply; the callbacks are told in order.
pub mod Logs
pub mod Copies
use wrenn.Prelude.{
  ℕ, zero, suc, ◌+◌, ◌*◌, Bool, true, false, not, List, [], ◌∷◌, ◌++◌, Option, none, some, ◌==◌,
  ltb, if◌then◌else◌, Text, codes, Outcome, err, ok, ℤ, pos, negsuc, itoa,
}
use wrenn.Recipe.{Kind, run, start, env, workdir, user, copy, Step}
use wrenn.Recipe.Context.{ExecContext, insert, wrapped_command, start_command}
use wrenn.Recipe.Expand.{expand_env}
use wrenn.Recipe.Copying.{
  mkdir_script, user_script, switch_user, src_paths, copy_target, owner_of, copy_script,
}

pub record LogEntry : Type 0 where
  pub step : ℕ
  pub phase : Text
  pub cmd : Text
  pub stdout : Text
  pub stderr : Text
  pub exit : ℤ
  pub good : Bool
  pub elapsed : ℕ

pub record Request : Type 0 where
  pub cmd : Text
  pub timeout : ℕ

pub record Response : Type 0 where
  pub stdout : Text
  pub stderr : Text
  pub exit : ℤ

pub record Reply : Type 0 where
  pub answer : Outcome Text Response
  pub took : ℕ

pub record PtyChunk : Type 0 where
  pub bytes : Text
  pub done : Bool
  pub exit : ℤ
  pub error : Option Text

pub record StreamReply : Type 0 where
  pub chunks : Outcome Text (List PtyChunk)
  pub took : ℕ

-- What the callbacks are told.
pub data Notice : Type 0 where
  step_started : ℕ → Notice
  output : ℕ → Text → Notice
  progress : ℕ → List LogEntry → Notice

-- The context, the requests in their order, and the notices in theirs.
pub record Run : Type 0 where
  pub ctx : ExecContext
  pub calls : ℕ
  pub sent : List Request
  pub told : List Notice

pub record Agent : Type 0 where
  pub exec : ℕ → Reply
  pub stream : Option (ℕ → StreamReply)

abbrev pub is_zero : ℤ → Bool
is_zero (pos n) = n == 0
is_zero (negsuc n) = false

abbrev pub second : ℕ
second = 1000000000

abbrev tell : Notice → Run → Run
tell n r = record r { told = r.told ++ n ∷ [] }

abbrev send : Text → ℕ → Run → Run
send cmd timeout r = record r {
  calls = r.calls + 1;
  sent = r.sent ++ record { cmd = cmd; timeout = timeout } ∷ [];
}

abbrev blank_entry : ℕ → Text → Text → LogEntry
blank_entry step phase raw = record {
  step = step;
  phase = phase;
  cmd = raw;
  stdout = [];
  stderr = [];
  exit = pos 0;
  good = false;
  elapsed = 0;
}

-- execRun and execRawShell record the answer in one way.
abbrev answered : LogEntry → Reply → LogEntry
answered entry reply = elim reply.answer [
  | err e ↦ record entry { stderr = codes "exec error: " ++ e; elapsed = reply.took }
  | ok resp ↦ record entry {
    stdout = resp.stdout;
    stderr = resp.stderr;
    exit = resp.exit;
    good = is_zero resp.exit;
    elapsed = reply.took;
  }
]

print_int : ℤ → Text
print_int (pos n) = itoa n
print_int (negsuc n) = b'-' ∷ itoa (suc n)

abbrev start_message : Response → Text
start_message resp =
    codes "start failed with exit code " ++ (print_int resp.exit ++ (codes ": " ++ resp.stderr))

abbrev started : LogEntry → Reply → LogEntry
started entry reply = elim reply.answer [
  | err e ↦ record entry { stderr = codes "start error: " ++ e; elapsed = reply.took }
  | ok resp ↦ record entry {
    exit = resp.exit;
    good = is_zero resp.exit;
    stderr = if is_zero resp.exit then [] else start_message resp;
    elapsed = reply.took;
  }
]

-- The loop over the chunks of a stream: the output so far, and the exit code once it is done.
read_chunks : LogEntry → ℕ → Text → Option ℤ → List PtyChunk → Run → LogEntry × Run
read_chunks entry step out none [] r = (
  record entry {
    stdout = out;
    stderr = codes "exec error: build step stream ended without completion";
  },
  r,
)
read_chunks entry step out (some exit) [] r =
    (record entry { stdout = out; exit = exit; good = is_zero exit }, r)
read_chunks entry step out done (c ∷ cs) r = elim c.error [
  | some e ↦ (
    record entry {
      stdout = out;
      stderr = codes "exec error: " ++ e;
      exit = elim done [ none ↦ pos 0 | some exit ↦ exit ];
    },
    r,
  )
  | none ↦ elim c.done [
    | true ↦ read_chunks entry step out (some c.exit) cs r
    | false ↦ read_chunks entry step (out ++ c.bytes) done cs (tell (output step c.bytes) r)
  ]
]

streamed : LogEntry → ℕ → StreamReply → Run → LogEntry × Run
unfolding read_chunks
streamed entry step reply r =
    let timed = record entry { elapsed = reply.took } in
    elim reply.chunks [
      | err e ↦ (record timed { stderr = codes "exec error: " ++ e }, r)
      | ok chunks ↦ read_chunks timed step [] none chunks r
    ]

-- The timeout of a RUN step: its own, when that is positive.
timeout_of : ℕ → ℤ → ℕ
timeout_of default (pos zero) = default
timeout_of default (pos (suc n)) = suc n
timeout_of default (negsuc n) = default

-- The end of a round: a step that failed ends the execution.
conclude : LogEntry → ℕ → Run → List LogEntry × ℕ × Bool × Run → List LogEntry × ℕ × Bool × Run
conclude entry step r (entries, next, all_good, r') =
    if entry.good then (entry ∷ entries, next, all_good, r') else (entry ∷ [], step, false, r)

-- `quote` is how fmt prints a text under %q.
module _ (quote : Text → Text) (agent : Agent) where
  exec_raw : ℕ → Text → Text → ℕ → Text → Run → LogEntry × Run
  exec_raw n phase raw timeout script r =
      (answered (blank_entry n phase raw) (agent.exec r.calls), send script timeout r)

  exec_env : ℕ → Text → Step → Run → LogEntry × Run
  exec_env n phase st r =
      let c = r.ctx in
      (
        record (blank_entry n phase st.raw) { good = true },
        record r {
          ctx = record c { env_vars = insert st.key (expand_env st.value c.env_vars) c.env_vars };
        },
      )

  exec_workdir : ℕ → Text → Step → Run → LogEntry × Run
  unfolding exec_raw
  exec_workdir n phase st r =
      let (entry, r') = exec_raw n phase st.raw (10 * second) (mkdir_script st.path) r in
      let c = r'.ctx in
      if entry.good
      then (entry, record r' { ctx = record c { work_dir = st.path } })
      else (entry, r')

  exec_user : ℕ → Text → Step → Run → LogEntry × Run
  unfolding exec_raw
  exec_user n phase st r =
      let (entry, r') = exec_raw n phase st.raw (30 * second) (user_script st.key) r in
      if entry.good then (entry, record r' { ctx = switch_user st.key r'.ctx }) else (entry, r')

  refusal : Text → Text
  refusal s = codes "COPY source must be a relative path within the archive: " ++ quote s

  unfoldable pub exec_copy : ℕ → Text → Step → Run → LogEntry × Run
  unfolding exec_raw refusal
  exec_copy n phase st r = elim (src_paths st.srcs) [
    | err s ↦ (record (blank_entry n phase st.raw) { stderr = refusal s }, r)
    | ok paths ↦
        exec_raw n phase st.raw (60 * second)
          (copy_script paths (copy_target r.ctx st.dst) (owner_of r.ctx)) r
  ]

  exec_start : ℕ → Text → Step → Run → LogEntry × Run
  exec_start n phase st r = (
    started (blank_entry n phase st.raw) (agent.exec r.calls),
    send (start_command r.ctx st.shell) (10 * second) r,
  )

  exec_run : ℕ → Text → ℕ → Step → Run → LogEntry × Run
  unfolding streamed
  exec_run n phase timeout st r =
      let r' = send (wrapped_command r.ctx st.shell) timeout r in
      let entry = blank_entry n phase st.raw in
      elim agent.stream [
        | some stream ↦ streamed entry n (stream r.calls) r'
        | none ↦ (answered entry (agent.exec r.calls), r')
      ]

  exec_kind : Kind → ℕ → Text → ℕ → Step → Run → LogEntry × Run
  exec_kind env n phase default st r = exec_env n phase st r
  exec_kind workdir n phase default st r = exec_workdir n phase st r
  exec_kind user n phase default st r = exec_user n phase st r
  exec_kind copy n phase default st r = exec_copy n phase st r
  exec_kind start n phase default st r = exec_start n phase st r
  exec_kind run n phase default st r = exec_run n phase (timeout_of default st.timeout) st r

  -- The entries, the step counter, whether every step succeeded, and the run; `before` is the log so
  -- far.
  execute_from : Text → ℕ → List LogEntry → List Step → ℕ → Run → List LogEntry × ℕ × Bool × Run
  unfolding exec_kind conclude
  execute_from phase default before [] n r = ([], n, true, r)
  execute_from phase default before (st ∷ sts) n r =
      let step = n + 1 in
      let (entry, r') = exec_kind st.kind step phase default st (tell (step_started step) r) in
      let log = before ++ entry ∷ [] in
      let later = execute_from phase default log sts step (tell (progress step log) r') in
      conclude entry step r' later

  unfoldable pub execute : Text → List Step → ℕ → ℤ → Run → List LogEntry × ℕ × Bool × Run
  unfolding execute_from conclude exec_kind exec_env exec_workdir exec_user exec_start exec_run
      exec_raw streamed timeout_of read_chunks refusal print_int
  execute phase steps start_step default r =
      execute_from phase (timeout_of (600 * second) default) [] steps start_step r
