-- ===== src/Recipe.antt =====
-- Build recipes (internal/recipe): the instructions and their parser (step.go). The context that a
-- recipe keeps and the commands that it makes (context.go) stand in Context and Expand, the executor
-- (executor.go) in Execute, Copying and Paths.
pub mod Context
pub mod Expand
pub mod Paths
pub mod Execute
pub mod Copying
pub mod Words
pub mod Quoted
pub mod Stays
mod Tests
use wrenn.Prelude.{
  ℕ, ◌+◌, ◌-◌, Bool, true, false, not, ◌&&◌, ◌||◌, List, [], ◌∷◌, Option, none, some, ◌==◌, leb,
  ltb, if◌then◌else◌, Text, text_eq, codes, Outcome, err, ok, ℤ, pos, is_nil, is_letter, is_digit,
  is_space, has_prefix, drop_prefix, trim_space, cut, to_upper, length,
}

pub data Kind : Type 0 where
  run start env workdir user copy : Kind

pub record Step : Type 0 where
  pub kind : Kind
  pub raw : Text
  pub shell : Text
  pub timeout : ℤ
  pub key : Text
  pub value : Text
  pub path : Text
  pub srcs : List Text
  pub dst : Text

pub data ParseError : Type 0 where
  empty_step unknown_instruction : ParseError
  timeout_without_command timeout_invalid run_without_command start_without_command : ParseError
  env_without_value env_without_key workdir_without_path : ParseError
  user_without_name user_start user_character copy_arguments : ParseError

-- Step{Kind: kind, Raw: raw}: every other field has its zero value.
abbrev step_of : Kind → Text → Step
step_of kind raw = record {
  kind = kind;
  raw = raw;
  shell = [];
  timeout = pos 0;
  key = [];
  value = [];
  path = [];
  srcs = [];
  dst = [];
}

parse_command : Text → ℤ → Text → Outcome ParseError Step
parse_command raw timeout rest =
    if is_nil rest
    then err run_without_command
    else ok (record (step_of run raw) { shell = rest; timeout = timeout })

-- What follows --timeout=; `duration` is time.ParseDuration, in nanoseconds.
parse_timeout : (Text → Option ℤ) → Text → Text → Outcome ParseError Step
unfolding parse_command
parse_timeout duration raw rest =
    let (flag, cmd, found) = cut 32 rest in
    if not found || is_nil (trim_space cmd)
    then err timeout_without_command
    else elim (duration flag) [
      | none ↦ err timeout_invalid
      | some d ↦ parse_command raw d (trim_space cmd)
    ]

parse_run : (Text → Option ℤ) → Text → Text → Outcome ParseError Step
unfolding parse_timeout parse_command
parse_run duration raw rest =
    if has_prefix rest (codes "--timeout=")
    then parse_timeout duration raw (drop_prefix rest (codes "--timeout="))
    else parse_command raw (pos 0) rest

parse_start : Text → Text → Outcome ParseError Step
parse_start raw rest =
    if is_nil rest
    then err start_without_command
    else ok (record (step_of start raw) { shell = rest })

parse_env : Text → Text → Outcome ParseError Step
parse_env raw rest =
    let (key, value, found) = cut b'=' rest in
    if not found
    then err env_without_value
    else if is_nil key
    then err env_without_key
    else ok (record (step_of env raw) { key = key; value = value })

parse_workdir : Text → Text → Outcome ParseError Step
parse_workdir raw rest =
    if is_nil rest
    then err workdir_without_path
    else ok (record (step_of workdir raw) { path = rest })

abbrev pub is_name_start : ℕ → Bool
is_name_start c = is_letter c || c == b'_'

abbrev pub is_name_char : ℕ → Bool
is_name_char c = is_letter c || is_digit c || c == b'_' || c == b'-'

-- The characters after the first.
name_chars : Text → Option ParseError
name_chars [] = none
name_chars (c ∷ cs) =
    let rest = name_chars cs in if is_name_char c then rest else some user_character

name_error : Text → Option ParseError
unfolding name_chars
name_error [] = none
name_error (c ∷ cs) = if is_name_start c then name_chars (c ∷ cs) else some user_start

parse_user : Text → Text → Outcome ParseError Step
unfolding name_error
parse_user raw username =
    if is_nil username then err user_without_name else elim (name_error username) [
      | some e ↦ err e
      | none ↦ ok (record (step_of user raw) { key = username })
    ]

abbrev push_char : ℕ → Bool → List Text → List Text
push_char c true ws = (c ∷ []) ∷ ws
push_char c false [] = (c ∷ []) ∷ []
push_char c false (w ∷ ws) = (c ∷ w) ∷ ws

-- strings.Fields; the second part says whether the text begins with a space or is over.
fields_from : Text → List Text × Bool
fields_from [] = ([], true)
fields_from (c ∷ cs) =
    let (ws, apart) = fields_from cs in
    if is_space c then (ws, true) else (push_char c apart ws, false)

unfoldable pub fields : Text → List Text
unfolding fields_from
fields s = (fields_from s).0

-- All words but the last, and the last.
split_last : Text → List Text → List Text × Text
split_last w [] = ([], w)
split_last w (v ∷ vs) = let (front, end) = split_last v vs in (w ∷ front, end)

copy_of : Text → List Text → Outcome ParseError Step
unfolding split_last
copy_of raw [] = err copy_arguments
copy_of raw (w ∷ []) = err copy_arguments
copy_of raw (w ∷ v ∷ vs) =
    let (srcs, dst) = split_last w (v ∷ vs) in
    ok (record (step_of copy raw) { srcs = srcs; dst = dst })

parse_copy : Text → Text → Outcome ParseError Step
unfolding copy_of fields
parse_copy raw rest = if is_nil rest then err copy_arguments else copy_of raw (fields rest)

parse_trimmed : (Text → Option ℤ) → Text → Outcome ParseError Step
unfolding parse_run parse_start parse_env parse_workdir parse_user parse_copy
parse_trimmed duration s =
    let (keyword, after, found) = cut 32 s in
    let rest = trim_space after in
    let word = to_upper keyword in
    if is_nil s
    then err empty_step
    else if text_eq word (codes "RUN")
    then parse_run duration s rest
    else if text_eq word (codes "START")
    then parse_start s rest
    else if text_eq word (codes "ENV")
    then parse_env s rest
    else if text_eq word (codes "WORKDIR")
    then parse_workdir s rest
    else if text_eq word (codes "USER")
    then parse_user s rest
    else if text_eq word (codes "COPY")
    then parse_copy s rest
    else err unknown_instruction

unfoldable pub parse_step : (Text → Option ℤ) → Text → Outcome ParseError Step
unfolding parse_trimmed
parse_step duration s = parse_trimmed duration (trim_space s)

-- The steps of all lines, or the number of the first line that does not parse, from 1.
parse_lines : (Text → Option ℤ) → ℕ → List Text → Outcome (ℕ × ParseError) (List Step)
unfolding parse_step
parse_lines duration n [] = ok []
parse_lines duration n (l ∷ ls) =
    let rest = parse_lines duration (n + 1) ls in
    elim (parse_step duration l) [
      | err e ↦ err (n, e)
      | ok st ↦ elim rest [ err e ↦ err e | ok sts ↦ ok (st ∷ sts) ]
    ]

unfoldable pub parse_recipe : (Text → Option ℤ) → List Text → Outcome (ℕ × ParseError) (List Step)
unfolding parse_lines
parse_recipe duration lines = parse_lines duration 1 lines
