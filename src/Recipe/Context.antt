-- ===== src/Recipe/Context.antt =====
-- The context of a recipe and the commands that it makes (internal/recipe/context.go).
use wrenn.Prelude.{
  Bool, true, false, not, ◌&&◌, ◌||◌, List, [], ◌∷◌, ◌++◌, Option, none, some, ◌==◌, ltb,
  if◌then◌else◌, Text, text_eq, codes, is_nil, map,
}

-- A map from variables to values, each variable once.
abbrev pub EnvVars : Type 0
EnvVars = List (Text × Text)

abbrev pub lookup : Text → EnvVars → Option Text
lookup k [] = none
lookup k ((j, v) ∷ m) = if text_eq j k then some v else lookup k m

abbrev pub insert : Text → Text → EnvVars → EnvVars
insert k v [] = (k, v) ∷ []
insert k v ((j, w) ∷ m) = if text_eq j k then (j, v) ∷ m else (j, w) ∷ insert k v m

pub record ExecContext : Type 0 where
  pub work_dir : Text
  pub env_vars : EnvVars
  pub user : Text

-- strings.ReplaceAll(s, "'", `'\''`).
unfoldable pub replace_quotes : Text → Text
replace_quotes [] = []
replace_quotes (c ∷ cs) =
    let rest = replace_quotes cs in if c == 39 then 39 ∷ 92 ∷ 39 ∷ 39 ∷ rest else c ∷ rest

unfoldable pub shellescape : Text → Text
unfolding replace_quotes
shellescape s = 39 ∷ (replace_quotes s ++ 39 ∷ [])

-- The order of Go's strings.
abbrev pub text_lt : Text → Text → Bool
text_lt s [] = false
text_lt [] (d ∷ ds) = true
text_lt (c ∷ cs) (d ∷ ds) = ltb c d || c == d && text_lt cs ds

abbrev pub insert_key : Text → List Text → List Text
insert_key k [] = k ∷ []
insert_key k (j ∷ js) = if text_lt j k then j ∷ insert_key k js else k ∷ j ∷ js

-- slices.Sort.
unfoldable pub sort : List Text → List Text
sort [] = []
sort (k ∷ ks) = insert_key k (sort ks)

abbrev pub value_of : Option Text → Text
value_of none = []
value_of (some v) = v

abbrev pub first : Text × Text → Text
first p = p.0

-- The variables in the order of their names, each with its value.
unfoldable pub sorted_vars : EnvVars → List (Text × Text)
unfolding sort
sorted_vars vars = map (λ k. (k, value_of (lookup k vars))) (sort (map first vars))

unfoldable pub exports : List (Text × Text) → Text
unfolding shellescape
exports [] = []
exports ((k, v) ∷ m) = 32 ∷ (k ++ b'=' ∷ (shellescape v ++ exports m))

abbrev pub no_vars : EnvVars → Bool
no_vars [] = true
no_vars (p ∷ m) = false

unfoldable pub shell_prefix : ExecContext → Text
unfolding shellescape exports sorted_vars
shell_prefix c =
    if is_nil c.work_dir && no_vars c.env_vars
    then []
    else (if is_nil c.work_dir then [] else codes "cd " ++ (shellescape c.work_dir ++ codes " && "))
      ++ (if no_vars c.env_vars
          then []
          else codes "export" ++ (exports (sorted_vars c.env_vars) ++ codes " && "))

unfoldable pub inner_command : ExecContext → Text → Text
unfolding shell_prefix
inner_command c cmd = shell_prefix c ++ cmd

-- A user is set that is not root.
abbrev pub switches : ExecContext → Bool
switches c = not (is_nil c.user) && not (text_eq c.user (codes "root"))

unfoldable pub as_user : Text → Text → Text
unfolding shellescape
as_user user inner = codes "su " ++ (shellescape user ++ (codes " -c " ++ shellescape inner))

unfoldable pub wrapped_command : ExecContext → Text → Text
unfolding inner_command as_user
wrapped_command c cmd =
    let inner = inner_command c cmd in if switches c then as_user c.user inner else inner

unfoldable pub background : ExecContext → Text → Text
unfolding shell_prefix shellescape
background c cmd =
    shell_prefix c
    ++ (codes "nohup \"${SHELL:-/bin/sh}\" -c " ++ (shellescape cmd ++ codes " >/dev/null 2>&1 &"))

unfoldable pub start_command : ExecContext → Text → Text
unfolding background as_user
start_command c cmd =
    let inner = background c cmd in if switches c then as_user c.user inner else inner
