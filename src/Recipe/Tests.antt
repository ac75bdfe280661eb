-- ===== src/Recipe/Tests.antt =====
-- Recipes at concrete inputs, some of them from internal/recipe's tests.
use wrenn.Prelude.{
  ℕ, zero, suc, trim_space, is_space, cut, ◌≡◌, refl, List, [], ◌∷◌, ◌++◌, Option, none, some,
  if◌then◌else◌, Text, codes, err, ok, ℤ, pos,
}
use wrenn.Recipe.{run, workdir, copy, Step, parse_step, parse_recipe, user_start, fields}
use wrenn.Recipe.Context.{ExecContext, shell_prefix, wrapped_command, switches, inner_command}
use wrenn.Recipe.Expand.{expand_env}
use wrenn.Recipe.Paths.{clean, clean_relative}
use wrenn.Recipe.Words.{word, tokens, gap, emits}
use wrenn.Recipe.Quoted.{wrapped_command_words, prefix_tokens}
use wrenn.Recipe.Copying.{owner_of, src_paths}
use wrenn.Recipe.Execute.{Run, Agent, Reply, execute, exec_copy}
use wrenn.Recipe.Execute.Logs.{execute-Performs, Leaves}
use wrenn.Recipe.Execute.Copies.{exec_copy-Copies, Copies}

-- A parser of durations that knows one.
abbrev five_minutes : Text → Option ℤ
five_minutes s = some (pos 300000000000)

abbrev copied : Step
copied = record {
  kind = copy;
  raw = codes "COPY a/../b.txt c dst";
  shell = [];
  timeout = pos 0;
  key = [];
  value = [];
  path = [];
  srcs = codes "a/../b.txt" ∷ codes "c" ∷ [];
  dst = codes "dst";
}

parse_copy_words :
    parse_step five_minutes (codes "  copy  a/../b.txt c   dst ")
    ≡ ok (record copied { raw = codes "copy  a/../b.txt c   dst" })
unfolding parse_step fields trim_space is_space cut
parse_copy_words = refl

parse_timeout_flag :
    parse_step five_minutes (codes "RUN --timeout=5m make")
    ≡ ok (record copied {
      kind = run;
      raw = codes "RUN --timeout=5m make";
      shell = codes "make";
      timeout = pos 300000000000;
      srcs = [];
      dst = [];
    })
unfolding parse_step trim_space is_space cut
parse_timeout_flag = refl

parse_bad_line :
    parse_recipe five_minutes (codes "RUN make" ∷ codes "USER 1st" ∷ codes "FROM x" ∷ [])
    ≡ err (2, user_start)
unfolding parse_recipe parse_step trim_space is_space cut
parse_bad_line = refl

clean_inner : clean (codes "a/./b//../../../c/") ≡ codes "../c"
unfolding clean clean_relative
clean_inner = refl

clean_root : clean (codes "/../a/") ≡ codes "/a"
unfolding clean clean_relative
clean_root = refl

expand_braced :
    expand_env (codes "${PATH}:/bin:$X$$Y${Z") ((codes "PATH", codes "/usr") ∷ [])
    ≡ codes "/usr:/bin:$Y${Z"
unfolding expand_env
expand_braced = refl

abbrev context : ExecContext
context = record {
  work_dir = codes "/my dir";
  env_vars = (codes "PORT", codes "80") ∷ (codes "A", codes "it's") ∷ [];
  user = codes "dev";
}

prefix_sorted : shell_prefix context ≡ codes "cd '/my dir' && export A='it'\\''s' PORT='80' && "
unfolding shell_prefix
prefix_sorted = refl

wrapped_command_words_example :
    (tokens gap [] (wrapped_command context (codes "make all")) ≡ (
      if switches context
      then some (
          word (codes "su")
          ∷ word context.user
          ∷ word (codes "-c")
          ∷ word (inner_command context (codes "make all"))
          ∷ [])
      else tokens gap [] (inner_command context (codes "make all"))))
    × (tokens gap [] (inner_command context (codes "make all"))
        ≡ emits (prefix_tokens context) (tokens gap [] (codes "make all")))
wrapped_command_words_example =
    wrapped_command_words context (codes "make all") ((refl, refl), ((refl, refl), tt))

-- An agent that answers every command with success but the third.
abbrev replies : ℕ → Reply
replies (zero) = record {
  answer = ok (record { stdout = []; stderr = []; exit = pos 0 });
  took = 3;
}
replies (suc zero) = record {
  answer = ok (record { stdout = codes "hi"; stderr = []; exit = pos 0 });
  took = 5;
}
replies n = record { answer = err (codes "deadline"); took = 9 }

abbrev agent : Agent
agent = record { exec = replies; stream = none }

abbrev quoted : Text → Text
quoted s = b'"' ∷ (s ++ b'"' ∷ [])

abbrev fresh : Run
fresh = record { ctx = context; calls = 0; sent = []; told = [] }

abbrev steps : List Step
steps =
    record copied { kind = workdir; raw = codes "WORKDIR /w"; path = codes "/w" }
    ∷ copied
    ∷ record copied { kind = run; raw = codes "RUN make"; shell = codes "make" }
    ∷ copied
    ∷ []

execute-Performs_example :
    Leaves
      (codes "recipe")
      steps
      4
      fresh
      (execute quoted agent (codes "recipe") steps 4 (pos 0) fresh)
execute-Performs_example = execute-Performs quoted agent (codes "recipe") steps 4 (pos 0) fresh

execute_stops : (execute quoted agent (codes "recipe") steps 4 (pos 0) fresh).1 ≡ 7
unfolding execute exec_copy src_paths clean clean_relative
execute_stops = refl

exec_copy-Copies_example :
    Copies (owner_of context) copied fresh (exec_copy quoted agent 5 (codes "recipe") copied fresh)
exec_copy-Copies_example = exec_copy-Copies quoted agent 5 (codes "recipe") copied fresh
