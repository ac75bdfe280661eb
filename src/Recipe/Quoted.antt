-- ===== src/Recipe/Quoted.antt =====
-- What a shell reads in the commands that a context makes (internal/recipe/context.go).
use wrenn.Prelude.{
  ◌≡◌, refl, sym, ap, ◌∙◌, inl, inr, ◌&&◌, List, [], ◌∷◌, ◌++◌, Option, none, some, map,
  if◌then◌else◌, Text, codes, and_parts, Bool-cases, append_assoc, append_nil, All, is_nil,
}
use wrenn.Recipe.Context.{
  ExecContext, EnvVars, shellescape, sort, insert_key, text_lt, sorted_vars, value_of, lookup,
  exports, no_vars, shell_prefix, inner_command, switches, as_user, wrapped_command, first,
}
use wrenn.Recipe.Words.{
  Token, word, op, tokens, gap, inside, meaning, emits, emits-append, escaped_tokens, escaped_word,
  plain_word, inside_plain, IsPlainWord,
}

abbrev pub HasPlainKey : Text × Text → Type 0
HasPlainKey p = IsPlainWord p.0

abbrev assignment : Text × Text → Token
assignment p = word (p.0 ++ b'=' ∷ p.1)

abbrev ands : List Token
ands = op b'&' ∷ op b'&' ∷ []

tokens-exports :
    (vars : EnvVars) (acc rest : Text)
    → All HasPlainKey vars
    → tokens inside acc (exports vars ++ 32 ∷ rest)
      ≡ emits (word acc ∷ map assignment vars) (tokens gap [] rest)
unfolding tokens meaning exports
tokens-exports [] acc rest h = refl
tokens-exports ((k, v) ∷ m) acc rest h =
    let after = exports m ++ 32 ∷ rest in
    let regroup : (k ++ b'=' ∷ (shellescape v ++ exports m)) ++ 32 ∷ rest
        ≡ k ++ b'=' ∷ (shellescape v ++ after) =
      append_assoc k (b'=' ∷ (shellescape v ++ exports m)) (32 ∷ rest)
      ∙ ap (λ t. k ++ b'=' ∷ t) (append_assoc (shellescape v) (exports m) (32 ∷ rest)) in
    let read : tokens gap [] (k ++ b'=' ∷ (shellescape v ++ after))
        ≡ tokens inside (k ++ b'=' ∷ v) after =
      plain_word k (b'=' ∷ (shellescape v ++ after)) h.0
      ∙ inside_plain k b'=' (shellescape v ++ after) refl
      ∙ escaped_tokens v (k ++ b'=' ∷ []) after
      ∙ ap (λ a. tokens inside a after) (append_assoc k (b'=' ∷ []) v) in
    ap (emits (word acc ∷ []))
      (ap (tokens gap []) regroup ∙ read ∙ tokens-exports m (k ++ b'=' ∷ v) rest h.1)
    ∙ emits-append (word acc ∷ []) (map assignment ((k, v) ∷ m)) (tokens gap [] rest)

-- The two parts of the preamble.
abbrev cd_part : Text → Text
cd_part dir = if is_nil dir then [] else codes "cd " ++ (shellescape dir ++ codes " && ")

abbrev cd_tokens : Text → List Token
cd_tokens dir = if is_nil dir then [] else word (codes "cd") ∷ word dir ∷ ands

abbrev export_part : EnvVars → Text
export_part vars =
    if no_vars vars then [] else codes "export" ++ (exports (sorted_vars vars) ++ codes " && ")

abbrev export_tokens : EnvVars → List Token
export_tokens vars =
    if no_vars vars then [] else word (codes "export") ∷ (map assignment (sorted_vars vars) ++ ands)

abbrev pub prefix_tokens : ExecContext → List Token
prefix_tokens c = cd_tokens c.work_dir ++ export_tokens c.env_vars

emits_none : (r : Option (List Token)) → emits [] r ≡ r
emits_none none = refl
emits_none (some us) = refl

emits_three :
    (a b c : Token) (r : Option (List Token))
    → emits (a ∷ []) (emits (b ∷ []) (emits (c ∷ []) r)) ≡ emits (a ∷ b ∷ c ∷ []) r
emits_three a b c none = refl
emits_three a b c (some us) = refl

ands_read :
    (w rest : Text)
    → tokens inside w (codes " && " ++ rest) ≡ emits (word w ∷ ands) (tokens gap [] rest)
unfolding tokens meaning
ands_read w rest = emits_three (word w) (op b'&') (op b'&') (tokens gap [] rest)

cd_reads :
    (dir rest : Text)
    → tokens gap [] (cd_part dir ++ rest) ≡ emits (cd_tokens dir) (tokens gap [] rest)
unfolding tokens meaning
cd_reads [] rest = sym (emits_none (tokens gap [] rest))
cd_reads (c ∷ cs) rest =
    let dir = c ∷ cs in
    ap (emits (word (codes "cd") ∷ [])) (
      ap (tokens gap []) (append_assoc (shellescape dir) (codes " && ") rest)
      ∙ escaped_word dir (codes " && " ++ rest)
      ∙ ands_read dir rest)
    ∙ emits-append (word (codes "cd") ∷ []) (word dir ∷ ands) (tokens gap [] rest)

-- Sorting keeps the variables plain.
insert_key-plain :
    (k : Text) (ks : List Text)
    → IsPlainWord k
    → All IsPlainWord ks
    → All IsPlainWord (insert_key k ks)
insert_key-plain k [] h hs = (h, tt)
insert_key-plain k (j ∷ js) h hs = elim (Bool-cases (text_lt j k)) [
  | inl e ↦ rw e (hs.0, insert_key-plain k js h hs.1)
  | inr e ↦ rw e (h, hs)
]

sort-plain : (vars : EnvVars) → All HasPlainKey vars → All IsPlainWord (sort (map first vars))
unfolding sort
sort-plain [] h = tt
sort-plain (p ∷ m) h = insert_key-plain p.0 (sort (map first m)) h.0 (sort-plain m h.1)

pairs-plain :
    (vars : EnvVars) (ks : List Text)
    → All IsPlainWord ks
    → All HasPlainKey (map (λ k. (k, value_of (lookup k vars))) ks)
pairs-plain vars [] h = tt
pairs-plain vars (k ∷ ks) h = (h.0, pairs-plain vars ks h.1)

sorted-plain : (vars : EnvVars) → All HasPlainKey vars → All HasPlainKey (sorted_vars vars)
unfolding sorted_vars
sorted-plain vars h = pairs-plain vars (sort (map first vars)) (sort-plain vars h)

-- The word export, the assignments and the two operators, before what follows.
export_shape :
    (before : List Token) (r : Option (List Token))
    → emits (word (codes "export") ∷ before) (emits ands r)
      ≡ emits (word (codes "export") ∷ (before ++ ands)) r
export_shape before r = emits-append (word (codes "export") ∷ before) ands r

export_reads :
    (vars : EnvVars) (rest : Text)
    → All HasPlainKey vars
    → tokens gap [] (export_part vars ++ rest) ≡ emits (export_tokens vars) (tokens gap [] rest)
unfolding tokens meaning
export_reads [] rest h = sym (emits_none (tokens gap [] rest))
export_reads (p ∷ m) rest h =
    let vars = p ∷ m in
    let sorted = sorted_vars vars in
    let after = codes "&& " ++ rest in
    ap (tokens inside (codes "export")) (append_assoc (exports sorted) (codes " && ") rest)
    ∙ tokens-exports sorted (codes "export") after (sorted-plain vars h)
    ∙ ap (emits (word (codes "export") ∷ map assignment sorted))
        (emits-append (op b'&' ∷ []) (op b'&' ∷ []) (tokens gap [] rest))
    ∙ export_shape (map assignment sorted) (tokens gap [] rest)

prefix_parts : (c : ExecContext) → shell_prefix c ≡ cd_part c.work_dir ++ export_part c.env_vars
unfolding shell_prefix
prefix_parts c = elim (Bool-cases (is_nil c.work_dir && no_vars c.env_vars)) [
  | inl e ↦
      let (d, v) = and_parts (is_nil c.work_dir) (no_vars c.env_vars) e in
      rw (shell_prefix, d, v) (refl)
  | inr e ↦ rw (shell_prefix, e) (refl)
]

inner_reads :
    (c : ExecContext) (cmd : Text)
    → All HasPlainKey c.env_vars
    → tokens gap [] (inner_command c cmd) ≡ emits (prefix_tokens c) (tokens gap [] cmd)
unfolding inner_command
inner_reads c cmd h =
    let dir = c.work_dir in
    let vars = c.env_vars in
    ap (λ t. tokens gap [] (t ++ cmd)) (prefix_parts c)
    ∙ ap (tokens gap []) (append_assoc (cd_part dir) (export_part vars) cmd)
    ∙ cd_reads dir (export_part vars ++ cmd)
    ∙ ap (emits (cd_tokens dir)) (export_reads vars cmd h)
    ∙ emits-append (cd_tokens dir) (export_tokens vars) (tokens gap [] cmd)

as_user_reads :
    (user inner : Text)
    → tokens gap [] (as_user user inner)
      ≡ some (word (codes "su") ∷ word user ∷ word (codes "-c") ∷ word inner ∷ [])
unfolding tokens meaning as_user
as_user_reads user inner =
    let last : tokens gap [] (shellescape inner) ≡ some (word inner ∷ []) =
      ap (tokens gap []) (sym (append_nil (shellescape inner))) ∙ escaped_word inner [] in
    ap (emits (word (codes "su") ∷ [])) (
      escaped_word user (codes " -c " ++ shellescape inner)
      ∙ ap (λ r. emits (word user ∷ []) (emits (word (codes "-c") ∷ []) r)) last)

-- When the names of the variables are plain words, a shell reads the command of a RUN step as cd
-- and the working directory, export and each variable with its value, and the words of the command
-- itself, whatever the directory and the values are; with a user that is not root it reads just su,
-- the user, -c and all of that as one word.
pub wrapped_command_words :
    (c : ExecContext) (cmd : Text)
    → All HasPlainKey c.env_vars
    → (tokens gap [] (wrapped_command c cmd) ≡ (
        if switches c
        then some
            (word (codes "su") ∷ word c.user ∷ word (codes "-c") ∷ word (inner_command c cmd) ∷ [])
        else tokens gap [] (inner_command c cmd)))
      × (tokens gap [] (inner_command c cmd) ≡ emits (prefix_tokens c) (tokens gap [] cmd))
unfolding wrapped_command
wrapped_command_words c cmd h = elim (Bool-cases (switches c)) [
  | inl e ↦
      rw (wrapped_command, e) (as_user_reads c.user (inner_command c cmd), inner_reads c cmd h)
  | inr e ↦ rw (wrapped_command, e) (refl, inner_reads c cmd h)
]
