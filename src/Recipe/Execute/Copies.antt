-- ===== src/Recipe/Execute/Copies.antt =====
-- What a COPY step asks of the shell (internal/recipe/executor.go).
use wrenn.Prelude.{
  ℕ, ◌≡◌, refl, ap, ◌∙◌, sym, subst, ◌⊎◌, inl, inr, false, List, [], ◌∷◌, ◌++◌, Option, none, some,
  Text, codes, append_assoc, append_nil, All, length, map, Outcome-cases,
}
use wrenn.Recipe.{Step}
use wrenn.Recipe.Context.{shellescape}
use wrenn.Recipe.Copying.{copy_script, escaped_list, src_paths, copy_target, owner_of}
use wrenn.Recipe.Words.{
  Token, word, op, tokens, gap, inside, meaning, emits, emits-append, escaped_tokens, escaped_word,
}
use wrenn.Recipe.Stays.{InArchive, Accepted, src_paths-Accepted}
use wrenn.Recipe.Execute.{LogEntry, Run, Agent, exec_copy, exec_raw}

emits_nil : (r : Option (List Token)) → emits [] r ≡ r
emits_nil none = refl
emits_nil (some us) = refl

list_tokens :
    (ps : List Text) (rest : Text)
    → tokens gap [] (escaped_list ps ++ 32 ∷ rest) ≡ emits (map word ps) (tokens gap [] rest)
unfolding tokens meaning escaped_list
list_tokens [] rest = sym (emits_nil (tokens gap [] rest))
list_tokens (p ∷ []) rest = escaped_word p (32 ∷ rest)
list_tokens (p ∷ q ∷ ps) rest =
    let more = escaped_list (q ∷ ps) in
    ap (tokens gap []) (append_assoc (shellescape p) (32 ∷ more) (32 ∷ rest))
    ∙ escaped_word p (32 ∷ (more ++ 32 ∷ rest))
    ∙ ap (emits (word p ∷ [])) (list_tokens (q ∷ ps) rest)
    ∙ emits-append (word p ∷ []) (map word (q ∷ ps)) (tokens gap [] rest)

abbrev target_tokens : Text → Text → List Token
target_tokens dst owner =
    word dst
    ∷ op b'&'
    ∷ op b'&'
    ∷ word (codes "chown")
    ∷ word (codes "-R")
    ∷ word (owner ++ b':' ∷ owner)
    ∷ word dst
    ∷ []

-- cp -r PATHS DST && chown -R OWNER:OWNER DST.
abbrev pub copy_tokens : List Text → Text → Text → List Token
copy_tokens paths dst owner =
    word (codes "cp") ∷ word (codes "-r") ∷ (map word paths ++ target_tokens dst owner)

chown_tokens :
    (dst owner : Text)
    → tokens gap [] (shellescape owner ++ b':' ∷ (shellescape owner ++ 32 ∷ shellescape dst))
      ≡ some (word (owner ++ b':' ∷ owner) ∷ word dst ∷ [])
unfolding tokens meaning
chown_tokens dst owner =
    let last : tokens gap [] (shellescape dst) ≡ some (word dst ∷ []) =
      ap (tokens gap []) (sym (append_nil (shellescape dst))) ∙ escaped_word dst [] in
    escaped_word owner (b':' ∷ (shellescape owner ++ 32 ∷ shellescape dst))
    ∙ escaped_tokens owner (owner ++ b':' ∷ []) (32 ∷ shellescape dst)
    ∙ ap (λ a. tokens inside a (32 ∷ shellescape dst)) (append_assoc owner (b':' ∷ []) owner)
    ∙ ap (emits (word (owner ++ b':' ∷ owner) ∷ [])) last

script_tokens :
    (paths : List Text) (dst owner : Text)
    → tokens gap [] (copy_script paths dst owner) ≡ some (copy_tokens paths dst owner)
unfolding tokens meaning copy_script
script_tokens paths dst owner =
    let tail = shellescape owner ++ b':' ∷ (shellescape owner ++ 32 ∷ shellescape dst) in
    let after : tokens gap [] (shellescape dst ++ (codes " && chown -R " ++ tail))
        ≡ some (target_tokens dst owner) =
      escaped_word dst (codes " && chown -R " ++ tail)
      ∙ ap
          (λ r. emits (word dst ∷ []) (
            emits (op b'&' ∷ []) (
              emits (op b'&' ∷ [])
                (emits (word (codes "chown") ∷ []) (emits (word (codes "-R") ∷ []) r)))))
          (chown_tokens dst owner) in
    ap (λ r. emits (word (codes "cp") ∷ []) (emits (word (codes "-r") ∷ []) r))
      (list_tokens paths (shellescape dst ++ (codes " && chown -R " ++ tail))
        ∙ ap (emits (map word paths)) after)

-- A step asked the agent for one command, in which the shell reads one copy of paths that are all
-- in the archive, or it failed and asked for nothing.
abbrev pub Copies : Text → Step → Run → LogEntry × Run → Type 0
Copies owner st r (entry, r') =
    ((paths : List Text) × (length paths ≡ length st.srcs)
      × All InArchive paths
      × (cmd : Text) × (tokens gap [] cmd
          ≡ some (copy_tokens paths (copy_target r.ctx st.dst) owner))
      × (r'.sent ≡ r.sent ++ record { cmd = cmd; timeout = 60000000000 } ∷ []))
    ⊎ ((entry.good ≡ false) × (r'.sent ≡ r.sent))

-- A COPY step sends at most one command. A shell reads it as cp -r of as many paths as the step has
-- sources, to the target, and chown -R of the target to the owner; each of the paths lies below
-- the directory of the build files and has no parent element. A step that sends no command failed.
pub exec_copy-Copies :
    (quote : Text → Text) (agent : Agent) (n : ℕ) (phase : Text) (st : Step) (r : Run)
    → Copies (owner_of r.ctx) st r (exec_copy quote agent n phase st r)
unfolding exec_copy exec_raw
exec_copy-Copies quote agent n phase st r =
    let judged = src_paths-Accepted st.srcs in
    elim (Outcome-cases (src_paths st.srcs)) [
      | inl (s, e) ↦ rw (exec_copy, e) (inr (refl, refl))
      | inr (paths, e) ↦
          let (same, below) = subst (Accepted st.srcs) e judged in
          let dst = copy_target r.ctx st.dst in
          let owner = owner_of r.ctx in
          rw (exec_copy, e)
            (inl (
              paths,
              same,
              below,
              copy_script paths dst owner,
              script_tokens paths dst owner,
              refl,
            ))
    ]
