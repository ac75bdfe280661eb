-- ===== src/Recipe/Copying.antt =====
-- The shell scripts of the steps that the executor runs itself: WORKDIR, USER and COPY
-- (internal/recipe/executor.go).
use wrenn.Prelude.{
  Bool, false, not, ◌&&◌, ◌||◌, List, [], ◌∷◌, ◌++◌, ◌==◌, if◌then◌else◌, Text, text_eq, codes,
  is_nil, has_prefix, Outcome, err, ok,
}
use wrenn.Recipe.Context.{ExecContext, shellescape, insert}
use wrenn.Recipe.Paths.{clean}

abbrev pub build_files_dir : Text
build_files_dir = codes "/tmp/build-files"

unfoldable pub mkdir_script : Text → Text
unfolding shellescape
mkdir_script path = codes "mkdir -p " ++ shellescape path

unfoldable pub user_script : Text → Text
unfolding shellescape
user_script name =
    let quoted = shellescape name in
    codes "id "
    ++ (quoted
        ++ (codes " >/dev/null 2>&1 || (adduser --disabled-password --gecos '' --shell /bin/bash "
            ++ (quoted
                ++ (codes " && printf '%s ALL=(ALL) NOPASSWD:ALL\\n' "
                    ++ (quoted ++ codes " >> /etc/sudoers)")))))

-- The context after a USER step that succeeded.
unfoldable pub switch_user : Text → ExecContext → ExecContext
switch_user name c =
    let home = if text_eq name (codes "root") then codes "/root" else codes "/home/" ++ name in
    record c { user = name; env_vars = insert (codes "HOME") home c.env_vars }

abbrev pub escapes : Text → Bool
escapes cleaned = has_prefix cleaned (codes "..") || has_prefix cleaned (codes "/")

-- The sources inside of the archive, or the first one that leaves it.
unfoldable pub src_paths : List Text → Outcome Text (List Text)
src_paths [] = ok []
src_paths (s ∷ ss) =
    let cleaned = clean s in
    let rest = src_paths ss in
    if escapes cleaned
    then err s
    else elim rest [ err e ↦ err e | ok ps ↦ ok ((build_files_dir ++ b'/' ∷ cleaned) ∷ ps) ]

abbrev is_absolute : Text → Bool
is_absolute [] = false
is_absolute (c ∷ cs) = c == b'/'

unfoldable pub copy_target : ExecContext → Text → Text
copy_target c dst =
    if not (is_nil dst) && not (is_absolute dst) && not (is_nil c.work_dir)
    then c.work_dir ++ b'/' ∷ dst
    else dst

unfoldable pub owner_of : ExecContext → Text
owner_of c = if is_nil c.user then codes "root" else c.user

-- strings.Join of the escaped paths.
unfoldable pub escaped_list : List Text → Text
unfolding shellescape
escaped_list [] = []
escaped_list (p ∷ []) = shellescape p
escaped_list (p ∷ q ∷ ps) = shellescape p ++ 32 ∷ escaped_list (q ∷ ps)

unfoldable pub copy_script : List Text → Text → Text → Text
unfolding shellescape escaped_list
copy_script paths dst owner =
    codes "cp -r "
    ++ (escaped_list paths
        ++ 32
          ∷ (shellescape dst
              ++ (codes " && chown -R "
                  ++ (shellescape owner ++ b':' ∷ (shellescape owner ++ 32 ∷ shellescape dst)))))
