-- ===== src/Analyzer/Walk/Tree.antt =====
-- soroban-analyzer/src/walk.rs: the Rust files under a path. What the file system answers at one
-- moment is a tree, each refusal of it with its text. A path is its components, in whose order
-- `Path` compares, and is shown with one separator between them.
use Prim.Native.Char.{code}
use soroban_fuzzer.Prelude.{
  String, Bool, false, List, [], ◌∷◌, ◌++◌, Option, none, some, any, ◌==◌, if◌then◌else◌,
}
use soroban_fuzzer.Prelude.Order.{same, string_ord}
use soroban_fuzzer.Prelude.ListOrder.{list_ord}
use soroban_fuzzer.Prelude.Sort.{sort_by, sort}
use soroban_fuzzer.Prelude.Text.{◌<>◌, join}

abbrev pub FilePath : Type 0
FilePath = List String

abbrev pub display : FilePath → String
display path = join "/" path

abbrev pub skipped_dirs : List String
skipped_dirs = "target" ∷ ".git" ∷ "node_modules" ∷ ".cargo" ∷ "vendor" ∷ []

unfoldable pub is_skipped_dir : String → Bool
is_skipped_dir name = any (λ s. same s name) skipped_dirs

-- The text after the last dot, if there is a dot.
unfoldable pub after_dot : String → Option String
after_dot String.[] = none
after_dot (String.◌∷◌ c s) =
    let later = after_dot s in
    elim later [ some e ↦ some e | none ↦ if code c == 46 then some s else none ]

-- `Path::extension`: a dot that begins the name is no separator.
unfoldable pub extension : String → Option String
unfolding after_dot
extension String.[] = none
extension (String.◌∷◌ c s) = after_dot s

abbrev pub is_rust : Option String → Bool
is_rust none = false
is_rust (some e) = same e "rs"

mutual
  -- What stands at a place: a directory that can be read has entries.
  pub data Node : Type 0 where
    regular : Node
    symlink : Node
    special : Node
    untyped : String → Node
    unreadable : String → Node
    directory : Entries → Node

  -- An entry may itself be unreadable.
  pub data Entries : Type 0 where
    no_more : Entries
    broken : String → Entries → Entries
    entry : String → Node → Entries → Entries

-- What a walk of one directory has so far: its own files, its problems, and the walks of its
-- subdirectories with their paths.
pub record DirectoryWalk : Type 0 where
  pub files : List FilePath
  pub problems : List String
  pub below : List (FilePath × List FilePath × List String)

abbrev pub nothing_walked : DirectoryWalk
nothing_walked = record { files = []; problems = []; below = [] }

unfoldable pub add_problem : String → DirectoryWalk → DirectoryWalk
add_problem p w = record { files = w.files; problems = p ∷ w.problems; below = w.below }

unfoldable pub add_file : FilePath → String → DirectoryWalk → DirectoryWalk
unfolding extension
add_file path name w =
    if is_rust (extension name)
    then record { files = path ∷ w.files; problems = w.problems; below = w.below }
    else w

unfoldable pub add_below :
    FilePath → String → List FilePath × List String → DirectoryWalk → DirectoryWalk
unfolding is_skipped_dir
add_below path name sub w =
    if is_skipped_dir name
    then w
    else record { files = w.files; problems = w.problems; below = (path, sub.0, sub.1) ∷ w.below }

abbrev pub concat_files : List (FilePath × List FilePath × List String) → List FilePath
concat_files [] = []
concat_files ((p, fs, ps) ∷ rest) = fs ++ concat_files rest

abbrev pub concat_problems : List (FilePath × List FilePath × List String) → List String
concat_problems [] = []
concat_problems ((p, fs, ps) ∷ rest) = ps ++ concat_problems rest

-- The directory's own files and problems, then those of its subdirectories in their order.
unfoldable pub gather : DirectoryWalk → List FilePath × List String
unfolding sort_by
gather w =
    let subdirectories = sort_by (λ a b. list_ord.cmp a.0 b.0) w.below in
    (w.files ++ concat_files subdirectories, w.problems ++ concat_problems subdirectories)

unfoldable mutual
  unfolding add_problem add_file add_below gather

  -- The walk of a directory's entries, each below `dir`.
  pub walk_entries : FilePath → Entries → DirectoryWalk
  walk_entries dir no_more = nothing_walked
  walk_entries dir (broken e rest) = add_problem (display dir <> ": " <> e) (walk_entries dir rest)
  walk_entries dir (entry name node rest) =
      walk_node (dir ++ name ∷ []) name node (walk_entries dir rest)

  -- One entry, before those that follow it.
  pub walk_node : FilePath → String → Node → DirectoryWalk → DirectoryWalk
  walk_node path name regular w = add_file path name w
  walk_node path name symlink w = w
  walk_node path name special w = add_file path name w
  walk_node path name (untyped e) w = add_problem (display path <> ": " <> e) w
  walk_node path name (unreadable e) w =
      add_below path name ([], (display path <> ": " <> e) ∷ []) w
  walk_node path name (directory entries) w =
      add_below path name (gather (walk_entries path entries)) w

unfoldable pub collect : FilePath → Node → List FilePath × List String
unfolding walk_entries gather sort_by
collect path regular = (path ∷ [], [])
collect path symlink =
    ([], (display path <> ": not a file or a directory, so there is nothing to analyse") ∷ [])
collect path special =
    ([], (display path <> ": not a file or a directory, so there is nothing to analyse") ∷ [])
collect path (untyped e) = ([], (display path <> ": " <> e) ∷ [])
collect path (unreadable e) = ([], (display path <> ": " <> e) ∷ [])
collect path (directory entries) =
    let found = gather (walk_entries path entries) in (sort found.0, found.1)
