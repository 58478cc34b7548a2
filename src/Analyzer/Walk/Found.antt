-- ===== src/Analyzer/Walk/Found.antt =====
-- The files under a path, without the order and the accumulators of soroban-analyzer/src/walk.rs.
use soroban_fuzzer.Prelude.{
  ◌≡◌, refl, ap, ◌∙◌, String, Bool, true, false, ◌||◌, ◌&&◌, not, List, [], ◌∷◌, ◌++◌, any, arith,
}
use soroban_fuzzer.Prelude.Order.{same, string_ord}
use soroban_fuzzer.Prelude.Text.{◌<>◌}
use soroban_fuzzer.Prelude.ListOrder.{list_ord}
use soroban_fuzzer.Prelude.Sort.{sort_by, any-sort_by}
use soroban_fuzzer.Analyzer.Walk.Tree.{
  FilePath, display, Node, regular, symlink, special, untyped, unreadable, directory, Entries,
  no_more, broken, entry, is_skipped_dir, extension, is_rust, DirectoryWalk, add_problem, add_file,
  add_below, concat_files, gather, walk_entries, walk_node, collect,
}

and-false : (b : Bool) → (b && false) ≡ false
and-false true = refl
and-false false = refl

pub any-append {ℓ} :
    {A : Type ℓ} (p : A → Bool) (xs ys : List A) → any p (xs ++ ys) ≡ (any p xs || any p ys)
any-append p [] ys = refl
any-append p (x ∷ xs) ys = ground (arith, any-append p xs ys)

mutual
  -- The file at `p` is a Rust file of the tree: no directory above it is a skipped one or was
  -- reached through a link.
  pub is_source : FilePath → FilePath → Entries → Bool
  is_source p dir no_more = false
  is_source p dir (broken e rest) = is_source p dir rest
  is_source p dir (entry name node rest) =
      is_source_at p (dir ++ name ∷ []) name node || is_source p dir rest

  pub is_source_at : FilePath → FilePath → String → Node → Bool
  is_source_at p path name regular = is_rust (extension name) && same path p
  is_source_at p path name symlink = false
  is_source_at p path name special = is_rust (extension name) && same path p
  is_source_at p path name (untyped e) = false
  is_source_at p path name (unreadable e) = false
  is_source_at p path name (directory entries) =
      not (is_skipped_dir name) && is_source p path entries

any-concat_files :
    (t : FilePath → Bool) (l : List (FilePath × List FilePath × List String))
    → any t (concat_files l) ≡ any (λ s. any t s.1) l
any-concat_files t [] = refl
any-concat_files t ((p, fs, ps) ∷ l) =
    any-append t fs (concat_files l) ∙ ap (λ (b : Bool). any t fs || b) (any-concat_files t l)

-- What a walk has found so far, here or below.
abbrev found_in : (FilePath → Bool) → DirectoryWalk → Bool
found_in t w = any t w.files || any (λ s. any t s.1) w.below

any-gather : (t : FilePath → Bool) (w : DirectoryWalk) → any t (gather w).0 ≡ found_in t w
unfolding gather
any-gather t w =
    let c = λ (a b : FilePath × List FilePath × List String). list_ord.cmp a.0 b.0 in
    any-append t w.files (concat_files (sort_by c w.below))
    ∙ ap (λ (b : Bool). any t w.files || b)
        (any-concat_files t (sort_by c w.below) ∙ any-sort_by (λ s. any t s.1) c w.below)

found-add_file :
    (p path : FilePath) (name : String) (w : DirectoryWalk)
    → found_in (λ q. same q p) (add_file path name w)
      ≡ ((is_rust (extension name) && same path p) || found_in (λ q. same q p) w)
unfolding add_file
found-add_file p path name w = ground arith

found-add_below :
    (t : FilePath → Bool) (path : FilePath) (name : String) (sub : List FilePath × List String)
    (w : DirectoryWalk)
    → found_in t (add_below path name sub w)
      ≡ ((not (is_skipped_dir name) && any t sub.0) || found_in t w)
unfolding add_below
found-add_below t path name sub w = ground arith

found-add_problem :
    (t : FilePath → Bool) (e : String) (w : DirectoryWalk)
    → found_in t (add_problem e w) ≡ found_in t w
unfolding add_problem
found-add_problem t e w = refl

mutual
  unfolding walk_entries is_source

  walk_entries_lem :
      (p dir : FilePath) (es : Entries)
      → found_in (λ q. same q p) (walk_entries dir es) ≡ is_source p dir es
  walk_entries_lem p dir no_more = refl
  walk_entries_lem p dir (broken e rest) = walk_entries_lem p dir rest
  walk_entries_lem p dir (entry name node rest) =
      walk_node_lem p (dir ++ name ∷ []) name node (walk_entries dir rest)
      ∙ ap (λ (b : Bool). is_source_at p (dir ++ name ∷ []) name node || b)
          (walk_entries_lem p dir rest)

  walk_node_lem :
      (p path : FilePath) (name : String) (node : Node) (w : DirectoryWalk)
      → found_in (λ q. same q p) (walk_node path name node w)
        ≡ (is_source_at p path name node || found_in (λ q. same q p) w)
  walk_node_lem p path name regular w = found-add_file p path name w
  walk_node_lem p path name symlink w = refl
  walk_node_lem p path name special w = found-add_file p path name w
  walk_node_lem p path name (untyped e) w = refl
  walk_node_lem p path name (unreadable e) w =
      let t = λ (q : FilePath). same q p in
      found-add_below t path name ([], (display path <> ": " <> e) ∷ []) w
      ∙ ap (λ (b : Bool). b || found_in t w) (and-false (not (is_skipped_dir name)))
  walk_node_lem p path name (directory entries) w =
      let t = λ (q : FilePath). same q p in
      found-add_below t path name (gather (walk_entries path entries)) w
      ∙ ap (λ (b : Bool). (not (is_skipped_dir name) && b) || found_in t w)
          (any-gather t (walk_entries path entries) ∙ walk_entries_lem p path entries)

-- The file named, or a Rust file below the directory named.
abbrev pub is_asked_for : FilePath → FilePath → Node → Bool
is_asked_for p path regular = same path p || false
is_asked_for p path symlink = false
is_asked_for p path special = false
is_asked_for p path (untyped e) = false
is_asked_for p path (unreadable e) = false
is_asked_for p path (directory entries) = is_source p path entries

-- What is collected is what is asked for.
pub any-collect :
    (p path : FilePath) (node : Node)
    → any (λ q. same q p) (collect path node).0 ≡ is_asked_for p path node
unfolding collect sort_by
any-collect p path regular = refl
any-collect p path symlink = refl
any-collect p path special = refl
any-collect p path (untyped e) = refl
any-collect p path (unreadable e) = refl
any-collect p path (directory entries) =
    let t = λ (q : FilePath). same q p in
    any-sort_by t list_ord.cmp (gather (walk_entries path entries)).0
    ∙ any-gather t (walk_entries path entries)
    ∙ walk_entries_lem p path entries
