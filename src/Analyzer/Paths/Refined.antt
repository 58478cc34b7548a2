-- ===== src/Analyzer/Paths/Refined.antt =====
-- `analyze_paths` of soroban-analyzer/src/lib.rs and one pass over the files without threads.
use soroban_fuzzer.Prelude.{
  ℕ, zero, suc, ◌+◌, ◌≤◌, ◌<◌, ◌≡◌, refl, ap, ◌∙◌, ◌⊎◌, inl, inr, String, List, [], ◌∷◌, some, Bool,
  ◌||◌, any, max, get_elem?, length, arith,
}
use soroban_fuzzer.Prelude.Order.{same, string_ord}
use soroban_fuzzer.Prelude.ListOrder.{list_ord}
use soroban_fuzzer.Prelude.Sort.{sort_by, dedup, from}
use soroban_fuzzer.Prelude.Ascending.{IsStrict, dedup-sort-IsStrict, any-dedup-sort}
use soroban_fuzzer.Analyzer.Source.Lines.{Reader}
use soroban_fuzzer.Analyzer.Walk.Tree.{FilePath, Node, collect}
use soroban_fuzzer.Analyzer.Walk.Found.{is_asked_for, any-collect, any-append}
use soroban_fuzzer.Analyzer.Paths.Pool.{worker_count, start_pool, here, one_by_one}
use soroban_fuzzer.Analyzer.Paths.Complete.{in_order-one_by_one, ended_run, can_finish}
use soroban_fuzzer.Analyzer.Paths.Analysis.{
  Analyzer, Results, collect_all, canonical, add_outcome, merge, analyse_at, analyse_file, analyse,
  Analysis, one_thread, many_threads, AnalyzePaths,
}

-- There is always a thread, and never more than the jobs or the files call for.
worker_count_bounds :
    (jobs files : ℕ)
    → (1 ≤ worker_count jobs files)
      × (worker_count jobs files ≤ max jobs 1)
      × (worker_count jobs files ≤ max files 1)
unfolding worker_count
worker_count_bounds jobs files = (ground arith, ground arith, ground arith)

few_or_many : (n : ℕ) → (n ≤ 1) ⊎ (1 < n)
few_or_many zero = inl (omega arith)
few_or_many (suc zero) = inl (omega arith)
few_or_many (suc (suc n)) = inr (omega arith)

zero_plus : (i : ℕ) → 0 + i ≡ i
zero_plus i = omega arith

any-collect_all :
    (look : FilePath → Node) (paths : List FilePath) (p : FilePath)
    → any (λ q. same q p) (collect_all look paths).0
      ≡ any (λ named. is_asked_for p named (look named)) paths
unfolding collect_all
any-collect_all look [] p = refl
any-collect_all look (named ∷ rest) p =
    any-append (λ q. same q p) (collect named (look named)).0 (collect_all look rest).0
    ∙ ap (λ (b : Bool). b || any (λ q. same q p) (collect_all look rest).0)
        (any-collect p named (look named))
    ∙ ap (λ (b : Bool). is_asked_for p named (look named) || b) (any-collect_all look rest p)

-- The files of a run are in strictly ascending order, so that none is there twice, and a path is
-- among them exactly when it is a file that was named or an entry with the extension `rs` below a
-- directory that was named, not below a skipped directory nor behind a symbolic link.
pub canonical_files :
    (look : FilePath → Node) (paths : List FilePath)
    → IsStrict (canonical (collect_all look paths).0)
      × ((p : FilePath)
          → any (λ q. same q p) (canonical (collect_all look paths).0)
            ≡ any (λ named. is_asked_for p named (look named)) paths)
unfolding canonical sort_by dedup
canonical_files look paths = (
  dedup-sort-IsStrict (collect_all look paths).0,
  λ p. any-dedup-sort (λ q. same q p) (collect_all look paths).0 ∙ any-collect_all look paths p,
)

module _ {Ast : Type 0} (item_ranges : Ast → List (ℕ × ℕ)) (reader : Reader Ast)
    (analyzer : Analyzer Ast) where
  -- One file after the other, with no index and no thread.
  pub file_by_file : Results → List FilePath → Results
  file_by_file r [] = r
  file_by_file r (path ∷ rest) =
      file_by_file (add_outcome r (analyse_file item_ranges reader analyzer path)) rest

  merge_from :
      (all files : List FilePath) (a : ℕ) (r : Results)
      → ((i : ℕ) → get_elem? all (a + i) ≡ get_elem? files i)
      → merge r (one_by_one (analyse item_ranges reader analyzer all) (from a (length files)))
        ≡ file_by_file r files
  unfolding merge one_by_one file_by_file analyse
  merge_from all [] a r h = refl
  merge_from all (path ∷ rest) a r h =
      let first : get_elem? all a ≡ some path = ap (get_elem? all) (omega arith) ∙ h 0 in
      ap
        (λ o.
          merge (add_outcome r (analyse_at item_ranges reader analyzer o))
            (one_by_one (analyse item_ranges reader analyzer all) (from (suc a) (length rest))))
        first
      ∙ merge_from all rest (suc a) (add_outcome r (analyse_file item_ranges reader analyzer path))
          (λ i. ap (get_elem? all) (omega arith) ∙ h (suc i))

  pub Analysis_lem :
      (files : List FilePath) (problems : List String) (jobs : ℕ) (r : Results)
      → Analysis item_ranges reader analyzer files problems jobs r
      → r ≡ file_by_file (record { findings = []; suppressed = []; problems = problems }) files
  Analysis_lem files problems jobs r (one_thread few e) =
      e
      ∙ ap (merge (record { findings = []; suppressed = []; problems = problems }))
          (in_order-one_by_one (length files) (analyse item_ranges reader analyzer files))
      ∙ merge_from files files 0 (record { findings = []; suppressed = []; problems = problems })
          (λ i. ap (get_elem? files) (zero_plus i))
  Analysis_lem files problems jobs r (many_threads {m} {p} many run over e) =
      e
      ∙ ap (merge (record { findings = []; suppressed = []; problems = problems })) (
          ended_run (length files) (analyse item_ranges reader analyzer files)
            (worker_count jobs (length files)) m p (omega arith) run over)
      ∙ merge_from files files 0 (record { findings = []; suppressed = []; problems = problems })
          (λ i. ap (get_elem? files) (zero_plus i))

  -- Whatever the number of jobs, and in whatever order the threads make their moves, a run of
  -- `analyze_paths` that ends returns what one pass over the files in their canonical order
  -- returns: the same findings, suppressed findings and problems in the same order, the problems
  -- of the walks first.
  pub AnalyzePaths_lem :
      (look : FilePath → Node) (paths : List FilePath) (jobs : ℕ) (r : Results)
      → AnalyzePaths item_ranges reader analyzer look paths jobs r
      → r
        ≡ file_by_file
            (record { findings = []; suppressed = []; problems = (collect_all look paths).1 })
            (canonical (collect_all look paths).0)
  AnalyzePaths_lem look paths jobs r run =
      Analysis_lem (canonical (collect_all look paths).0) (collect_all look paths).1 jobs r run

  -- Every run with any number of jobs has a result.
  pub Analysis-exists :
      (files : List FilePath) (problems : List String) (jobs : ℕ)
      → (r : Results) × Analysis item_ranges reader analyzer files problems jobs r
  Analysis-exists files problems jobs = elim (few_or_many (worker_count jobs (length files))) [
    | inl few ↦ (_, one_thread few refl)
    | inr many ↦
        let count = worker_count jobs (length files) in
        let run =
          can_finish (length files) (analyse item_ranges reader analyzer files) count 0
            (start_pool count) (omega arith) here in
        (_, many_threads many run.1 run.2 refl)
  ]
