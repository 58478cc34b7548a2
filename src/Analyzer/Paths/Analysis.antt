-- ===== src/Analyzer/Paths/Analysis.antt =====
-- soroban-analyzer/src/lib.rs: `analyze_paths`, from the paths named to the merged findings.
use soroban_fuzzer.Prelude.{
  ℕ, ◌≤◌, ◌<◌, ◌≡◌, String, List, [], ◌∷◌, ◌++◌, Option, none, some, get_elem?, length,
}
use soroban_fuzzer.Prelude.Text.{◌<>◌}
use soroban_fuzzer.Prelude.ListOrder.{list_ord}
use soroban_fuzzer.Prelude.Order.{string_ord}
use soroban_fuzzer.Prelude.Sort.{sort, sort_by, dedup, upto}
use soroban_fuzzer.Prelude.Fallible.{Fallible, ok, err}
use soroban_fuzzer.Analyzer.Finding.{Finding}
use soroban_fuzzer.Analyzer.Rules.Defs.{RuleSet}
use soroban_fuzzer.Analyzer.Source.Lines.{SourceFile, Reader, read_source}
use soroban_fuzzer.Analyzer.Engine.Defs.{Detector, FileFindings, check_file}
use soroban_fuzzer.Analyzer.Walk.Tree.{FilePath, display, Node, collect}
use soroban_fuzzer.Analyzer.Paths.Pool.{
  Pool, worker_count, start_pool, Reaches, AllStopped, in_order, one_by_one,
}

pub data Outcome : Type 0 where
  analysed : FileFindings → Outcome
  unreadable : String → Outcome

pub record Analyzer (Ast : Type 0) : Type 0 where
  pub detectors : List (Detector Ast)
  pub rules : RuleSet

-- What a run returns.
pub record Results : Type 0 where
  pub findings : List Finding
  pub suppressed : List Finding
  pub problems : List String

-- What the walks of the paths find, one after the other.
unfoldable pub collect_all : (FilePath → Node) → List FilePath → List FilePath × List String
unfolding collect
collect_all look [] = ([], [])
collect_all look (path ∷ rest) =
    let one = collect path (look path) in
    let others = collect_all look rest in (one.0 ++ others.0, one.1 ++ others.1)

-- The one canonical order, each file once.
unfoldable pub canonical : List FilePath → List FilePath
unfolding sort_by dedup
canonical files = dedup (sort files)

unfoldable pub add_outcome : Results → Outcome → Results
add_outcome r (analysed found) = record {
  findings = r.findings ++ found.findings;
  suppressed = r.suppressed ++ found.suppressed;
  problems = r.problems;
}
add_outcome r (unreadable problem) = record {
  findings = r.findings;
  suppressed = r.suppressed;
  problems = r.problems ++ problem ∷ [];
}

unfoldable pub merge : Results → List (ℕ × Outcome) → Results
unfolding add_outcome
merge r [] = r
merge r ((i, outcome) ∷ rest) = merge (add_outcome r outcome) rest

module _ {Ast : Type 0} (item_ranges : Ast → List (ℕ × ℕ)) (reader : Reader Ast)
    (analyzer : Analyzer Ast) where
  abbrev pub checked : FilePath → Fallible (SourceFile Ast) String → Outcome
  checked path (ok file) = analysed (check_file item_ranges analyzer.detectors analyzer.rules file)
  checked path (err error) = unreadable (display path <> ": " <> error)

  unfoldable pub analyse_file : FilePath → Outcome
  unfolding read_source check_file
  analyse_file path = checked path (read_source reader (display path))

  -- Indexing past the end would panic; the outcome there is never merged.
  abbrev pub analyse_at : Option FilePath → Outcome
  analyse_at none = unreadable "index out of bounds"
  analyse_at (some path) = analyse_file path

  unfoldable pub analyse : List FilePath → ℕ → Outcome
  unfolding analyse_file
  analyse files index = analyse_at (get_elem? files index)

  -- A run over some files with a number of jobs: one thread's loop, or any run of a pool.
  pub data Analysis (files : List FilePath) (problems : List String) (jobs : ℕ) (r : Results)
      : Type 0 where
    one_thread :
        worker_count jobs (length files) ≤ 1
        → r
          ≡ merge
              (record { findings = []; suppressed = []; problems = problems })
              (in_order (one_by_one (analyse files) (upto (length files))))
        → Analysis files problems jobs r
    many_threads :
        {m : ℕ} {p : Pool Outcome}
        → 1 < worker_count jobs (length files)
        → Reaches (length files) (analyse files) (start_pool (worker_count jobs (length files))) m p
        → AllStopped p.workers
        → r
          ≡ merge
              (record { findings = []; suppressed = []; problems = problems })
              (in_order p.outcomes)
        → Analysis files problems jobs r

  -- The whole of `analyze_paths`.
  abbrev pub AnalyzePaths : (FilePath → Node) → List FilePath → ℕ → Results → Type 0
  AnalyzePaths look paths jobs r =
      Analysis (canonical (collect_all look paths).0) (collect_all look paths).1 jobs r

  -- One path, on one thread.
  abbrev pub AnalyzePath : (FilePath → Node) → FilePath → Results → Type 0
  AnalyzePath look path r = AnalyzePaths look (path ∷ []) 1 r
