-- ===== src/Scanner/Contract.antt =====
-- class ContractScanner of src/scanner/contract_scanner.py. The duration is an argument; the counter
-- CONTRACTS_SCANNED is the list of the labels it was raised for.
use cryptosentinel_ai.Prelude.{ℕ, String, Bool, Option, none, some, List, [], ◌∷◌, ◌++◌, length}
use cryptosentinel_ai.Float.{Float, max_f, of_int}
use cryptosentinel_ai.Scanner.Text.{Text, split_lines}
use cryptosentinel_ai.Scanner.Report.{
  severity_score, Vulnerability, ScanResult, has_critical, vulnerability_count,
}
use cryptosentinel_ai.Scanner.Rules.{scan}
use cryptosentinel_ai.Scanner.Bytecode.{
  BytecodeFeatures, BytecodeScore, extract_bytecode, score_bytecode,
}

module _ (fl : Float) (format_3f : fl.F → Text) (is_word : ℕ → Bool) where
  open fl use {F, lit, place, add, mul, div, round}

  -- `max` and `sum` of the scores, from the one of the first and from 0
  unfoldable pub max_score : F → List (Vulnerability fl) → F
  max_score best [] = best
  max_score best (v ∷ vs) = max_score (max_f fl best (severity_score fl v)) vs

  unfoldable pub sum_scores : F → List (Vulnerability fl) → F
  sum_scores total [] = total
  sum_scores total (v ∷ vs) = sum_scores (add total (severity_score fl v)) vs

  unfoldable pub overall_risk : List (Vulnerability fl) → F
  overall_risk [] = lit 0
  overall_risk (v ∷ vs) =
      add (mul (max_score (severity_score fl v) vs) (lit 700_000))
        (mul (div (sum_scores (lit 0) (v ∷ vs)) (of_int fl (length (v ∷ vs)))) (lit 300_000))

  unfoldable pub scan_label : List (Vulnerability fl) → String
  scan_label [] = "clean"
  scan_label (_ ∷ _) = "vulnerable"

  -- The result, and the counter with one label more.
  unfoldable pub scan_source : F → Text → List String → ScanResult fl × List String
  scan_source elapsed_ms source_code scanned =
      let vulns = scan fl is_word source_code in
      (
        record {
          source_code = source_code;
          vulnerabilities = vulns;
          overall_risk_score = overall_risk vulns;
          lines_of_code = length (split_lines source_code);
          scan_duration_ms = elapsed_ms;
        },
        scanned ++ scan_label vulns ∷ [],
      )

  abbrev scored : Option (BytecodeFeatures fl format_3f) → Option (BytecodeScore fl format_3f)
  scored none = none
  scored (some f) = some (score_bytecode fl format_3f f)

  unfoldable pub scan_bytecode : Text → Option (BytecodeScore fl format_3f)
  scan_bytecode bytecode_hex = scored (extract_bytecode fl format_3f bytecode_hex)

  -- `ScanResult.to_dict`
  pub record SourceAnalysis : Type 0 where
    pub overall_risk_score : F
    pub has_critical : Bool
    pub vulnerability_count : List (String × ℕ)
    pub vulnerabilities : List (Vulnerability fl)
    pub lines_of_code : ℕ
    pub scan_duration_ms : F

  unfoldable pub to_dict : ScanResult fl → SourceAnalysis
  to_dict r = record {
    overall_risk_score = round r.overall_risk_score 4;
    has_critical = has_critical fl r;
    vulnerability_count = vulnerability_count fl r;
    vulnerabilities = r.vulnerabilities;
    lines_of_code = r.lines_of_code;
    scan_duration_ms = round r.scan_duration_ms 2;
  }

  pub record FullScan : Type 0 where
    pub source_analysis : Option SourceAnalysis
    pub bytecode_analysis : Option (BytecodeScore fl format_3f)
    pub combined_risk_score : F

  -- The largest of the scores that are there, or 0.
  unfoldable pub combined : Option SourceAnalysis → Option (BytecodeScore fl format_3f) → F
  combined none none = lit 0
  combined (some s) none = s.overall_risk_score
  combined none (some b) = b.bytecode_risk_score
  combined (some s) (some b) = max_f fl s.overall_risk_score b.bytecode_risk_score

  -- `if source_code:` and `if bytecode_hex:` pass over `None` and the empty text.
  unfoldable pub analyse_source :
      F → Option Text → List String → Option SourceAnalysis × List String
  analyse_source elapsed_ms none scanned = (none, scanned)
  analyse_source elapsed_ms (some []) scanned = (none, scanned)
  analyse_source elapsed_ms (some (c ∷ s)) scanned = (
    some (to_dict (scan_source elapsed_ms (c ∷ s) scanned).0),
    (scan_source elapsed_ms (c ∷ s) scanned).1,
  )

  unfoldable pub analyse_bytecode : Option Text → Option (BytecodeScore fl format_3f)
  analyse_bytecode none = none
  analyse_bytecode (some []) = none
  analyse_bytecode (some (c ∷ s)) = scan_bytecode (c ∷ s)

  unfoldable pub scan_full : F → Option Text → Option Text → List String → FullScan × List String
  scan_full elapsed_ms source_code bytecode_hex scanned =
      let source = analyse_source elapsed_ms source_code scanned in
      let bytecode = analyse_bytecode bytecode_hex in
      (
        record {
          source_analysis = source.0;
          bytecode_analysis = bytecode;
          combined_risk_score = combined source.0 bytecode;
        },
        source.1,
      )
