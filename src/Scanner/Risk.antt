-- ===== src/Scanner/Risk.antt =====
-- The scores of src/scanner/contract_scanner.py.
use cryptosentinel_ai.Prelude.{
  ℕ, ◌*◌, ◌≤◌, ◌≡◌, refl, sym, ap, ◌∙◌, inl, inr, String, Bool, true, Option, none, some, List, [],
  ◌∷◌, ◌++◌, length, In, if◌then◌else◌, arith,
}
use cryptosentinel_ai.Float.{Float, max_f, of_int}
use cryptosentinel_ai.Float.Laws.{
  Nonneg, lit_le, add-Nonneg, add-le_left, mul-Nonneg, div-Nonneg, mul_mono_left,
}
use cryptosentinel_ai.Scanner.Text.{Text, split_lines, matches_any}
use cryptosentinel_ai.Scanner.Patterns.{call_patterns}
use cryptosentinel_ai.Scanner.Report.{
  Severity, critical, high, medium, low, info, same_severity, severity_scores, severity_score,
  Vulnerability, ScanResult, has_critical, any_critical,
}
use cryptosentinel_ai.Scanner.Rules.{scan}
use cryptosentinel_ai.Scanner.Found.{get_elem?}
use cryptosentinel_ai.Scanner.Complete.{call_reported}
use cryptosentinel_ai.Scanner.Contract.{
  max_score, sum_scores, overall_risk, scan_label, scan_source, to_dict, analyse_source,
  analyse_bytecode, scan_bytecode, combined, scan_full,
}
use cryptosentinel_ai.Scanner.Bytecode.{
  BytecodeFeatures, empty_features, clean_hex, fromhex, extract_bytecode, bytecode_risk,
  score_bytecode,
}
use cryptosentinel_ai.Scanner.Opcodes.{Extracted, extract_instructions}

module _ (fl : Float) (format_3f : fl.F → Text) (is_word : ℕ → Bool) where
  open fl use {F, lit, place, add, mul, div, mul-one, mul_comm, lit_mono, round}

  severity_scores-Nonneg : (s : Severity) → Nonneg fl (severity_scores fl s)
  unfolding severity_scores
  severity_scores-Nonneg critical = lit_le fl 0 1_000_000 (omega arith) (omega arith)
  severity_scores-Nonneg high = lit_le fl 0 750_000 (omega arith) (omega arith)
  severity_scores-Nonneg medium = lit_le fl 0 500_000 (omega arith) (omega arith)
  severity_scores-Nonneg low = lit_le fl 0 250_000 (omega arith) (omega arith)
  severity_scores-Nonneg info = lit_le fl 0 100_000 (omega arith) (omega arith)

  severity_score-Nonneg : (v : Vulnerability fl) → Nonneg fl (severity_score fl v)
  unfolding severity_score
  severity_score-Nonneg v = severity_scores-Nonneg v.severity

  sum_scores-Nonneg :
      (vs : List (Vulnerability fl)) (total : F)
      → Nonneg fl total
      → Nonneg fl (sum_scores fl format_3f is_word total vs)
  unfolding sum_scores
  sum_scores-Nonneg [] total h = h
  sum_scores-Nonneg (v ∷ vs) total h =
      sum_scores-Nonneg vs _ (add-Nonneg fl total (severity_score fl v) h (severity_score-Nonneg v))

  start-le-max_score :
      (vs : List (Vulnerability fl)) (best : F)
      → place best ≤ place (max_score fl format_3f is_word best vs)
  unfolding max_score
  start-le-max_score [] best = omega arith
  start-le-max_score (v ∷ vs) best =
      ground (arith, start-le-max_score vs (max_f fl best (severity_score fl v)))

  score-le-max_score :
      (vs : List (Vulnerability fl)) (best : F) (v : Vulnerability fl)
      → In v vs
      → place (severity_score fl v) ≤ place (max_score fl format_3f is_word best vs)
  unfolding max_score
  score-le-max_score [] best v m = absurd m
  score-le-max_score (w ∷ vs) best v (inl e) = ground (
    arith,
    ap (λ t. place (severity_score fl t)) e,
    start-le-max_score vs (max_f fl best (severity_score fl w)),
  )
  score-le-max_score (w ∷ vs) best v (inr m) = score-le-max_score vs _ v m

  critical-severity_score :
      (v : Vulnerability fl) → v.severity ≡ critical → severity_score fl v ≡ lit 1_000_000
  unfolding severity_score severity_scores
  critical-severity_score v e = ap (severity_scores fl) e

  -- The share of the greatest score, 0.7, is reached by a critical vulnerability.
  overall_risk-critical :
      (vs : List (Vulnerability fl)) (v : Vulnerability fl)
      → length vs ≤ 1_000_000_000
      → In v vs
      → v.severity ≡ critical
      → place (lit 700_000) ≤ place (overall_risk fl format_3f is_word vs)
  unfolding overall_risk
  overall_risk-critical [] v h m e = absurd m
  overall_risk-critical (w ∷ ws) v h m e =
      let best = max_score fl format_3f is_word (severity_score fl w) ws in
      let total = sum_scores fl format_3f is_word (lit 0) (w ∷ ws) in
      let average = div total (of_int fl (length (w ∷ ws))) in
      omega (
        arith,
        ap place (mul_comm (lit 1_000_000) (lit 700_000) ∙ mul-one (lit 700_000)),
        mul_mono_left fl (lit 1_000_000) best (lit 700_000) seven (one-le m),
        add-le_left fl (mul best (lit 700_000)) (mul average (lit 300_000)) (
            mul-Nonneg fl average (lit 300_000)
              (div-Nonneg fl total (of_int fl (length (w ∷ ws)))
                (sum_scores-Nonneg (w ∷ ws) (lit 0) (omega arith))
                (lit_mono 0 (length (w ∷ ws) * 1_000_000) (omega arith) (omega (arith, h))))
              (lit_le fl 0 300_000 (omega arith) (omega arith))),
      )
    where
      seven : place (lit 0) ≤ place (lit 700_000)
      seven = lit_le fl 0 700_000 (omega arith) (omega arith)

      one-le :
          In v (w ∷ ws)
          → place (lit 1_000_000) ≤ place (max_score fl format_3f is_word (severity_score fl w) ws)
      one-le (inl q) = omega (
        arith,
        ap place (critical-severity_score v e),
        ap (λ t. place (severity_score fl t)) q,
        start-le-max_score ws (severity_score fl w),
      )
      one-le (inr n) = omega (
        arith,
        ap place (critical-severity_score v e),
        score-le-max_score ws (severity_score fl w) v n,
      )

  same : same_severity critical critical ≡ true
  unfolding same_severity
  same = refl

  critical-has_critical :
      (r : ScanResult fl) (v : Vulnerability fl)
      → In v r.vulnerabilities
      → v.severity ≡ critical
      → has_critical fl r ≡ true
  unfolding has_critical
  critical-has_critical r v m e = seen r.vulnerabilities m
    where
      seen : (vs : List (Vulnerability fl)) → In v vs → any_critical fl vs ≡ true
      seen [] m = absurd m
      seen (w ∷ ws) (inl q) =
          ap (λ t. if same_severity t critical then true else any_critical fl ws)
            (ap (λ t. t.severity) (sym q) ∙ e)
          ∙ ap (λ b. if b then true else any_critical fl ws) same
      seen (w ∷ ws) (inr n) = ground (arith, seen ws n)

  scan_label-found :
      (vs : List (Vulnerability fl)) (v : Vulnerability fl)
      → In v vs
      → scan_label fl format_3f is_word vs ≡ "vulnerable"
  unfolding scan_label
  scan_label-found [] v m = absurd m
  scan_label-found (w ∷ ws) v m = refl

  -- A source with a line that makes a low-level call by one of the three patterns is counted as vulnerable,
  -- its result has a critical vulnerability, and its risk is at least 0.7, where no more than 10^9
  -- vulnerabilities are reported.
  pub call_condemns :
      (elapsed_ms : F) (source_code : Text) (scanned : List String) (k : ℕ) (line : Text)
      → get_elem? (split_lines source_code) k ≡ some line
      → matches_any call_patterns line ≡ true
      → length (scan fl is_word source_code) ≤ 1_000_000_000
      → (has_critical fl (scan_source fl format_3f is_word elapsed_ms source_code scanned).0 ≡ true)
        × (place (lit 700_000)
            ≤ place
                (scan_source fl format_3f is_word elapsed_ms source_code
                  scanned).0.overall_risk_score)
        × ((scan_source fl format_3f is_word elapsed_ms source_code scanned).1
            ≡ scanned ++ "vulnerable" ∷ [])
  unfolding scan_source
  call_condemns elapsed_ms source_code scanned k line g e h =
      let (v, m, _, _, c) = call_reported fl is_word source_code k line g e in
      (
        critical-has_critical _ v m c,
        overall_risk-critical (scan fl is_word source_code) v h m c,
        ap (λ t. scanned ++ t ∷ []) (scan_label-found (scan fl is_word source_code) v m),
      )

  extract_returns :
      (bytecode_hex : Text)
      → (f : BytecodeFeatures fl format_3f) × (extract_bytecode fl format_3f bytecode_hex ≡ some f)
  extract_returns bytecode_hex =
      of_parsed (fromhex (clean_hex bytecode_hex)) (extract_instructions fl format_3f bytecode_hex)
    where
      of_parsed :
          (p : Option (List ℕ))
          → Extracted fl format_3f bytecode_hex p
          → (f : BytecodeFeatures fl format_3f) × (extract_bytecode fl format_3f bytecode_hex
              ≡ some f)
      of_parsed none e = (empty_features fl format_3f, e)
      of_parsed (some bytecode) (f, e, _) = (f, e)

  -- Given a source and a bytecode, neither of them empty, `scan_full` has an analysis of each, and the
  -- combined score is the greater of the two rounded scores.
  pub scan_full_combined :
      (elapsed_ms : F) (c d : ℕ) (source_code bytecode_hex : Text) (scanned : List String)
      → (f : BytecodeFeatures fl format_3f) × (extract_bytecode fl format_3f (d ∷ bytecode_hex)
          ≡ some f)
        × ((scan_full fl format_3f is_word elapsed_ms
              (some (c ∷ source_code))
              (some (d ∷ bytecode_hex))
              scanned).0
            ≡ record {
              source_analysis = some (
                  to_dict fl format_3f is_word
                    (scan_source fl format_3f is_word elapsed_ms (c ∷ source_code) scanned).0);
              bytecode_analysis = some (score_bytecode fl format_3f f);
              combined_risk_score =
                  max_f fl
                    (round
                      (overall_risk fl format_3f is_word (scan fl is_word (c ∷ source_code)))
                      4)
                    (round (bytecode_risk fl format_3f f) 4);
            })
  unfolding scan_full analyse_source analyse_bytecode scan_bytecode combined to_dict scan_source
      score_bytecode
  scan_full_combined elapsed_ms c d source_code bytecode_hex scanned =
      let (f, e) = extract_returns (d ∷ bytecode_hex) in (f, e, rw e refl)
