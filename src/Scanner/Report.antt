-- ===== src/Scanner/Report.antt =====
-- `Severity`, `Vulnerability` and `ScanResult` of src/scanner/rule_engine.py.
use cryptosentinel_ai.Prelude.{
  ℕ, Bool, true, false, String, Option, List, [], ◌∷◌, keep, length, map, if◌then◌else◌,
}
use cryptosentinel_ai.Float.{Float}
use cryptosentinel_ai.Scanner.Text.{Text}

pub data Severity : Type 0 where
  critical high medium low info : Severity

-- `a == b` on the members of the enum.
unfoldable pub same_severity : Severity → Severity → Bool
same_severity critical critical = true
same_severity high high = true
same_severity medium medium = true
same_severity low low = true
same_severity info info = true
same_severity _ _ = false

-- `list(Severity)`
abbrev pub severities : List Severity
severities = critical ∷ high ∷ medium ∷ low ∷ info ∷ []

unfoldable pub severity_value : Severity → String
severity_value critical = "CRITICAL"
severity_value high = "HIGH"
severity_value medium = "MEDIUM"
severity_value low = "LOW"
severity_value info = "INFO"

module _ (fl : Float) where
  open fl use {F, lit}

  -- SEVERITY_SCORES, which has every member: the default 0.0 is never taken.
  unfoldable pub severity_scores : Severity → F
  severity_scores critical = lit 1_000_000
  severity_scores high = lit 750_000
  severity_scores medium = lit 500_000
  severity_scores low = lit 250_000
  severity_scores info = lit 100_000

  pub record Vulnerability : Type 0 where
    pub vuln_type : String
    pub severity : Severity
    pub line : Option ℕ
    pub description : Text
    pub recommendation : Text
    pub confidence : F
    pub code_snippet : Option Text

  unfoldable pub severity_score : Vulnerability → F
  severity_score v = severity_scores v.severity

  pub record ScanResult : Type 0 where
    pub source_code : Text
    pub vulnerabilities : List Vulnerability
    pub overall_risk_score : F
    pub lines_of_code : ℕ
    pub scan_duration_ms : F

  abbrev pub any_critical : List Vulnerability → Bool
  any_critical [] = false
  any_critical (v ∷ vs) =
      let rest = any_critical vs in if same_severity v.severity critical then true else rest

  unfoldable pub has_critical : ScanResult → Bool
  has_critical r = any_critical r.vulnerabilities

  -- The counts by the members of the enum, in its order.
  abbrev pub of_severity : List Vulnerability → Severity → ℕ
  of_severity vs s = length (keep (λ v. same_severity v.severity s) vs)

  unfoldable pub vulnerability_count : ScanResult → List (String × ℕ)
  vulnerability_count r = map (λ s. (severity_value s, of_severity r.vulnerabilities s)) severities
