-- ===== src/Scanner/Rules.antt =====
-- class SolidityRuleEngine of src/scanner/rule_engine.py: the six checks and `scan`. `\w` is a
-- parameter. The log of the number found and of the duration is left out.
use cryptosentinel_ai.Prelude.{
  gather, ℕ, zero, suc, ◌+◌, ◌-◌, Bool, true, false, not, ◌&&◌, ◌||◌, Option, none, some, List, [],
  ◌∷◌, ◌++◌, take, leb, if◌then◌else◌,
}
use cryptosentinel_ai.Float.{Float}
use cryptosentinel_ai.Scanner.Text.{
  Text, Pattern, codes, search, matches, matches_any, holds, split_lines, join_lines, strip,
}
use cryptosentinel_ai.Scanner.Patterns.{
  call_patterns, state_update, timestamp_pattern, critical_context, func_pattern,
  protected_patterns, state_change_patterns, pragma_pattern, arithmetic_patterns, unchecked_pattern,
  selfdestruct_pattern, selfdestruct_protected,
}
use cryptosentinel_ai.Scanner.Report.{critical, high, medium, low, Vulnerability}

-- `enumerate(lines, 1)`
unfoldable pub numbered : ℕ → List Text → List (ℕ × Text)
numbered i [] = []
numbered i (l ∷ ls) = (i, l) ∷ numbered (suc i) ls

-- `lines[lo:hi]`
abbrev pub skip : ℕ → List Text → List Text
skip zero ls = ls
skip (suc n) [] = []
skip (suc n) (l ∷ ls) = skip n ls

unfoldable pub slice : ℕ → ℕ → List Text → List Text
slice lo hi ls = take (hi - lo) (skip lo ls)

abbrev pub same_text : Text → Text → Bool
same_text [] [] = true
same_text [] (_ ∷ _) = false
same_text (_ ∷ _) [] = false
same_text (c ∷ s) (d ∷ t) = let rest = same_text s t in leb c d && leb d c && rest

-- `func_name in ("constructor", "fallback", "receive")`
unfoldable pub is_special : Text → Bool
is_special n =
    same_text n (codes "constructor")
    || same_text n (codes "fallback")
    || same_text n (codes "receive")

-- `"\n".join(lines[i : i + 5])`, the lines after line i
abbrev pub lines_after : ℕ → ℕ → List Text → Text
lines_after i n ls = join_lines (slice i (i + n) ls)

-- `has_state_change and not has_access_control`, of the 20 lines after line i
unfoldable pub unprotected : List Text → ℕ → Bool
unprotected lines i =
    let context = lines_after i 20 lines in
    matches_any state_change_patterns context && not (matches_any protected_patterns context)

module _ (fl : Float) where
  open fl use {F, lit}

  abbrev pub Vulns : Type 0
  Vulns = List (Vulnerability fl)

  unfoldable pub reentrancy_at : List Text → ℕ × Text → Pattern → Vulns
  reentrancy_at lines (i, line) pattern =
      if matches pattern line
      then record {
        vuln_type = "REENTRANCY";
        severity = critical;
        line = some i;
        description =
            codes
              "Low-level call detected before state update. Vulnerable to reentrancy attacks (cf. The DAO hack).";
        recommendation =
            codes
              "Apply Checks-Effects-Interactions pattern: update state BEFORE making external calls. Or use ReentrancyGuard from OpenZeppelin.";
        confidence =
            if matches state_update (lines_after i 5 lines) then lit 900_000 else lit 650_000;
        code_snippet = some (strip line);
      }
        ∷ []
      else []

  unfoldable pub check_reentrancy : List Text → Vulns
  check_reentrancy lines =
      gather (λ at. gather (reentrancy_at lines at) call_patterns) (numbered 1 lines)

  unfoldable pub timestamp_at : ℕ × Text → Vulns
  timestamp_at (i, line) =
      if matches timestamp_pattern line
      then record {
        vuln_type = "TIMESTAMP_DEPENDENCY";
        severity = if matches critical_context line then medium else low;
        line = some i;
        description =
            codes "block.timestamp can be manipulated by miners by approximately 15 seconds.";
        recommendation =
            codes
              "Do not use block.timestamp for randomness or as an exact timing mechanism. Use Chainlink VRF for randomness.";
        confidence = lit 800_000;
        code_snippet = some (strip line);
      }
        ∷ []
      else []

  unfoldable pub check_timestamp_dependency : List Text → Vulns
  check_timestamp_dependency lines = gather timestamp_at (numbered 1 lines)

  abbrev pub access_vulnerability : ℕ → Text → Text → Vulnerability fl
  access_vulnerability i line func_name = record {
    vuln_type = "ACCESS_CONTROL";
    severity = high;
    line = some i;
    description =
        codes "Function '"
        ++ func_name
        ++ codes "' is public/external and modifies state without access control.";
    recommendation =
        codes
          "Add onlyOwner modifier or require(msg.sender == owner) check. Consider using OpenZeppelin's Ownable.";
    confidence = lit 700_000;
    code_snippet = some (strip line);
  }

  unfoldable pub of_function : List Text → ℕ → Text → Option Text → Vulns
  of_function lines i line none = []
  of_function lines i line (some func_name) =
      if is_special func_name
      then []
      else if unprotected lines i
      then access_vulnerability i line func_name ∷ []
      else []

  unfoldable pub access_at : (ℕ → Bool) → List Text → ℕ × Text → Vulns
  access_at is_word lines (i, line) = of_function lines i line (search (func_pattern is_word) line)

  unfoldable pub check_access_control : (ℕ → Bool) → List Text → Vulns
  check_access_control is_word lines = gather (access_at is_word lines) (numbered 1 lines)

  abbrev overflow_vulnerability : ℕ → Text → Vulnerability fl
  overflow_vulnerability i line = record {
    vuln_type = "INTEGER_OVERFLOW";
    severity = high;
    line = some i;
    description =
        codes
          "Arithmetic operation in pre-0.8 Solidity without SafeMath. Vulnerable to integer overflow.";
    recommendation =
        codes
          "Upgrade to Solidity 0.8+ (overflow checks built-in) or use OpenZeppelin SafeMath library.";
    confidence = lit 850_000;
    code_snippet = some (strip line);
  }

  -- The loop stops at the first line it reports.
  unfoldable pub first_arithmetic : List (ℕ × Text) → Vulns
  first_arithmetic [] = []
  first_arithmetic ((i, line) ∷ rest) =
      let later = first_arithmetic rest in
      if matches_any arithmetic_patterns line then overflow_vulnerability i line ∷ [] else later

  unfoldable pub check_integer_overflow : Text → List Text → Vulns
  check_integer_overflow source lines =
      if matches pragma_pattern source && not (holds "SafeMath" source)
      then first_arithmetic (numbered 1 lines)
      else []

  unfoldable pub unchecked_at : ℕ × Text → Vulns
  unchecked_at (i, line) =
      if matches unchecked_pattern line && not (holds "require" line || holds "assert" line)
      then record {
        vuln_type = "UNCHECKED_RETURN";
        severity = medium;
        line = some i;
        description =
            codes
              ".transfer() reverts on failure but .send() returns false. Unchecked return can hide failures.";
        recommendation =
            codes
              "Use .transfer() which reverts automatically, or check .send() return value with require().";
        confidence = lit 750_000;
        code_snippet = some (strip line);
      }
        ∷ []
      else []

  unfoldable pub check_unchecked_return : List Text → Vulns
  check_unchecked_return lines = gather unchecked_at (numbered 1 lines)

  unfoldable pub selfdestruct_at : List Text → ℕ × Text → Vulns
  selfdestruct_at lines (i, line) =
      if matches selfdestruct_pattern line
      then record {
        vuln_type = "SELFDESTRUCT";
        severity =
            if matches_any selfdestruct_protected (join_lines (slice (i - 10) i lines))
            then low
            else critical;
        line = some i;
        description =
            codes
              "selfdestruct() destroys the contract and sends all ETH to the specified address.";
        recommendation =
            codes
              "Ensure selfdestruct is protected by onlyOwner or equivalent access control. Consider removing selfdestruct entirely.";
        confidence = lit 950_000;
        code_snippet = some (strip line);
      }
        ∷ []
      else []

  unfoldable pub check_selfdestruct : List Text → Vulns
  check_selfdestruct lines = gather (selfdestruct_at lines) (numbered 1 lines)

  unfoldable pub scan : (ℕ → Bool) → Text → Vulns
  scan is_word source_code =
      let lines = split_lines source_code in
      check_reentrancy lines
      ++ check_timestamp_dependency lines
      ++ check_access_control is_word lines
      ++ check_integer_overflow source_code lines
      ++ check_unchecked_return lines
      ++ check_selfdestruct lines
