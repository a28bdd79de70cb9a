-- ===== src/Scanner/Tests.antt =====
-- Runs of src/scanner, and its theorems there.
use cryptosentinel_ai.Prelude.{
  ℕ, String, ◌+◌, ◌≤◌, ◌≡◌, ◌≢◌, take, refl, ◌↔◌, inl, inr, Bool, true, false, Option, some, [],
  ◌∷◌, ◌++◌, In, length, map, ◌||◌, eqb, arith,
}
use cryptosentinel_ai.Float.Fixed.{fixed}
use cryptosentinel_ai.Scanner.Text.{
  Text, codes, is_space, between, match_at, search, matches, matches_any, split_lines, join_lines,
  strip,
}
use cryptosentinel_ai.Scanner.Patterns.{
  call_patterns, state_change_patterns, protected_patterns, func_pattern, selfdestruct_pattern,
}
use cryptosentinel_ai.Scanner.Report.{Severity, high, low, Vulnerability, has_critical}
use cryptosentinel_ai.Scanner.Rules.{
  numbered, slice, is_special, unprotected, reentrancy_at, check_reentrancy, timestamp_at,
  check_timestamp_dependency, of_function, access_at, check_access_control, first_arithmetic,
  check_integer_overflow, unchecked_at, check_unchecked_return, selfdestruct_at, check_selfdestruct,
  scan,
}
use cryptosentinel_ai.Scanner.Found.{get_elem?, scan_placed}
use cryptosentinel_ai.Scanner.Complete.{access_reported_iff}
use cryptosentinel_ai.Scanner.Bytecode.{clean_hex, fromhex, remove_0x, hex_digit}
use cryptosentinel_ai.Scanner.Opcodes.{Extracted, instructions, extract_instructions}
use cryptosentinel_ai.Scanner.Contract.{scan_source}
use cryptosentinel_ai.Scanner.Risk.{call_condemns}

-- `\w` in ASCII
abbrev is_word : ℕ → Bool
is_word c = between 48 57 c || between 65 90 c || between 97 122 c || eqb c 95

abbrev format_3f : ℕ → Text
format_3f x = []

-- A protected function, whose header is not read, that may be destroyed.
abbrev header : Text
header = codes "function kill() public onlyOwner {"

abbrev body : Text
body = codes " x = 1; selfdestruct(a);"

abbrev contract : Text
contract = header ++ 10 ∷ body

header_found : search (func_pattern is_word) header ≡ some (codes "kill")
unfolding search match_at is_space
header_found = refl

header-unprotected : unprotected (header ∷ body ∷ []) 1 ≡ true
unfolding unprotected slice join_lines matches_any matches search match_at is_space
header-unprotected = refl

abbrev summary : Vulnerability fixed → String × Severity × Option ℕ
summary v = (v.vuln_type, v.severity, v.line)

kinds :
    map summary (scan fixed is_word contract)
    ≡ ("ACCESS_CONTROL", high, some 1) ∷ ("SELFDESTRUCT", low, some 2) ∷ []
unfolding scan check_reentrancy check_timestamp_dependency check_access_control
    check_integer_overflow check_unchecked_return check_selfdestruct reentrancy_at timestamp_at
    access_at of_function first_arithmetic unchecked_at selfdestruct_at is_special unprotected
    numbered slice split_lines join_lines matches_any matches search match_at is_space strip
kinds = refl

body_second : get_elem? (split_lines contract) 1 ≡ some body
unfolding split_lines
body_second = refl

body_destroys : matches selfdestruct_pattern body ≡ true
unfolding matches search match_at is_space
body_destroys = refl

abbrev reported : Vulnerability fixed
reported = record {
  vuln_type = "SELFDESTRUCT";
  severity = low;
  line = some 2;
  description =
      codes "selfdestruct() destroys the contract and sends all ETH to the specified address.";
  recommendation =
      codes
        "Ensure selfdestruct is protected by onlyOwner or equivalent access control. Consider removing selfdestruct entirely.";
  confidence = 950_001;
  code_snippet = some (codes "x = 1; selfdestruct(a);");
}

reported_second : In reported (scan fixed is_word contract)
unfolding scan check_reentrancy check_timestamp_dependency check_access_control
    check_integer_overflow check_unchecked_return check_selfdestruct reentrancy_at timestamp_at
    access_at of_function first_arithmetic unchecked_at selfdestruct_at is_special unprotected
    numbered slice split_lines join_lines matches_any matches search match_at is_space strip
reported_second = inr (inl refl)

scan_placed_example :
    (k : ℕ) × (text : Text) × (get_elem? (split_lines contract) k ≡ some text)
    × (reported.line ≡ some (1 + k))
    × (reported.code_snippet ≡ some (strip text))
scan_placed_example = scan_placed fixed is_word contract reported reported_second

access_reported_iff_example :
    ((v : Vulnerability fixed) × In v (check_access_control fixed is_word (header ∷ body ∷ []))
      × (v.line ≡ some 1))
    ↔ ((name : Text) × (search (func_pattern is_word) header ≡ some name)
        × (name ≢ codes "constructor")
        × (name ≢ codes "fallback")
        × (name ≢ codes "receive")
        × (matches_any state_change_patterns (join_lines (take 20 (body ∷ []))) ≡ true)
        × (matches_any protected_patterns (join_lines (take 20 (body ∷ []))) ≡ false))
access_reported_iff_example = access_reported_iff fixed is_word (header ∷ body ∷ []) 0 header refl

-- PUSH1 0xff, CALL, SELFDESTRUCT
abbrev bytecode : Text
bytecode = codes "0x60fff1ff"

bytecode_read : fromhex (clean_hex bytecode) ≡ some (96 ∷ 255 ∷ 241 ∷ 255 ∷ [])
unfolding fromhex clean_hex remove_0x hex_digit
bytecode_read = refl

operand_passed : instructions 0 (96 ∷ 255 ∷ 241 ∷ 255 ∷ []) ≡ 96 ∷ 241 ∷ 255 ∷ []
operand_passed = refl

extract_instructions_example : Extracted fixed format_3f bytecode (fromhex (clean_hex bytecode))
extract_instructions_example = extract_instructions fixed format_3f bytecode

abbrev call_line : Text
call_line = codes "a.call{value: 1}(d);"

call_first : get_elem? (split_lines call_line) 0 ≡ some call_line
unfolding split_lines
call_first = refl

call_matches : matches_any call_patterns call_line ≡ true
unfolding matches_any matches search match_at is_space
call_matches = refl

call_few : length (scan fixed is_word call_line) ≤ 1_000_000_000
unfolding scan check_reentrancy check_timestamp_dependency check_access_control
    check_integer_overflow check_unchecked_return check_selfdestruct reentrancy_at timestamp_at
    access_at of_function first_arithmetic unchecked_at selfdestruct_at is_special unprotected
    numbered slice split_lines join_lines matches_any matches search match_at is_space strip
call_few = omega arith

call_condemns_example :
    (has_critical fixed (scan_source fixed format_3f is_word 1 call_line []).0 ≡ true)
    × (700_001 ≤ (scan_source fixed format_3f is_word 1 call_line []).0.overall_risk_score)
    × ((scan_source fixed format_3f is_word 1 call_line []).1 ≡ "vulnerable" ∷ [])
call_condemns_example =
    call_condemns fixed format_3f is_word 1 call_line [] 0 call_line call_first call_matches
      call_few
