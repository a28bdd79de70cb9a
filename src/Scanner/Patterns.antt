-- ===== src/Scanner/Patterns.antt =====
-- The regular expressions of src/scanner/rule_engine.py. `\w` is a parameter.
use cryptosentinel_ai.Prelude.{ℕ, Bool, not, ◌||◌, List, [], ◌∷◌, ◌++◌, eqb}
use cryptosentinel_ai.Scanner.Text.{
  Pattern, one, many, maybe, group, choice, between, word, spaces, some_space, codes,
}

-- `[...]` of two characters
abbrev either_of : ℕ → ℕ → ℕ → Bool
either_of a b c = eqb c a || eqb c b

-- `call_patterns` of `_check_reentrancy`
abbrev pub call_patterns : List Pattern
call_patterns =
    (word ".call.value" ++ spaces ++ word "(")
    ∷ (word ".call{value" ++ spaces ++ word ":")
    ∷ (word ".call" ++ spaces ++ word "(" ++ spaces ++ word "\"\"" ++ spaces ++ word ")")
    ∷ []

abbrev pub state_update : Pattern
state_update =
    choice (codes "balances" ∷ codes "balance" ∷ codes "amount" ∷ codes "state" ∷ []) ∷ spaces
    ++ maybe (either_of 45 43) ∷ word "="

abbrev pub timestamp_pattern : Pattern
timestamp_pattern = word "block.timestamp"

abbrev pub critical_context : Pattern
critical_context =
    choice (
      codes "require"
      ∷ codes "if"
      ∷ codes "random"
      ∷ codes "seed"
      ∷ codes "lottery"
      ∷ codes "winner"
      ∷ [])
    ∷ []

-- `function\s+(\w+)\s*\([^)]*\)\s*(public|external)`
abbrev pub func_pattern : (ℕ → Bool) → Pattern
func_pattern is_word =
    word "function"
    ++ some_space
    ++ group is_word ∷ spaces
    ++ word "("
    ++ many (λ c. not (eqb c 41)) ∷ word ")"
    ++ spaces
    ++ choice (codes "public" ∷ codes "external" ∷ []) ∷ []

abbrev pub sender_required : Pattern
sender_required = word "require" ++ spaces ++ word "(" ++ spaces ++ word "msg.sender"

abbrev pub protected_patterns : List Pattern
protected_patterns =
    word "onlyOwner" ∷ word "onlyAdmin" ∷ word "onlyRole" ∷ sender_required ∷ word "modifier" ∷ []

-- The second entry of the source's list is an alternation, here three entries.
abbrev pub state_change_patterns : List Pattern
state_change_patterns =
    (word "=" ++ spaces ++ one (λ c. not (eqb c 61)) ∷ [])
    ∷ word "+="
    ∷ word "-="
    ∷ word "*="
    ∷ word ".push("
    ∷ (word "delete" ++ some_space)
    ∷ []

abbrev pub pragma_pattern : Pattern
pragma_pattern =
    word "pragma"
    ++ some_space
    ++ word "solidity"
    ++ some_space
    ++ maybe (either_of 94 126) ∷ word "0."
    ++ one (between 48 55) ∷ word "."

abbrev pub arithmetic_patterns : List Pattern
arithmetic_patterns =
    (one (λ c. either_of 43 45 c || either_of 42 47 c) ∷ word "=") ∷ word "++" ∷ word "--" ∷ []

abbrev pub unchecked_pattern : Pattern
unchecked_pattern = word "." ++ choice (codes "transfer" ∷ codes "send" ∷ []) ∷ spaces ++ word "("

abbrev pub selfdestruct_pattern : Pattern
selfdestruct_pattern = word "selfdestruct" ++ spaces ++ word "("

abbrev pub selfdestruct_protected : List Pattern
selfdestruct_protected = word "onlyOwner" ∷ sender_required ∷ []
