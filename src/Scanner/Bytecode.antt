-- ===== src/Scanner/Bytecode.antt =====
-- src/scanner/ml_classifier.py: the features of EVM bytecode and the heuristic score. An array of 256
-- counts is a function of the opcode. The texts of the factors that print a number go by `format_3f`,
-- a parameter.
use Prim.Native.Nat.{◌%◌}
use cryptosentinel_ai.Prelude.{
  ℕ, zero, suc, ◌+◌, ◌-◌, ◌*◌, Bool, true, false, not, ◌&&◌, ◌||◌, Option, none, some, List, [],
  ◌∷◌, ◌++◌, length, take, keep, ltb, leb, eqb, if◌then◌else◌,
}
use cryptosentinel_ai.Float.{Float, lt_f, min_f, of_int}
use cryptosentinel_ai.Scanner.Text.{Text, codes, between}

-- `hex.replace("0x", "")`
unfoldable pub remove_0x : Text → Text
remove_0x [] = []
remove_0x (c ∷ []) = c ∷ []
remove_0x (c ∷ d ∷ s) =
    let after = remove_0x s in
    let next = remove_0x (d ∷ s) in if eqb c 48 && eqb d 120 then after else c ∷ next

-- The clean text: `.replace(" ", "")`, and an odd last character is dropped.
unfoldable pub clean_hex : Text → Text
clean_hex bytecode_hex =
    let hex_str = keep (λ c. not (eqb c 32)) (remove_0x bytecode_hex) in
    if eqb (length hex_str % 2) 0 then hex_str else take (length hex_str - 1) hex_str

unfoldable pub hex_digit : ℕ → Option ℕ
hex_digit c =
    if between 48 57 c
    then some (c - 48)
    else if between 97 102 c
    then some (c - 87)
    else if between 65 70 c
    then some (c - 55)
    else none

abbrev and_byte : Option ℕ → Option ℕ → Option (List ℕ) → Option (List ℕ)
and_byte (some h) (some l) (some rest) = some ((16 * h + l) ∷ rest)
and_byte (some h) (some l) none = none
and_byte (some h) none rest = none
and_byte none l rest = none

-- `bytes.fromhex`, which passes over ASCII whitespace before a byte; `none` is its ValueError.
unfoldable pub fromhex : Text → Option (List ℕ)
fromhex [] = some []
fromhex (c ∷ []) = if between 9 13 c || eqb c 32 then some [] else none
fromhex (c ∷ d ∷ s) =
    let next = fromhex (d ∷ s) in
    let rest = fromhex s in
    if between 9 13 c || eqb c 32 then next else and_byte (hex_digit c) (hex_digit d) rest

-- The steps from an instruction to the next: a PUSH takes the bytes that follow.
unfoldable pub step_size : ℕ → ℕ
step_size opcode = if leb 96 opcode && leb opcode 127 then opcode - 96 + 1 + 1 else 1

-- `opcode_counts[opcode] += 1`
unfoldable pub count_one : ℕ → (ℕ → ℕ) → ℕ → ℕ
count_one opcode counts o = if eqb o opcode then counts o + 1 else counts o

-- `bytecode[i]`, and `none` is the end of the loop.
unfoldable pub byte_at : List ℕ → ℕ → Option ℕ
byte_at [] i = none
byte_at (b ∷ bs) zero = some b
byte_at (b ∷ bs) (suc i) = byte_at bs i

-- The while loop, on fuel for its rounds.
unfoldable pub while_byte : Option ℕ → (ℕ → ℕ) → (ℕ → Option (ℕ → ℕ)) → Option (ℕ → ℕ)
while_byte none counts continue = some counts
while_byte (some opcode) counts continue = continue opcode

unfoldable pub count_opcodes : ℕ → List ℕ → ℕ → (ℕ → ℕ) → Option (ℕ → ℕ)
count_opcodes zero bytecode i counts = none
count_opcodes (suc fuel) bytecode i counts =
    while_byte (byte_at bytecode i) counts
      (λ opcode. count_opcodes fuel bytecode (i + step_size opcode) (count_one opcode counts))

module _ (fl : Float) (format_3f : fl.F → Text) where
  open fl use {F, lit, add, div, round}

  pub record BytecodeFeatures : Type 0 where
    pub opcode_frequencies : ℕ → F
    pub call_frequency : F
    pub sstore_frequency : F
    pub sload_frequency : F
    pub selfdestruct_present : Bool
    pub timestamp_present : Bool
    pub delegatecall_present : Bool
    pub bytecode_length : ℕ

  unfoldable pub empty_features : BytecodeFeatures
  empty_features = record {
    opcode_frequencies = λ o. lit 0;
    call_frequency = lit 0;
    sstore_frequency = lit 0;
    sload_frequency = lit 0;
    selfdestruct_present = false;
    timestamp_present = false;
    delegatecall_present = false;
    bytecode_length = 0;
  }

  -- `max(1, len(bytecode))`, and the features of the counts
  unfoldable pub features_of_counts : List ℕ → (ℕ → ℕ) → BytecodeFeatures
  features_of_counts bytecode counts =
      let total = of_int fl (if ltb 1 (length bytecode) then length bytecode else 1) in
      record {
        opcode_frequencies = λ o. div (of_int fl (counts o)) total;
        call_frequency = div (of_int fl (counts 241)) total;
        sstore_frequency = div (of_int fl (counts 85)) total;
        sload_frequency = div (of_int fl (counts 84)) total;
        selfdestruct_present = ltb 0 (counts 255);
        timestamp_present = ltb 0 (counts 66);
        delegatecall_present = ltb 0 (counts 244);
        bytecode_length = length bytecode;
      }

  abbrev of_counts : List ℕ → Option (ℕ → ℕ) → Option BytecodeFeatures
  of_counts bytecode none = none
  of_counts bytecode (some counts) = some (features_of_counts bytecode counts)

  -- A round of the loop for each byte, and one that ends it.
  unfoldable pub of_bytes : Option (List ℕ) → Option BytecodeFeatures
  of_bytes none = some empty_features
  of_bytes (some bytecode) =
      of_counts bytecode (count_opcodes (suc (length bytecode)) bytecode 0 (λ o. 0))

  unfoldable pub extract_bytecode : Text → Option BytecodeFeatures
  extract_bytecode bytecode_hex = of_bytes (fromhex (clean_hex bytecode_hex))

  pub record BytecodeScore : Type 0 where
    pub bytecode_risk_score : F
    pub risk_factors : List Text
    pub bytecode_length : ℕ
    pub selfdestruct : Bool
    pub delegatecall : Bool

  -- A branch of `score`, on the risk and the factors so far.
  unfoldable pub weigh : Bool → ℕ → Text → F × List Text → F × List Text
  weigh true weight factor (risk, factors) = (add risk (lit weight), factors ++ factor ∷ [])
  weigh false weight factor s = s

  unfoldable pub weighed : BytecodeFeatures → F × List Text
  weighed f = weigh (ltb 20_000 f.bytecode_length) 50_000 (codes "large_contract_size") (
      weigh (lt_f fl (lit 50_000) f.sstore_frequency) 100_000
        (codes "high_sstore_frequency_" ++ format_3f f.sstore_frequency)
        (weigh f.timestamp_present 100_000 (codes "timestamp_opcode_present") (
          weigh (lt_f fl (lit 20_000) f.call_frequency) 200_000
            (codes "high_call_frequency_" ++ format_3f f.call_frequency)
            (weigh f.delegatecall_present 250_000 (codes "delegatecall_present") (
              weigh f.selfdestruct_present 300_000 (codes "selfdestruct_opcode_present")
                (lit 0, []))))))

  -- `min(1.0, risk)`
  unfoldable pub bytecode_risk : BytecodeFeatures → F
  bytecode_risk f = min_f fl (lit 1_000_000) (weighed f).0

  unfoldable pub score_bytecode : BytecodeFeatures → BytecodeScore
  score_bytecode f = record {
    bytecode_risk_score = round (bytecode_risk f) 4;
    risk_factors = (weighed f).1;
    bytecode_length = f.bytecode_length;
    selfdestruct = f.selfdestruct_present;
    delegatecall = f.delegatecall_present;
  }
