-- ===== src/Scanner/Opcodes.antt =====
-- The loop of src/scanner/ml_classifier.py against a disassembly by structure, and the bounds of the score.
use cryptosentinel_ai.Prelude.{
  ℕ, zero, suc, ◌+◌, ◌-◌, ◌≤◌, ◌<◌, ◌≡◌, refl, sym, ap, ◌∙◌, Bool, true, false, ◌&&◌, Option, none,
  some, List, [], ◌∷◌, length, keep, leb, ltb, eqb, if◌then◌else◌, arith,
}
use cryptosentinel_ai.Float.{Float, min_f, of_int}
use cryptosentinel_ai.Float.Laws.{add-le_left, lit_le}
use cryptosentinel_ai.Scanner.Text.{Text}
use cryptosentinel_ai.Scanner.Bytecode.{
  clean_hex, fromhex, BytecodeFeatures, empty_features, features_of_counts, of_bytes,
  extract_bytecode, weigh, weighed, bytecode_risk, step_size, count_one, byte_at, while_byte,
  count_opcodes,
}

-- The length of the operand of an opcode: PUSH1 (0x60) to PUSH32 (0x7f) have 1 to 32 bytes.
abbrev pub operand : ℕ → ℕ
operand b = if leb 0x60 b && leb b 0x7f then b - 0x5f else 0

-- The instructions of a code, `pending` bytes of which are the operand of a PUSH before it.
abbrev pub instructions : ℕ → List ℕ → List ℕ
instructions pending [] = []
instructions zero (b ∷ bs) = b ∷ instructions (operand b) bs
instructions (suc pending) (b ∷ bs) = instructions pending bs

abbrev pub occurrences : ℕ → List ℕ → ℕ
occurrences o code = length (keep (eqb o) code)

-- The bytes from a place on.
abbrev from : ℕ → List ℕ → List ℕ
from zero bs = bs
from (suc i) [] = []
from (suc i) (b ∷ bs) = from i bs

length-from : (i : ℕ) (bs : List ℕ) → length (from i bs) ≡ length bs - i
length-from zero bs = omega arith
length-from (suc i) [] = omega arith
length-from (suc i) (b ∷ bs) = omega (arith, length-from i bs)

suc_plus : (i j : ℕ) → suc i + j ≡ suc (i + j)
suc_plus i j = omega arith

plus_zero : (i : ℕ) → i + 0 ≡ i
plus_zero i = omega arith

from-from : (i j : ℕ) (bs : List ℕ) → from (i + j) bs ≡ from j (from i bs)
from-from zero j bs = ap (λ t. from t bs) (omega arith)
from-from (suc i) zero bs = ap (λ t. from t bs) (plus_zero (suc i))
from-from (suc i) (suc j) [] = ap (λ t. from t []) (suc_plus i (suc j))
from-from (suc i) (suc j) (b ∷ bs) =
    ap (λ t. from t (b ∷ bs)) (suc_plus i (suc j)) ∙ from-from i (suc j) bs

byte_at-from : (i : ℕ) (bs : List ℕ) → byte_at bs i ≡ byte_at (from i bs) 0
unfolding byte_at
byte_at-from zero [] = refl
byte_at-from zero (b ∷ bs) = refl
byte_at-from (suc i) [] = refl
byte_at-from (suc i) (b ∷ bs) = byte_at-from i bs

instructions-pending : (n : ℕ) (bs : List ℕ) → instructions n bs ≡ instructions 0 (from n bs)
instructions-pending zero bs = refl
instructions-pending (suc n) [] = refl
instructions-pending (suc n) (b ∷ bs) = instructions-pending n bs

step_size-operand : (b : ℕ) → step_size b ≡ 1 + operand b
unfolding step_size
step_size-operand b = ground arith

step_pos : (b : ℕ) → 1 ≤ step_size b
step_pos b = omega (arith, step_size-operand b)

-- The counts after a list of instructions.
abbrev counted : List ℕ → (ℕ → ℕ) → ℕ → ℕ
counted [] counts o = counts o
counted (b ∷ code) counts o = counted code (count_one b counts) o

counted-occurrences :
    (code : List ℕ) (counts : ℕ → ℕ) (o : ℕ) → counted code counts o ≡ counts o + occurrences o code
unfolding count_one
counted-occurrences [] counts o = omega arith
counted-occurrences (b ∷ code) counts o =
    ground (arith, counted-occurrences code (count_one b counts) o)

module _ (bytecode : List ℕ) where
  abbrev Counts : ℕ → ℕ → Type 0
  Counts fuel i =
      (counts : ℕ → ℕ)
      → count_opcodes fuel bytecode i counts
        ≡ some (counted (instructions 0 (from i bytecode)) counts)

  round-counted :
      (fuel i : ℕ) (counts : ℕ → ℕ) (rest : List ℕ)
      → from i bytecode ≡ rest
      → ((n : ℕ) → 1 ≤ n → 1 ≤ length rest → Counts fuel (i + n))
      → while_byte
          (byte_at rest 0)
          counts
          (λ b. count_opcodes fuel bytecode (i + step_size b) (count_one b counts))
        ≡ some (counted (instructions 0 rest) counts)
  unfolding while_byte byte_at
  round-counted fuel i counts [] e later = refl
  round-counted fuel i counts (b ∷ bs) e later =
      later (step_size b) (step_pos b) (omega arith) (count_one b counts)
      ∙ ap (λ t. some (counted t (count_one b counts)))
          (ap (instructions 0) (
              from-from i (step_size b) bytecode
              ∙ ap (from (step_size b)) e
              ∙ from_step (step_size b) (step_pos b))
            ∙ ap (λ n. instructions 0 (from n bs)) (omega (arith, step_size-operand b))
            ∙ sym (instructions-pending (operand b) bs))
    where
      from_step : (n : ℕ) → 1 ≤ n → from n (b ∷ bs) ≡ from (n - 1) bs
      from_step zero h = absurd (omega (arith, h))
      from_step (suc n) h = ap (λ t. from t bs) (omega arith)

  loop-counted : (fuel i : ℕ) → length bytecode - i < fuel → Counts fuel i
  unfolding count_opcodes
  loop-counted zero i h counts = absurd (omega (arith, h))
  loop-counted (suc fuel) i h counts = rw (byte_at-from i bytecode) (
      round-counted fuel i counts (from i bytecode) refl
        (λ n p q. loop-counted fuel (i + n) (omega (arith, h, p, q, length-from i bytecode))))

  -- With a round for each byte and one more the loop returns, and its counts are those of the opcodes in
  -- the instructions of the code: no byte of the operand of a PUSH is counted.
  pub count_opcodes-instructions :
      (counts : ℕ → ℕ) × (count_opcodes (suc (length bytecode)) bytecode 0 (λ o. 0) ≡ some counts)
      × ((o : ℕ) → counts o ≡ occurrences o (instructions 0 bytecode))
  count_opcodes-instructions = (
    counted (instructions 0 bytecode) (λ o. 0),
    loop-counted (suc (length bytecode)) 0 (omega arith) (λ o. 0),
    λ o. counted-occurrences (instructions 0 bytecode) (λ o. 0) o ∙ omega arith,
  )

module _ (fl : Float) (format_3f : fl.F → Text) where
  open fl use {F, lit, place, add, div, zero-add}

  of_bytes-features :
      (bytecode : List ℕ) (counts : ℕ → ℕ)
      → count_opcodes (suc (length bytecode)) bytecode 0 (λ o. 0) ≡ some counts
      → of_bytes fl format_3f (some bytecode)
        ≡ some (features_of_counts fl format_3f bytecode counts)
  unfolding of_bytes
  of_bytes-features bytecode counts e = rw e refl

  -- What the features say of a code.
  abbrev pub Describes : List ℕ → BytecodeFeatures fl format_3f → Type 0
  Describes bytecode f =
      (f.selfdestruct_present ≡ ltb 0 (occurrences 255 (instructions 0 bytecode)))
      × (f.timestamp_present ≡ ltb 0 (occurrences 66 (instructions 0 bytecode)))
      × (f.delegatecall_present ≡ ltb 0 (occurrences 244 (instructions 0 bytecode)))
      × (f.call_frequency
          ≡ div (of_int fl (occurrences 241 (instructions 0 bytecode)))
              (of_int fl (if ltb 1 (length bytecode) then length bytecode else 1)))

  abbrev pub Extracted : Text → Option (List ℕ) → Type 0
  Extracted bytecode_hex none =
      extract_bytecode fl format_3f bytecode_hex ≡ some (empty_features fl format_3f)
  Extracted bytecode_hex (some bytecode) =
      (f : BytecodeFeatures fl format_3f) × (extract_bytecode fl format_3f bytecode_hex ≡ some f)
      × Describes bytecode f

  parsed-Extracted :
      (bytecode_hex : Text) (p : Option (List ℕ))
      → fromhex (clean_hex bytecode_hex) ≡ p
      → Extracted bytecode_hex p
  unfolding extract_bytecode of_bytes features_of_counts
  parsed-Extracted bytecode_hex none e = ap (of_bytes fl format_3f) e
  parsed-Extracted bytecode_hex (some bytecode) e =
      let (counts, q, h) = count_opcodes-instructions bytecode in
      (
        features_of_counts fl format_3f bytecode counts,
        ap (of_bytes fl format_3f) e ∙ of_bytes-features bytecode counts q,
        (
          ap (ltb 0) (h 255),
          ap (ltb 0) (h 66),
          ap (ltb 0) (h 244),
          ap
              (λ n.
                div (of_int fl n)
                  (of_int fl (if ltb 1 (length bytecode) then length bytecode else 1)))
              (h 241),
        ),
      )

  -- `extract` returns for every text. Where the clean text is hexadecimal, each flag says whether the
  -- opcode is an instruction of the code (255 is SELFDESTRUCT, 66 TIMESTAMP, 244 DELEGATECALL), and
  -- the frequency of CALL is the number of its instructions over the number of bytes; the features
  -- of any other text are the empty ones.
  pub extract_instructions :
      (bytecode_hex : Text) → Extracted bytecode_hex (fromhex (clean_hex bytecode_hex))
  extract_instructions bytecode_hex =
      parsed-Extracted bytecode_hex (fromhex (clean_hex bytecode_hex)) refl

  weigh-le :
      (b : Bool) (weight : ℕ) (factor : Text) (s : F × List Text)
      → weight ≤ 1_000_000
      → place s.0 ≤ place (weigh fl format_3f b weight factor s).0
  unfolding weigh
  weigh-le true weight factor (risk, factors) h =
      add-le_left fl risk (lit weight) (lit_le fl 0 weight (omega arith) (omega (arith, h)))
  weigh-le false weight factor s h = omega arith

  weigh_first :
      (b : Bool) (factor : Text)
      → place (if b then lit 300_000 else lit 0)
        ≤ place (weigh fl format_3f b 300_000 factor (lit 0, [])).0
  unfolding weigh
  weigh_first true factor = omega (arith, ap place (zero-add (lit 300_000)))
  weigh_first false factor = omega arith

  first-le-weighed :
      (f : BytecodeFeatures fl format_3f)
      → place (if f.selfdestruct_present then lit 300_000 else lit 0)
        ≤ place (weighed fl format_3f f).0
  unfolding weighed
  first-le-weighed f = after _ 50_000 _ _ (omega arith) (
      after _ 100_000 _ _ (omega arith) (
        after _ 100_000 _ _ (omega arith) (
          after _ 200_000 _ _ (omega arith)
            (after _ 250_000 _ _ (omega arith) (weigh_first f.selfdestruct_present _)))))
    where
      after :
          {a : F} (b : Bool) (weight : ℕ) (factor : Text) (s : F × List Text)
          → weight ≤ 1_000_000
          → place a ≤ place s.0
          → place a ≤ place (weigh fl format_3f b weight factor s).0
      after b weight factor s h k = omega (arith, k, weigh-le b weight factor s h)

  -- The score is within [0, 1] before it is rounded, and at least 0.30 where SELFDESTRUCT is present.
  pub bytecode_risk_bounds :
      (f : BytecodeFeatures fl format_3f)
      → (place (if f.selfdestruct_present then lit 300_000 else lit 0)
          ≤ place (bytecode_risk fl format_3f f))
        × (place (lit 0) ≤ place (bytecode_risk fl format_3f f))
        × (place (bytecode_risk fl format_3f f) ≤ place (lit 1_000_000))
  unfolding bytecode_risk
  bytecode_risk_bounds f =
      within (if f.selfdestruct_present then lit 300_000 else lit 0) (weighed fl format_3f f).0
        (first-le-weighed f) (first-in f.selfdestruct_present)
    where
      first-in :
          (b : Bool)
          → (place (lit 0) ≤ place (if b then lit 300_000 else lit 0))
            × (place (if b then lit 300_000 else lit 0) ≤ place (lit 1_000_000))
      first-in true = (
        lit_le fl 0 300_000 (omega arith) (omega arith),
        lit_le fl 300_000 1_000_000 (omega arith) (omega arith),
      )
      first-in false = (omega arith, lit_le fl 0 1_000_000 (omega arith) (omega arith))

      within :
          (a risk : F)
          → place a ≤ place risk
          → (place (lit 0) ≤ place a) × (place a ≤ place (lit 1_000_000))
          → (place a ≤ place (min_f fl (lit 1_000_000) risk))
            × (place (lit 0) ≤ place (min_f fl (lit 1_000_000) risk))
            × (place (min_f fl (lit 1_000_000) risk) ≤ place (lit 1_000_000))
      within a risk h (k, l) = ground (arith, h, k, l)
