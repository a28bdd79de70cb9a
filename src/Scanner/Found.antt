-- ===== src/Scanner/Found.antt =====
-- What the reports of src/scanner/rule_engine.py point at.
use cryptosentinel_ai.Prelude.{
  gather, In-gather, ℕ, zero, suc, ◌+◌, ◌≡◌, refl, sym, ap, subst, ◌∙◌, ◌⊎◌, inl, inr, Bool, true,
  false, not, ◌&&◌, Option, none, some, List, [], ◌∷◌, ◌++◌, In, In-append_cases, if◌then◌else◌,
  arith,
}
use cryptosentinel_ai.Float.{Float}
use cryptosentinel_ai.Scanner.Text.{Text, search, matches, matches_any, holds, split_lines, strip}
use cryptosentinel_ai.Scanner.Patterns.{
  call_patterns, timestamp_pattern, func_pattern, selfdestruct_pattern, pragma_pattern,
  arithmetic_patterns, unchecked_pattern,
}
use cryptosentinel_ai.Scanner.Report.{Vulnerability}
use cryptosentinel_ai.Scanner.Rules.{
  numbered, reentrancy_at, check_reentrancy, timestamp_at, check_timestamp_dependency, unprotected,
  is_special, of_function, access_at, check_access_control, first_arithmetic,
  check_integer_overflow, unchecked_at, check_unchecked_return, selfdestruct_at, check_selfdestruct,
  scan,
}

module _ {A : Type 0} where
  -- The entry at a place, counted from 0.
  abbrev pub get_elem? : List A → ℕ → Option A
  get_elem? [] n = none
  get_elem? (x ∷ xs) zero = some x
  get_elem? (x ∷ xs) (suc n) = get_elem? xs n

pub In-numbered :
    (p : ℕ × Text) (i : ℕ) (ls : List Text)
    → In p (numbered i ls)
    → (k : ℕ) × (p.0 ≡ i + k) × (get_elem? ls k ≡ some p.1)
unfolding numbered
In-numbered p i [] h = absurd h
In-numbered p i (l ∷ ls) (inl e) = (0, ap (λ t. t.0) e ∙ omega arith, ap (λ t. some t.1) (sym e))
In-numbered p i (l ∷ ls) (inr m) =
    let (k, e, g) = In-numbered p (suc i) ls m in (suc k, omega (arith, e), g)

pub numbered-In :
    (i : ℕ) (ls : List Text) (k : ℕ) (l : Text)
    → get_elem? ls k ≡ some l
    → In (i + k, l) (numbered i ls)
unfolding numbered
numbered-In i [] k l h = absurd (grind (arith, h))
numbered-In i (m ∷ ls) zero l h = inl (grind (arith, h))
numbered-In i (m ∷ ls) (suc k) l h =
    inr (subst (λ t. In (t, l) (numbered (suc i) ls)) (omega arith) (numbered-In (suc i) ls k l h))

pub In-once :
    {B : Type 0} (w v : B) (b : Bool) → In w (if b then v ∷ [] else []) → (b ≡ true) × (w ≡ v)
In-once w v true (inl e) = (refl, e)
In-once w v true (inr m) = absurd m
In-once w v false m = absurd m

pub once-In : {B : Type 0} (v : B) (b : Bool) → b ≡ true → In v (if b then v ∷ [] else [])
once-In v b e = rw e (inl refl)

pub In-if :
    {B : Type 0} (w : B) (xs ys : List B) (b : Bool)
    → In w (if b then xs else ys)
    → ((b ≡ true) × In w xs) ⊎ ((b ≡ false) × In w ys)
In-if w xs ys true m = inl (refl, m)
In-if w xs ys false m = inr (refl, m)

module _ (fl : Float) where
  -- A vulnerability is placed at line i with the text of that line.
  abbrev pub Placed : ℕ × Text → Vulnerability fl → Type 0
  Placed at v = (v.line ≡ some at.0) × (v.code_snippet ≡ some (strip at.1))

  -- The same, for a line of the source.
  abbrev pub PlacedIn : List Text → Vulnerability fl → Type 0
  PlacedIn lines v =
      (k : ℕ) × (text : Text) × (get_elem? lines k ≡ some text)
      × (v.line ≡ some (1 + k))
      × (v.code_snippet ≡ some (strip text))

  module _ (at : ℕ × Text) (v : Vulnerability fl) where
    reentrancy_at-Placed :
        (lines : List Text) → In v (gather (reentrancy_at fl lines at) call_patterns) → Placed at v
    unfolding reentrancy_at
    reentrancy_at-Placed lines h =
        let (p, l, m) = In-gather (reentrancy_at fl lines at) v call_patterns h in
        let (e, q) = In-once v _ (matches p at.1) m in
        (ap (λ t. t.line) q, ap (λ t. t.code_snippet) q)

    timestamp_at-Placed : In v (timestamp_at fl at) → Placed at v
    unfolding timestamp_at
    timestamp_at-Placed m =
        let (e, q) = In-once v _ (matches timestamp_pattern at.1) m in
        (ap (λ t. t.line) q, ap (λ t. t.code_snippet) q)

    selfdestruct_at-Placed : (lines : List Text) → In v (selfdestruct_at fl lines at) → Placed at v
    unfolding selfdestruct_at
    selfdestruct_at-Placed lines m =
        let (e, q) = In-once v _ (matches selfdestruct_pattern at.1) m in
        (ap (λ t. t.line) q, ap (λ t. t.code_snippet) q)

    unchecked_at-Placed : In v (unchecked_at fl at) → Placed at v
    unfolding unchecked_at
    unchecked_at-Placed m =
        let (e, q) = In-once v _ (matches unchecked_pattern at.1 && _) m in
        (ap (λ t. t.line) q, ap (λ t. t.code_snippet) q)

    pub of_function-Placed :
        (lines : List Text) (found : Option Text)
        → In v (of_function fl lines at.0 at.1 found)
        → Placed at v
    unfolding of_function
    of_function-Placed lines none m = absurd m
    of_function-Placed lines (some name) m = elim (In-if v _ _ (is_special name) m) [
      | inl s ↦ absurd s.1
      | inr s ↦
          let (e, q) = In-once v _ (unprotected lines at.0) s.1 in
          (ap (λ t. t.line) q, ap (λ t. t.code_snippet) q)
    ]

  first_arithmetic-Placed :
      (v : Vulnerability fl) (ats : List (ℕ × Text))
      → In v (first_arithmetic fl ats)
      → (at : ℕ × Text) × In at ats × Placed at v
  unfolding first_arithmetic
  first_arithmetic-Placed v [] m = absurd m
  first_arithmetic-Placed v (at ∷ ats) m =
      elim (In-if v _ _ (matches_any arithmetic_patterns at.1) m) [
        | inl (e, inl q) ↦ (at, inl refl, (ap (λ t. t.line) q, ap (λ t. t.code_snippet) q))
        | inl (e, inr n) ↦ absurd n
        | inr (e, n) ↦ let (b, l, r) = first_arithmetic-Placed v ats n in (b, inr l, r)
      ]

  numbered-PlacedIn :
      (lines : List Text) (v : Vulnerability fl)
      → (at : ℕ × Text) × In at (numbered 1 lines) × Placed at v
      → PlacedIn lines v
  numbered-PlacedIn lines v (at, m, p) =
      let (k, e, g) = In-numbered at 1 lines m in (k, at.1, g, p.0 ∙ ap some e, p.1)

  overflow-PlacedIn :
      (source : Text) (lines : List Text) (v : Vulnerability fl)
      → In v (check_integer_overflow fl source lines)
      → PlacedIn lines v
  unfolding check_integer_overflow
  overflow-PlacedIn source lines v m =
      elim (In-if v _ _ (matches pragma_pattern source && not (holds "SafeMath" source)) m) [
        | inl (e, n) ↦ numbered-PlacedIn lines v (first_arithmetic-Placed v (numbered 1 lines) n)
        | inr (e, n) ↦ absurd n
      ]

  gather-PlacedIn :
      (f : ℕ × Text → List (Vulnerability fl))
      → ((at : ℕ × Text) (v : Vulnerability fl) → In v (f at) → Placed at v)
      → (lines : List Text) (v : Vulnerability fl) → In v (gather f (numbered 1 lines))
      → PlacedIn lines v
  gather-PlacedIn f h lines v m =
      let (at, l, r) = In-gather f v (numbered 1 lines) m in
      numbered-PlacedIn lines v (at, l, h at v r)

  abbrev AllPlaced : List Text → List (Vulnerability fl) → Type 0
  AllPlaced lines vs = (v : Vulnerability fl) → In v vs → PlacedIn lines v

  append-AllPlaced :
      (lines : List Text) (xs ys : List (Vulnerability fl))
      → AllPlaced lines xs
      → AllPlaced lines ys
      → AllPlaced lines (xs ++ ys)
  append-AllPlaced lines xs ys h k v m = elim (In-append_cases v xs ys m) [
    | inl l ↦ h v l
    | inr r ↦ k v r
  ]

  reentrancy-AllPlaced : (lines : List Text) → AllPlaced lines (check_reentrancy fl lines)
  unfolding check_reentrancy
  reentrancy-AllPlaced lines = gather-PlacedIn _ (λ at w n. reentrancy_at-Placed at w lines n) lines

  timestamp-AllPlaced : (lines : List Text) → AllPlaced lines (check_timestamp_dependency fl lines)
  unfolding check_timestamp_dependency
  timestamp-AllPlaced lines = gather-PlacedIn _ timestamp_at-Placed lines

  access-AllPlaced :
      (is_word : ℕ → Bool) (lines : List Text)
      → AllPlaced lines (check_access_control fl is_word lines)
  unfolding check_access_control access_at
  access-AllPlaced is_word lines =
      gather-PlacedIn _
        (λ at w n. of_function-Placed at w lines (search (func_pattern is_word) at.1) n) lines

  unchecked-AllPlaced : (lines : List Text) → AllPlaced lines (check_unchecked_return fl lines)
  unfolding check_unchecked_return
  unchecked-AllPlaced lines = gather-PlacedIn _ unchecked_at-Placed lines

  selfdestruct-AllPlaced : (lines : List Text) → AllPlaced lines (check_selfdestruct fl lines)
  unfolding check_selfdestruct
  selfdestruct-AllPlaced lines =
      gather-PlacedIn _ (λ at w n. selfdestruct_at-Placed at w lines n) lines

  -- Each vulnerability that `scan` reports names a line of the source, counted from 1, and its snippet
  -- is the text of that line, stripped.
  pub scan_placed :
      (is_word : ℕ → Bool) (source_code : Text) (v : Vulnerability fl)
      → In v (scan fl is_word source_code)
      → (k : ℕ) × (text : Text) × (get_elem? (split_lines source_code) k ≡ some text)
        × (v.line ≡ some (1 + k))
        × (v.code_snippet ≡ some (strip text))
  unfolding scan
  scan_placed is_word source_code =
      let lines = split_lines source_code in
      append-AllPlaced lines _ _
        (append-AllPlaced lines _ _
          (append-AllPlaced lines _ _
            (append-AllPlaced lines _ _
              (append-AllPlaced lines _ _ (reentrancy-AllPlaced lines) (timestamp-AllPlaced lines))
              (access-AllPlaced is_word lines))
            (overflow-PlacedIn source_code lines))
          (unchecked-AllPlaced lines))
        (selfdestruct-AllPlaced lines)
