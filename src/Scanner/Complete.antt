-- ===== src/Scanner/Complete.antt =====
-- Which lines of a source src/scanner/rule_engine.py reports.
use cryptosentinel_ai.Prelude.{
  gather, In-gather, gather-In, ℕ, ◌+◌, ◌-◌, ◌≡◌, refl, sym, ap, ap₂, subst, ◌∙◌, ◌↔◌, inl, inr,
  Bool, true, false, ◌||◌, Option, none, some, List, [], ◌∷◌, ◌++◌, In, In-append_left,
  In-append_right, Bool-cases, if◌then◌else◌, arith, ◌≢◌, take,
}
use cryptosentinel_ai.Float.{Float}
use cryptosentinel_ai.Scanner.Text.{
  Text, codes, search, matches, matches_any, split_lines, join_lines,
}
use cryptosentinel_ai.Scanner.Patterns.{
  call_patterns, state_change_patterns, protected_patterns, func_pattern, selfdestruct_pattern,
  selfdestruct_protected,
}
use cryptosentinel_ai.Scanner.Report.{critical, low, Vulnerability}
use cryptosentinel_ai.Scanner.Rules.{
  numbered, slice, skip, same_text, reentrancy_at, check_reentrancy, unprotected, is_special,
  of_function, access_at, check_access_control, access_vulnerability, selfdestruct_at,
  check_selfdestruct, scan,
}
use cryptosentinel_ai.Scanner.Found.{
  get_elem?, In-numbered, numbered-In, In-once, once-In, In-if, of_function-Placed,
}

module _ (fl : Float) where
  -- Every line that calls `selfdestruct` is reported by `scan`, at its number, as LOW where one of the
  -- ten lines that end with it has `onlyOwner` or requires `msg.sender`, and as CRITICAL otherwise.
  pub selfdestruct_reported :
      (is_word : ℕ → Bool) (source_code : Text) (k : ℕ) (line : Text)
      → get_elem? (split_lines source_code) k ≡ some line
      → matches selfdestruct_pattern line ≡ true
      → (v : Vulnerability fl) × In v (scan fl is_word source_code)
        × (v.vuln_type ≡ "SELFDESTRUCT")
        × (v.line ≡ some (1 + k))
        × (v.severity ≡ (
            if matches_any selfdestruct_protected
              (join_lines (slice (1 + k - 10) (1 + k) (split_lines source_code)))
            then low
            else critical))
  unfolding scan check_selfdestruct selfdestruct_at
  selfdestruct_reported is_word source_code k line g e =
      let lines = split_lines source_code in
      (
        _,
        In-append_right _ _ (check_selfdestruct fl lines) (
            gather-In (selfdestruct_at fl lines) _ (1 + k, line) (numbered 1 lines)
              (numbered-In 1 lines k line g) (once-In _ (matches selfdestruct_pattern line) e)),
        refl,
        refl,
        refl,
      )

  matching_call :
      (line : Text) (ps : List (List _))
      → matches_any ps line ≡ true
      → (p : List _) × In p ps × (matches p line ≡ true)
  unfolding matches_any
  matching_call line [] e = absurd (grind (arith, e))
  matching_call line (p ∷ ps) e = elim (Bool-cases (matches p line)) [
    | inl m ↦ (p, inl refl, m)
    | inr m ↦
        let (q, l, r) =
          matching_call line ps (subst (λ b. (b || matches_any ps line) ≡ true) m e) in
        (q, inr l, r)
  ]

  -- A line that makes a low-level call by one of the three patterns is reported by `scan`, at its number,
  -- as a CRITICAL reentrancy, whatever the lines around it do.
  pub call_reported :
      (is_word : ℕ → Bool) (source_code : Text) (k : ℕ) (line : Text)
      → get_elem? (split_lines source_code) k ≡ some line
      → matches_any call_patterns line ≡ true
      → (v : Vulnerability fl) × In v (scan fl is_word source_code)
        × (v.vuln_type ≡ "REENTRANCY")
        × (v.line ≡ some (1 + k))
        × (v.severity ≡ critical)
  unfolding scan check_reentrancy reentrancy_at
  call_reported is_word source_code k line g e =
      let lines = split_lines source_code in
      let (p, l, r) = matching_call line call_patterns e in
      (
        _,
        first-In _ _ _ _ _ _ _ (
            gather-In (λ at. gather (reentrancy_at fl lines at) call_patterns) _ (1 + k, line)
              (numbered 1 lines) (numbered-In 1 lines k line g)
              (gather-In (reentrancy_at fl lines (1 + k, line)) _ p call_patterns l
                (once-In _ (matches p line) r))),
        refl,
        refl,
        refl,
      )
    where
      first-In :
          (w : Vulnerability fl) (a b c d e f : List (Vulnerability fl))
          → In w a
          → In w (a ++ b ++ c ++ d ++ e ++ f)
      first-In w a b c d e f m = In-append_left w (a ++ b ++ c ++ d ++ e) f (
          In-append_left w (a ++ b ++ c ++ d) e (
            In-append_left w (a ++ b ++ c) d
              (In-append_left w (a ++ b) c (In-append_left w a b m))))

  same_text_iff : (s t : Text) → (same_text s t ≡ true) ↔ (s ≡ t)
  same_text_iff s t = (to s t, λ e. subst (λ x. same_text s x ≡ true) e (self s))
    where
      self : (x : Text) → same_text x x ≡ true
      self [] = refl
      self (c ∷ x) = ground (arith, self x)

      to : (x y : Text) → same_text x y ≡ true → x ≡ y
      to [] [] e = refl
      to [] (d ∷ y) e = absurd (grind (arith, e))
      to (c ∷ x) [] e = absurd (grind (arith, e))
      to (c ∷ x) (d ∷ y) e = ap₂ (λ a b. a ∷ b) (ground (arith, e)) (to x y (ground (arith, e)))

  other_text : (s t : Text) → (same_text s t ≡ false) ↔ (s ≢ t)
  other_text s t = ground (arith, same_text_iff s t)

  -- The three names that are left out.
  is_special_iff :
      (name : Text)
      → (is_special name ≡ false)
        ↔ ((name ≢ codes "constructor") × (name ≢ codes "fallback") × (name ≢ codes "receive"))
  unfolding is_special
  is_special_iff name = ground (
    arith,
    other_text name (codes "constructor"),
    other_text name (codes "fallback"),
    other_text name (codes "receive"),
  )

  -- The 20 lines after line `i` change the state and have no protection.
  unprotected_iff :
      (lines : List Text) (i : ℕ)
      → (unprotected lines i ≡ true) ↔ (
          (matches_any state_change_patterns (join_lines (take 20 (skip i lines))) ≡ true)
          × (matches_any protected_patterns (join_lines (take 20 (skip i lines))) ≡ false))
  unfolding unprotected slice
  unprotected_iff lines i = ground arith

  module _ (is_word : ℕ → Bool) (lines : List Text) (k : ℕ) (line : Text) where
    function_cases :
        (found : Option Text) (v : Vulnerability fl)
        → In v (of_function fl lines (1 + k) line found)
        → (name : Text) × (found ≡ some name)
          × (is_special name ≡ false)
          × (unprotected lines (1 + k) ≡ true)
    unfolding of_function
    function_cases none v m = absurd m
    function_cases (some name) v m = elim (In-if v _ _ (is_special name) m) [
      | inl (e, n) ↦ absurd n
      | inr (e, n) ↦ (name, refl, e, (In-once v _ (unprotected lines (1 + k)) n).0)
    ]

    function_reported :
        (found : Option Text) (name : Text)
        → found ≡ some name
        → is_special name ≡ false
        → unprotected lines (1 + k) ≡ true
        → (v : Vulnerability fl) × In v (of_function fl lines (1 + k) line found)
          × (v.line ≡ some (1 + k))
    unfolding of_function
    function_reported none name e s u = absurd (grind (arith, e))
    function_reported (some n) name e s u = (
      access_vulnerability fl (1 + k) line name,
      rw (named e) (rw s (once-In _ (unprotected lines (1 + k)) u)),
      refl,
    )
      where
        named : {n name : Text} → some n ≡ some name → n ≡ name
        named q = grind (arith, q)

    same_place :
        (at : ℕ × Text)
        → In at (numbered 1 lines)
        → at.0 ≡ 1 + k
        → get_elem? lines k ≡ some line
        → at ≡ (1 + k, line)
    same_place at m e g =
        let (j, q, h) = In-numbered at 1 lines m in
        ap₂ (λ a b. (a, b)) e (text_of (sym h ∙ ap (get_elem? lines) (omega (arith, q, e)) ∙ g))
      where
        text_of : {s t : Text} → some s ≡ some t → s ≡ t
        text_of q = grind (arith, q)

    -- `_check_access_control` reports a line exactly when it matches the pattern of a public or external
    -- function whose name is none of `constructor`, `fallback` and `receive`, and the 20 lines after it, without
    -- the line itself, match a pattern of a change of state and none of protection.
    pub access_reported_iff :
        get_elem? lines k ≡ some line
        → ((v : Vulnerability fl) × In v (check_access_control fl is_word lines)
            × (v.line ≡ some (1 + k)))
          ↔ ((name : Text) × (search (func_pattern is_word) line ≡ some name)
              × (name ≢ codes "constructor")
              × (name ≢ codes "fallback")
              × (name ≢ codes "receive")
              × (matches_any state_change_patterns (join_lines (take 20 (skip (1 + k) lines)))
                  ≡ true)
              × (matches_any protected_patterns (join_lines (take 20 (skip (1 + k) lines)))
                  ≡ false))
    unfolding check_access_control access_at
    access_reported_iff g = (
      (λ (v, m, l).
          let (at, n, r) = In-gather (access_at fl is_word lines) v (numbered 1 lines) m in
          let placed = of_function-Placed fl at v lines (search (func_pattern is_word) at.1) r in
          let here = same_place at n (number_of (sym placed.0 ∙ l)) g in
          let (name, e, s, u) =
            function_cases (search (func_pattern is_word) line) v
              (subst (λ a. In v (access_at fl is_word lines a)) here r) in
          let (no_constructor, no_fallback, no_receive) = (is_special_iff name).0 s in
          let (changed, bare) = (unprotected_iff lines (1 + k)).0 u in
          (name, e, no_constructor, no_fallback, no_receive, changed, bare)),
      (λ (name, e, no_constructor, no_fallback, no_receive, changed, bare).
          let s = (is_special_iff name).1 (no_constructor, no_fallback, no_receive) in
          let u = (unprotected_iff lines (1 + k)).1 (changed, bare) in
          let (v, m, l) = function_reported (search (func_pattern is_word) line) name e s u in
          (
            v,
            gather-In (access_at fl is_word lines) v (1 + k, line) (numbered 1 lines)
                (numbered-In 1 lines k line g) m,
            l,
          )),
    )
      where
        number_of : {a b : ℕ} → some a ≡ some b → a ≡ b
        number_of q = grind (arith, q)
