-- ===== src/RiskScorer/Run.antt =====
-- Whole calls of `score` of src/response/risk_scorer.py: they never raise, and the assessment, its
-- confidence, its explanation and the metrics fit together.
use cryptosentinel_ai.Prelude.{
  ℕ, ◌*◌, ◌≤◌, ◌<◌, ◌≡◌, refl, ap, ◌∙◌, String, arith, Bool, true, false, inl, inr, [], ◌∷◌, List,
  length, length-keep, if◌then◌else◌, Option, none, some, ◌≢◌, not, ◌&&◌, Bool-cases,
}
use cryptosentinel_ai.Dict.{Dict, values, insert}
use cryptosentinel_ai.Float.{Float, le_f, of_int}
use cryptosentinel_ai.Float.Laws.{lit_le, div-Nonneg}
use cryptosentinel_ai.RiskScorer.Defs.{
  ActionTier, log_only, severity, tier_value, is_logged_only, compute_action_tier, confidence_of,
  compute_confidence, available_scores, ModelScores, sum, agrees, damp, ml_present, composite_of,
  halve_centrality,
}
use cryptosentinel_ai.RiskScorer.Score.{
  Request, RiskAssessment, Event, Explanation, observed, threat_detected, score, assess, events_of,
  build_explanation, is_threat, severity_from_action, if_empty,
}
use cryptosentinel_ai.RiskScorer.Composite.{composite_bounds}

module _ (fl : Float) where
  open fl use {F, place, lit, div, lit_mono, div_mono, div_self}

  fraction_bounds :
      (k n : ℕ)
      → k ≤ n
      → 0 < n
      → n ≤ 4
      → let q = div (of_int fl k) (of_int fl n) in
        (place (lit 0) ≤ place q) × (place q ≤ place (lit 1_000_000))
  fraction_bounds k n h pos small =
      let low = lit_le fl 0 (k * 1_000_000) (omega arith) (omega arith) in
      let above = lit_mono 0 (n * 1_000_000) (omega arith) (omega arith) in
      let order = lit_le fl (k * 1_000_000) (n * 1_000_000) (omega arith) (omega arith) in
      (
        div-Nonneg fl (of_int fl k) (of_int fl n) low above,
        omega (
          arith,
          div_mono (of_int fl k) (of_int fl n) (of_int fl n) order above,
          ap place (div_self (of_int fl n) above),
        ),
      )

  confidence_of_bounds :
      (scores : List F)
      → length scores ≤ 4
      → let c = confidence_of fl scores in
        (place (lit 0) ≤ place c) × (place c ≤ place (lit 1_000_000))
  unfolding confidence_of
  confidence_of_bounds [] h = (omega arith, lit_le fl 0 1_000_000 (omega arith) (omega arith))
  confidence_of_bounds (x ∷ xs) h =
      let agreeing =
        agrees fl (le_f fl (lit 500_000) (div (sum fl (x ∷ xs)) (of_int fl (length (x ∷ xs))))) in
      fraction_bounds _ _ (length-keep agreeing (x ∷ xs)) (omega arith) h

  available_length : (s : ModelScores fl) → length (values (available_scores fl s)) ≤ 4
  unfolding available_scores insert
  available_length s = ground arith

  -- The confidence is a fraction: it lies in [0, 1] for any model scores.
  pub confidence_bounds :
      (s : ModelScores fl)
      → let c = compute_confidence fl s in
        (place (lit 0) ≤ place c) × (place c ≤ place (lit 1_000_000))
  unfolding compute_confidence
  confidence_bounds s = confidence_of_bounds (values (available_scores fl s)) (available_length s)

  insert-IsNonempty : (k : String) (v : F) (d : Dict F) → insert k v d ≢ []
  unfolding insert
  insert-IsNonempty k v [] e = cc
  insert-IsNonempty k v (x ∷ d) e = ground arith

  available-IsNonempty : (s : ModelScores fl) → available_scores fl s ≢ []
  unfolding available_scores
  available-IsNonempty s = insert-IsNonempty _ _ _

  halve-IsNonempty : (d : Dict F) (o : Option F) → d ≢ [] → halve_centrality fl d o ≢ []
  halve-IsNonempty d none h = h
  halve-IsNonempty d (some v) h = insert-IsNonempty _ _ _

  damp-IsNonempty : (live_mode : Bool) (d : Dict F) → d ≢ [] → damp fl live_mode d ≢ []
  unfolding damp
  damp-IsNonempty live_mode d h = elim (Bool-cases (live_mode && not (ml_present fl d))) [
    | inl e ↦ rw e (halve-IsNonempty d _ h)
    | inr e ↦ rw e h
  ]

  explained :
      (d : Dict F) (x : F) (t : ActionTier) (s : ModelScores fl)
      → d ≢ []
      → (e : Explanation fl) × (build_explanation fl d x t s ≡ some e)
  unfolding build_explanation
  explained [] x t s h = absurd (h refl)
  explained (e ∷ d) x t s h = (_, refl)

  -- The composite that a request gets.
  abbrev pub composite : Dict F → Request fl → F
  composite weights q = composite_of fl weights q.model_scores q.cross_chain_boost q.live_mode

  -- What a call of `score` promises.
  pub record IsAssessment (weights : Dict F) (q : Request fl) (a : RiskAssessment fl)
      (events : List (Event fl)) : Type 0 where
    pub address : a.address ≡ q.address
    pub tx_hash : a.tx_hash ≡ q.tx_hash
    pub in_range :
        (place (lit 0) ≤ place a.composite_score)
        × (place a.composite_score ≤ place (lit 1_000_000))
    pub composite_score : a.composite_score ≡ composite weights q
    pub confidence : a.confidence ≡ compute_confidence fl q.model_scores
    pub action : a.action ≡ compute_action_tier fl a.composite_score
    pub explained : a.explanation ≢ none
    pub counted :
        events
        ≡ observed a.composite_score
          ∷ (if is_threat fl a
              then threat_detected (severity a.action) (tier_value a.action) ∷ []
              else [])

  severity_agrees : (t : ActionTier) → severity_from_action t ≡ severity t
  unfolding severity_from_action severity
  severity_agrees log_only = refl
  severity_agrees _ = refl

  if_empty-Nonempty : {A B : Type 0} (d : List A) (x y : B) → d ≢ [] → if_empty d x y ≡ y
  if_empty-Nonempty [] x y h = absurd (h refl)
  if_empty-Nonempty (_ ∷ _) x y h = refl

  events_lem :
      (x : F) (t : ActionTier)
      → events_of fl x t
        ≡ observed x
          ∷ (if (if is_logged_only t then false else true)
              then threat_detected (severity t) (tier_value t) ∷ []
              else [])
  unfolding events_of
  events_lem x t = ground (arith, severity_agrees t)

  assessed :
      (weights : Dict F) (q : Request fl) (now : F) (d : Dict F) (o : Option (Explanation fl))
      → o ≢ none
      → let x = composite weights q in
        (a : RiskAssessment fl) × (events : List (Event fl)) × (assess fl q now d x
            (compute_action_tier fl x)
            o
          ≡ some (a, events))
        × IsAssessment weights q a events
  unfolding is_threat
  assessed weights q now d none h = absurd (h refl)
  assessed weights q now d (some e) h =
      let x = composite weights q in
      let t = compute_action_tier fl x in
      let a : RiskAssessment fl = record {
        address = q.address;
        tx_hash = q.tx_hash;
        composite_score = x;
        confidence = compute_confidence fl q.model_scores;
        action = t;
        model_scores = q.model_scores;
        value_at_risk_eth = q.value_eth;
        timestamp = now;
        explanation = some e;
      } in
      (
        a,
        events_of fl x t,
        (unfold assess in refl),
        record {
          address = refl;
          tx_hash = refl;
          in_range = composite_bounds fl weights q.model_scores q.cross_chain_boost q.live_mode;
          composite_score = refl;
          confidence = refl;
          action = refl;
          explained = λ e. cc;
          counted = events_lem x t;
        },
      )

  -- `score` never raises. Its assessment has the request's address and hash, a composite in
  -- [0, 1], the tier of that composite and an explanation; the histogram is observed once, and
  -- the threat counter goes up once, under the severity and tier of the assessment, exactly for
  -- a threat.
  pub score_assesses :
      (weights : Dict F) (q : Request fl) (now : F)
      → (a : RiskAssessment fl) × (events : List (Event fl)) × (score fl weights q now
          ≡ some (a, events))
        × IsAssessment weights q a events
  unfolding score
  score_assesses weights q now =
      let d = damp fl q.live_mode (available_scores fl q.model_scores) in
      let x = composite weights q in
      let some_scores = available-IsNonempty q.model_scores in
      let (e, built) =
        explained d x (compute_action_tier fl x) q.model_scores
          (damp-IsNonempty q.live_mode _ some_scores) in
      let (a, events, p, promised) =
        assessed weights q now d
          (build_explanation fl d x (compute_action_tier fl x) q.model_scores)
          (λ none_built. cc (none_built, built)) in
      (
        a,
        events,
        if_empty-Nonempty (available_scores fl q.model_scores) _ _ some_scores ∙ p,
        promised,
      )
