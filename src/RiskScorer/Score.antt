-- ===== src/RiskScorer/Score.antt =====
-- `CompositeRiskScorer.score` and `_build_explanation` of src/response/risk_scorer.py. A run
-- returns the assessment and the Prometheus updates, in order.
use Prim.Native.String
use cryptosentinel_ai.Prelude.{
  String, Bool, true, false, List, [], ◌∷◌, ◌++◌, if◌then◌else◌, Option, none, some,
}
use cryptosentinel_ai.Dict.{Dict}
use cryptosentinel_ai.Float.{Float, lt_f}
use cryptosentinel_ai.RiskScorer.Defs.{
  ActionTier, log_only, watchlist, quarantine, emergency, tier_value, is_logged_only, ModelScores,
  available_scores, damp, compute_action_tier, compute_confidence, composite_of,
}

-- `_severity_from_action`, a look-up in the dict `mapping`.
unfoldable pub severity_from_action : ActionTier → String
severity_from_action emergency = "CRITICAL"
severity_from_action quarantine = "HIGH"
severity_from_action watchlist = "MEDIUM"
severity_from_action log_only = "LOW"

-- A text with a value in it.
abbrev with_score : String → String → String → String
with_score before value after = String.◌++◌ before (String.◌++◌ value after)

-- `if not d: ... else: ...`
abbrev pub if_empty : {A B : Type 0} → List A → B → B → B
if_empty [] x y = x
if_empty (_ ∷ _) x y = y

module _ (fl : Float) where
  open fl use {F, place, lit, round, format_2f}

  -- `max(available, key=available.get)`: the first key whose score is largest.
  unfoldable pub largest : String × F → Dict F → String × F
  largest best [] = best
  largest best (e ∷ d) = largest (if lt_f fl best.1 e.1 then e else best) d

  pub record Explanation : Type 0 where
    pub composite_score : F
    pub action : String
    pub primary_driver : String
    pub model_contributions : Dict F
    pub adjustments : List String
    pub summary : String

  abbrev pub note_if : Bool → String → List String
  note_if flag note = if flag then note ∷ [] else []

  unfoldable pub summary_of : ActionTier → F → String → String
  summary_of emergency composite driver =
      with_score "CRITICAL: Address shows strong illicit patterns (score=" (format_2f composite)
        (with_score "). Primary signal: " driver ". Immediate escalation recommended.")
  summary_of quarantine composite driver =
      with_score "HIGH RISK: Multiple models flag this address (score=" (format_2f composite)
        "). Manual review required."
  summary_of watchlist composite driver =
      with_score "MEDIUM RISK: Address shows suspicious patterns (score=" (format_2f composite)
        "). Enhanced monitoring activated."
  summary_of log_only composite driver =
      with_score "LOW RISK: No significant threat indicators (score=" (format_2f composite) ")."

  abbrev pub rounded : Dict F → Dict F
  rounded [] = []
  rounded ((k, v) ∷ d) = (k, round v 4) ∷ rounded d

  -- `none` is the `ValueError` of `max` on an empty dict.
  unfoldable pub build_explanation : Dict F → F → ActionTier → ModelScores fl → Option Explanation
  unfolding largest
  build_explanation [] composite action s = none
  build_explanation (e ∷ available) composite action s =
      let driver = (largest e available).0 in
      some (record {
        composite_score = round composite 4;
        action = tier_value action;
        primary_driver = driver;
        model_contributions = rounded (e ∷ available);
        adjustments =
            note_if s.velocity_flag "velocity_boost: high transaction frequency detected"
            ++ note_if s.known_bad_address "known_bad_address: address in watchlist";
        summary = summary_of action composite driver;
      })

  pub record RiskAssessment : Type 0 where
    pub address : String
    pub tx_hash : String
    pub composite_score : F
    pub confidence : F
    pub action : ActionTier
    pub model_scores : ModelScores fl
    pub value_at_risk_eth : F
    pub timestamp : F
    -- `none` is the empty dict of the early return.
    pub explanation : Option Explanation

  -- `RISK_SCORE_HISTOGRAM.observe(score)` and `THREATS_DETECTED.labels(severity, tier).inc()`.
  pub data Event : Type 0 where
    observed : F → Event
    threat_detected : String → String → Event

  -- `is_threat`
  unfoldable pub is_threat : RiskAssessment → Bool
  is_threat a = if is_logged_only a.action then false else true

  pub record Request : Type 0 where
    pub address : String
    pub tx_hash : String
    pub model_scores : ModelScores fl
    pub value_eth : F
    pub cross_chain_boost : F
    pub live_mode : Bool

  -- The assessment with no scores.
  abbrev pub minimum : Request → F → RiskAssessment
  minimum q now = record {
    address = q.address;
    tx_hash = q.tx_hash;
    composite_score = lit 0;
    confidence = lit 0;
    action = log_only;
    model_scores = q.model_scores;
    value_at_risk_eth = q.value_eth;
    timestamp = now;
    explanation = none;
  }

  unfoldable pub events_of : F → ActionTier → List Event
  events_of composite action =
      observed composite
      ∷ (if is_logged_only action
          then []
          else threat_detected (severity_from_action action) (tier_value action) ∷ [])

  -- The end of `score`, where the composite is known.
  unfoldable pub assess :
      Request
      → F
      → Dict F
      → F
      → ActionTier
      → Option Explanation
      → Option (RiskAssessment × List Event)
  assess q now available composite action none = none
  assess q now available composite action (some e) = some (
    record {
      address = q.address;
      tx_hash = q.tx_hash;
      composite_score = composite;
      confidence = compute_confidence fl q.model_scores;
      action = action;
      model_scores = q.model_scores;
      value_at_risk_eth = q.value_eth;
      timestamp = now;
      explanation = some e;
    },
    events_of composite action,
  )

  -- `score`; `now` is `time.time()` where the assessment is made, and `none` an exception.
  unfoldable pub score : Dict F → Request → F → Option (RiskAssessment × List Event)
  unfolding assess events_of
  score weights q now =
      let available = damp fl q.live_mode (available_scores fl q.model_scores) in
      let composite = composite_of fl weights q.model_scores q.cross_chain_boost q.live_mode in
      let action = compute_action_tier fl composite in
      if_empty (available_scores fl q.model_scores) (some (minimum q now, [])) (
        assess q now available composite action
          (build_explanation available composite action q.model_scores))
