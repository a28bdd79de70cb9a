-- ===== src/RiskScorer/Driver.antt =====
-- The primary driver in the explanations of src/response/risk_scorer.py: `max` by the score.
use mathlib.Core.Option
use cryptosentinel_ai.Prelude.{
  ◌≤◌, ◌≡◌, refl, ap, subst, String, arith, Bool, true, false, inl, inr, [], ◌∷◌, if◌then◌else◌, In,
  some,
}
use cryptosentinel_ai.Dict.{Dict}
use cryptosentinel_ai.Float.{Float, lt_f}
use cryptosentinel_ai.RiskScorer.Defs.{ActionTier, ModelScores}
use cryptosentinel_ai.RiskScorer.Score.{Explanation, build_explanation, largest}

module _ (fl : Float) where
  open fl use {F, place}

  largest-In : (best : String × F) (d : Dict F) → In (largest fl best d) (best ∷ d)
  unfolding largest
  largest-In best [] = inl refl
  largest-In best (e ∷ d) =
      later (lt_f fl best.1 e.1) (largest-In (if lt_f fl best.1 e.1 then e else best) d)
    where
      later : (b : Bool) {x : String × F} → In x ((if b then e else best) ∷ d) → In x (best ∷ e ∷ d)
      later true h = inr h
      later false (inl h) = inl h
      later false (inr h) = inr (inr h)

  le-largest : (best : String × F) (d : Dict F) → place best.1 ≤ place (largest fl best d).1
  unfolding largest
  le-largest best [] = omega arith
  le-largest best (e ∷ d) = ground (arith, le-largest (if lt_f fl best.1 e.1 then e else best) d)

  entry-le-largest :
      (best : String × F) (d : Dict F) (x : String × F)
      → In x d
      → place x.1 ≤ place (largest fl best d).1
  unfolding largest
  entry-le-largest best [] x h = absurd h
  entry-le-largest best (e ∷ d) x (inl h) =
      ground (arith, le-largest (if lt_f fl best.1 e.1 then e else best) d, ap (λ t. place t.1) h)
  entry-le-largest best (e ∷ d) x (inr h) =
      entry-le-largest (if lt_f fl best.1 e.1 then e else best) d x h

  largest_lem :
      (best : String × F) (d : Dict F) (x : String × F)
      → In x (best ∷ d)
      → place x.1 ≤ place (largest fl best d).1
  largest_lem best d x (inl h) = omega (arith, le-largest best d, ap (λ t. place t.1) h)
  largest_lem best d x (inr h) = entry-le-largest best d x h

  driver_of :
      (b : String × F) (d : Dict F) (composite : F) (action : ActionTier) (s : ModelScores fl)
      (e : Explanation fl)
      → build_explanation fl (b ∷ d) composite action s ≡ some e
      → (largest fl b d).0 ≡ e.primary_driver
  unfolding build_explanation
  driver_of b d composite action s e h =
      cc (ap (Option.map (λ (t : Explanation fl). t.primary_driver)) h)

  -- The primary driver named in an explanation is one of the available scores, and none is higher.
  pub driver_is_largest :
      (available : Dict F) (composite : F) (action : ActionTier) (s : ModelScores fl)
      (e : Explanation fl)
      → build_explanation fl available composite action s ≡ some e
      → (v : F) × In (e.primary_driver, v) available
        × ((x : String × F) → In x available → place x.1 ≤ place v)
  driver_is_largest [] composite action s e h = absurd (unfold build_explanation in cc h)
  driver_is_largest (b ∷ d) composite action s e h =
      let driver : (largest fl b d).0 ≡ e.primary_driver = driver_of b d composite action s e h in
      (
        (largest fl b d).1,
        subst (λ t. In (t, (largest fl b d).1) (b ∷ d)) driver (largest-In b d),
        largest_lem b d,
      )
