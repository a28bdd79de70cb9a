-- ===== src/AlertManager/Stats.antt =====
-- The numbers of `get_stats` (src/response/alert_manager.py).
use cryptosentinel_ai.Prelude.{
  ℕ, suc, if◌then◌else◌, Bool, Bool-cases, inl, inr, ◌+◌, ◌≡◌, refl, List, [], ◌∷◌, length, arith,
}
use cryptosentinel_ai.Dict.{values}
use cryptosentinel_ai.Float.{Float}
use cryptosentinel_ai.RiskScorer.Defs.{ActionTier, log_only, watchlist, quarantine, emergency}
use cryptosentinel_ai.AlertManager.Defs.{
  Runtime, Alert, AlertManager, count_tier, get_stats, same_tier, active,
}

abbrev pub sum : List ℕ → ℕ
sum [] = 0
sum (n ∷ ns) = n + sum ns

abbrev bump : Bool → ℕ → ℕ
bump b n = if b then suc n else n

one_tier :
    (t : ActionTier) (w x y z : ℕ)
    → bump (same_tier t log_only) w
        + bump (same_tier t watchlist) x
        + bump (same_tier t quarantine) y
        + bump (same_tier t emergency) z
      ≡ suc (w + x + y + z)
unfolding same_tier
one_tier log_only w x y z = omega arith
one_tier watchlist w x y z = omega arith
one_tier quarantine w x y z = omega arith
one_tier emergency w x y z = omega arith

module _ (fl : Float) (rt : Runtime fl) where
  count_step :
      (a : Alert fl rt) (alerts : List (Alert fl rt)) (t : ActionTier)
      → count_tier fl rt (a ∷ alerts) t
        ≡ bump (same_tier a.assessment.action t) (count_tier fl rt alerts t)
  count_step a alerts t = elim (Bool-cases (same_tier a.assessment.action t)) [
    | inl e ↦ rw e refl
    | inr e ↦ rw e refl
  ]

  tiers_total :
      (alerts : List (Alert fl rt))
      → count_tier fl rt alerts log_only
          + count_tier fl rt alerts watchlist
          + count_tier fl rt alerts quarantine
          + count_tier fl rt alerts emergency
        ≡ length alerts
  tiers_total [] = refl
  tiers_total (a ∷ alerts) =
      let n = count_tier fl rt alerts in
      omega (
        arith,
        tiers_total alerts,
        count_step a alerts log_only,
        count_step a alerts watchlist,
        count_step a alerts quarantine,
        count_step a alerts emergency,
        one_tier a.assessment.action (n log_only) (n watchlist) (n quarantine) (n emergency),
      )

  -- The counts by tier add up to the number of active alerts.
  pub stats_total :
      (m : AlertManager fl rt)
      → sum (values (get_stats fl rt m).by_tier) ≡ (get_stats fl rt m).total_active
  unfolding get_stats
  stats_total m = omega (arith, tiers_total (active fl rt m))
