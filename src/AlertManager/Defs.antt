-- ===== src/AlertManager/Defs.antt =====
-- `Alert` and `AlertManager` of src/response/alert_manager.py. A call reads the clock once, and is
-- given that time. The heap `_queue` is written and never read: it holds references, which are
-- here the numbers of the alerts in the order of their creation.
use cryptosentinel_ai.Prelude.{
  ℕ, suc, ◌+◌, ◌≡◌, String, Bool, true, false, not, ◌&&◌, Option, none, some, List, [], ◌∷◌, length,
  take, keep, map, ltb, if◌then◌else◌,
}
use cryptosentinel_ai.Dict.{Dict, lookup, insert, remove, values}
use cryptosentinel_ai.Float.{Float, lt_f, le_f}
use cryptosentinel_ai.RiskScorer.Defs.{
  ActionTier, log_only, watchlist, quarantine, emergency, tier_value,
}
use cryptosentinel_ai.RiskScorer.Score.{RiskAssessment}

-- `a == b` on the members of the enum.
unfoldable pub same_tier : ActionTier → ActionTier → Bool
same_tier log_only log_only = true
same_tier watchlist watchlist = true
same_tier quarantine quarantine = true
same_tier emergency emergency = true
same_tier _ _ = false

-- `math.log1p`, `**` on floats, and `heapq.heappush`, which adds one entry.
pub record Runtime (fl : Float) : Type 0 where
  pub log1p : fl.F → fl.F
  pub power : fl.F → fl.F → fl.F
  pub heappush : List ℕ → ℕ → List ℕ
  pub length-heappush : (queue : List ℕ) (n : ℕ) → length (heappush queue n) ≡ suc (length queue)

module _ (fl : Float) (rt : Runtime fl) where
  open fl use {F, lit, add, sub, mul, div}

  pub record Alert : Type 0 where
    pub assessment : RiskAssessment fl
    pub created_at : F
    pub updated_at : F
    pub update_count : ℕ
    pub acknowledged : Bool
    pub acknowledged_by : Option String

  -- DECAY_START_SECONDS, and an hour
  abbrev decay_start : F
  decay_start = lit 3_600_000_000

  unfoldable pub raw_priority : Alert → F
  raw_priority a =
      mul a.assessment.composite_score
        (rt.log1p (add a.assessment.value_at_risk_eth (lit 1_000_000)))

  unfoldable pub current_priority : F → Alert → F
  current_priority now a =
      let age_seconds = sub now a.updated_at in
      if le_f fl age_seconds decay_start
      then raw_priority a
      else mul (raw_priority a) (
          rt.power (sub (lit 1_000_000) (lit 100_000))
            (div (sub age_seconds decay_start) (lit 3_600_000_000)))

  -- `__lt__`: the higher priority comes first.
  abbrev pub comes_before : F → Alert → Alert → Bool
  comes_before now a b = lt_f fl (current_priority now b) (current_priority now a)

  pub record AlertManager : Type 0 where
    pub max_alerts : ℕ
    pub alerts : Dict Alert
    pub queue : List ℕ
    pub total_created : ℕ
    pub total_deduplicated : ℕ

  abbrev pub new_manager : ℕ → AlertManager
  new_manager max_alerts = record {
    max_alerts = max_alerts;
    alerts = [];
    queue = [];
    total_created = 0;
    total_deduplicated = 0;
  }

  abbrev pub is_candidate : String × Alert → Bool
  is_candidate e = not (same_tier e.1.assessment.action emergency)

  -- `min(candidates, key=...)`: the first entry of the lowest priority.
  unfoldable pub lowest : F → String × Alert → List (String × Alert) → String × Alert
  lowest now best [] = best
  lowest now best (e ∷ es) =
      lowest now
        (if lt_f fl (current_priority now e.1) (current_priority now best.1) then e else best) es

  unfoldable pub evict_from : F → List (String × Alert) → AlertManager → AlertManager
  evict_from now [] m = m
  evict_from now (e ∷ es) m = record m { alerts = remove (lowest now e es).0 m.alerts }

  -- `_evict_lowest_priority`
  unfoldable pub evict_lowest_priority : F → AlertManager → AlertManager
  evict_lowest_priority now m = evict_from now (keep is_candidate m.alerts) m

  abbrev pub new_alert : F → RiskAssessment fl → Alert
  new_alert now assessment = record {
    assessment = assessment;
    created_at = now;
    updated_at = now;
    update_count = 0;
    acknowledged = false;
    acknowledged_by = none;
  }

  abbrev pub updated : F → RiskAssessment fl → Alert → Alert
  updated now assessment a = record a {
    assessment = assessment;
    updated_at = now;
    update_count = a.update_count + 1;
  }

  abbrev pub stored : F → RiskAssessment fl → AlertManager → AlertManager
  stored now assessment m = record m {
    alerts = insert assessment.address (new_alert now assessment) m.alerts;
    queue = rt.heappush m.queue m.total_created;
    total_created = m.total_created + 1;
  }

  -- `add_or_update`: the alert that it returns, and the new state.
  unfoldable pub add_or_update : F → RiskAssessment fl → AlertManager → Alert × AlertManager
  add_or_update now assessment m = elim (lookup assessment.address m.alerts) [
    | some existing ↦ (
      updated now assessment existing,
      record m {
        alerts = insert assessment.address (updated now assessment existing) m.alerts;
        total_deduplicated = m.total_deduplicated + 1;
      },
    )
    | none ↦
        let m₁ = stored now assessment m in
        (
          new_alert now assessment,
          if ltb m₁.max_alerts (length m₁.alerts) then evict_lowest_priority now m₁ else m₁,
        )
  ]

  abbrev pub active : AlertManager → List Alert
  active m = keep (λ a. not a.acknowledged) (values m.alerts)

  -- `sorted`, which is stable: an alert stands behind those that come before it.
  unfoldable pub put : F → Alert → List Alert → List Alert
  put now a [] = a ∷ []
  put now a (b ∷ bs) =
      let rest = put now a bs in if comes_before now b a then b ∷ rest else a ∷ b ∷ bs

  unfoldable pub sorted : F → List Alert → List Alert
  sorted now [] = []
  sorted now (a ∷ alerts) = put now a (sorted now alerts)

  unfoldable pub get_top_alerts : F → ℕ → AlertManager → List Alert
  get_top_alerts now n m = take n (sorted now (active m))

  unfoldable pub get_critical_alerts : AlertManager → List Alert
  get_critical_alerts m =
      keep (λ a. same_tier a.assessment.action emergency && not a.acknowledged) (values m.alerts)

  -- `acknowledge`; the log entry is left out.
  unfoldable pub acknowledge : String → String → AlertManager → Bool × AlertManager
  acknowledge address analyst m = elim (lookup address m.alerts) [
    | none ↦ (false, m)
    | some a ↦ (
      true,
      record m {
        alerts =
            insert address (record a { acknowledged = true; acknowledged_by = some analyst })
              m.alerts;
      },
    )
  ]

  pub record AlertStats : Type 0 where
    pub total_active : ℕ
    pub total_created : ℕ
    pub total_deduplicated : ℕ
    pub by_tier : Dict ℕ

  -- `sum(1 for a in active if a.assessment.action == tier)`
  abbrev pub count_tier : List Alert → ActionTier → ℕ
  count_tier alerts tier = length (keep (λ a. same_tier a.assessment.action tier) alerts)

  unfoldable pub get_stats : AlertManager → AlertStats
  get_stats m = record {
    total_active = length (active m);
    total_created = m.total_created;
    total_deduplicated = m.total_deduplicated;
    by_tier =
        map (λ tier. (tier_value tier, count_tier (active m) tier))
          (log_only ∷ watchlist ∷ quarantine ∷ emergency ∷ []);
  }
