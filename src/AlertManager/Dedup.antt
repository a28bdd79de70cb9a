-- ===== src/AlertManager/Dedup.antt =====
-- How `add_or_update` (src/response/alert_manager.py) deduplicates by address, and what it counts.
use text.Mathlib.Text.{◌==◌}
use cryptosentinel_ai.Prelude.{
  ◌+◌, ◌≤◌, ◌⊎◌, subst, ◌≡◌, refl, sym, ap, ◌∙◌, inl, inr, String, List, [], ◌∷◌, false, none, some,
  length, keep, if◌then◌else◌, arith,
}
use cryptosentinel_ai.Dict.{Dict, lookup, insert, lookup-insert}
use cryptosentinel_ai.Float.{Float}
use cryptosentinel_ai.RiskScorer.Score.{RiskAssessment}
use cryptosentinel_ai.AlertManager.Entries.{length-insert_old, length-insert_new}
use cryptosentinel_ai.AlertManager.Defs.{
  Runtime, Alert, AlertManager, evict_lowest_priority, evict_from, is_candidate, add_or_update,
  stored, new_alert, updated,
}
use cryptosentinel_ai.AlertManager.Update.{add_or_update_cases}

module _ (fl : Float) (rt : Runtime fl) where
  evict_counters :
      (now : fl.F) (m : AlertManager fl rt)
      → let m' = evict_lowest_priority fl rt now m in
        (m'.queue ≡ m.queue)
        × (m'.total_created ≡ m.total_created)
        × (m'.total_deduplicated ≡ m.total_deduplicated)
  unfolding evict_lowest_priority evict_from
  evict_counters now m = by_candidates (keep (is_candidate fl rt) m.alerts)
    where
      by_candidates :
          (es : List (String × Alert fl rt))
          → ((evict_from fl rt now es m).queue ≡ m.queue)
            × ((evict_from fl rt now es m).total_created ≡ m.total_created)
            × ((evict_from fl rt now es m).total_deduplicated ≡ m.total_deduplicated)
      by_candidates [] = (refl, refl, refl)
      by_candidates (e ∷ es) = (refl, refl, refl)

  module _ (now : fl.F) (q : RiskAssessment fl) (m : AlertManager fl rt) where
    abbrev run : Alert fl rt × AlertManager fl rt
    run = add_or_update fl rt now q m

    -- `Stores alert alerts`: under the address is `alert`, and the other addresses are as before.
    abbrev pub Stores : Alert fl rt → Dict (Alert fl rt) → Type 0
    Stores alert alerts =
        (c : String) → lookup c alerts ≡ (if q.address == c then some alert else lookup c m.alerts)

    Stores-insert : (a b : Alert fl rt) → a ≡ b → Stores b (insert q.address a m.alerts)
    Stores-insert a b e c =
        lookup-insert q.address c a m.alerts
        ∙ ap (λ x. if q.address == c then some x else lookup c m.alerts) e

    -- `add_or_update` deduplicates by address. Where an alert is known for the address, it takes the
    -- assessment and the time, counts one update more, and keeps the time of its creation and its
    -- acknowledgement; the alerts of the other addresses, the queue and `_total_created` are as before, and
    -- `_total_deduplicated` is one more. Where none is known, one is created at this time: `_total_created`
    -- and the length of the queue are one more, with an eviction too, `_total_deduplicated` is as before,
    -- and with fewer than `max_alerts` alerts before, it is stored and the other addresses are as before.
    pub add_or_update_dedup :
        let (alert, m') = add_or_update fl rt now q m in
        ((a : Alert fl rt) × (lookup q.address m.alerts ≡ some a)
          × (alert ≡ record {
            assessment = q;
            created_at = a.created_at;
            updated_at = now;
            update_count = a.update_count + 1;
            acknowledged = a.acknowledged;
            acknowledged_by = a.acknowledged_by;
          })
          × Stores alert m'.alerts
          × (length m'.alerts ≡ length m.alerts)
          × (m'.queue ≡ m.queue)
          × (m'.total_created ≡ m.total_created)
          × (m'.total_deduplicated ≡ m.total_deduplicated + 1))
        ⊎ ((lookup q.address m.alerts ≡ none)
            × (alert ≡ record {
              assessment = q;
              created_at = now;
              updated_at = now;
              update_count = 0;
              acknowledged = false;
              acknowledged_by = none;
            })
            × (Stores alert m'.alerts ⊎ (m.max_alerts ≤ length m.alerts))
            × (length m'.queue ≡ length m.queue + 1)
            × (m'.total_created ≡ m.total_created + 1)
            × (m'.total_deduplicated ≡ m.total_deduplicated))
    add_or_update_dedup = elim (add_or_update_cases fl rt now q m) [
      | inl (a, known, e) ↦ inl (
        a,
        known,
        ap (λ r. r.0) e,
        subst (Stores run.0) (sym (ap (λ r. r.1.alerts) e))
            (Stores-insert (updated fl rt now q a) run.0 (sym (ap (λ r. r.0) e))),
        ap (λ r. length r.1.alerts) e
            ∙ length-insert_old q.address (updated fl rt now q a) a m.alerts known,
        ap (λ r. r.1.queue) e,
        ap (λ r. r.1.total_created) e,
        ap (λ r. r.1.total_deduplicated) e,
      )
      | inr (inl (new, _, e)) ↦ inr (
        new,
        ap (λ r. r.0) e,
        inl (
            subst (Stores run.0) (sym (ap (λ r. r.1.alerts) e))
              (Stores-insert (new_alert fl rt now q) run.0 (sym (ap (λ r. r.0) e)))),
        omega (arith, ap (λ r. length r.1.queue) e, rt.length-heappush m.queue m.total_created),
        ap (λ r. r.1.total_created) e,
        ap (λ r. r.1.total_deduplicated) e,
      )
      | inr (inr (new, over, e)) ↦
          let (queue, created, kept) = evict_counters now (stored fl rt now q m) in
          inr (
            new,
            ap (λ r. r.0) e,
            inr (
                omega
                  (arith, over, length-insert_new q.address (new_alert fl rt now q) m.alerts new)),
            omega (
              arith,
              ap (λ r. length r.1.queue) e,
              ap length queue,
              rt.length-heappush m.queue m.total_created,
            ),
            ap (λ r. r.1.total_created) e ∙ created,
            ap (λ r. r.1.total_deduplicated) e ∙ kept,
          )
    ]
