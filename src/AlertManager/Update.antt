-- ===== src/AlertManager/Update.antt =====
-- What `add_or_update` (src/response/alert_manager.py) writes, evicts and keeps.
use text.Mathlib.Text.{◌==◌}
use cryptosentinel_ai.Prelude.{
  ℕ, suc, ◌+◌, ◌≤◌, ◌<◌, ◌≡◌, sym, ap, subst, ◌∙◌, ◌⊎◌, inl, inr, String, false, none, some, length,
  ltb, ltb→lt, if◌then◌else◌, In, arith, Bool-cases, Option-cases,
}
use cryptosentinel_ai.Dict.{lookup, insert, lookup-insert}
use cryptosentinel_ai.Float.{Float}
use cryptosentinel_ai.RiskScorer.Score.{RiskAssessment}
use cryptosentinel_ai.AlertManager.Entries.{
  In-entry_key, Distinct-insert, length-insert_old, length-insert_new, length-remove,
}
use cryptosentinel_ai.AlertManager.Defs.{
  Runtime, Alert, AlertManager, evict_lowest_priority, add_or_update, stored, new_alert, updated,
}
use cryptosentinel_ai.AlertManager.Evict.{
  IsEmergency, IsWellFormed, evicts_lowest, evict-IsWellFormed, evict-emergency,
}

module _ (fl : Float) (rt : Runtime fl) where
  not_over : (a b : ℕ) → ltb a b ≡ false → b ≤ a
  not_over a b e = ground arith

  module _ (now : fl.F) (q : RiskAssessment fl) (m : AlertManager fl rt) where
    abbrev run : Alert fl rt × AlertManager fl rt
    run = add_or_update fl rt now q m

    abbrev after : AlertManager fl rt
    after = run.1

    abbrev added : AlertManager fl rt
    added = stored fl rt now q m

    abbrev changed : Alert fl rt → AlertManager fl rt
    changed a = record m {
      alerts = insert q.address (updated fl rt now q a) m.alerts;
      total_deduplicated = m.total_deduplicated + 1;
    }

    -- The branches of `add_or_update`.
    pub add_or_update_cases :
        ((a : Alert fl rt) × (lookup q.address m.alerts ≡ some a)
          × (run ≡ (updated fl rt now q a, changed a)))
        ⊎ ((lookup q.address m.alerts ≡ none)
            × (length added.alerts ≤ m.max_alerts)
            × (run ≡ (new_alert fl rt now q, added)))
        ⊎ ((lookup q.address m.alerts ≡ none)
            × (m.max_alerts < length added.alerts)
            × (run ≡ (new_alert fl rt now q, evict_lowest_priority fl rt now added)))
    unfolding add_or_update
    add_or_update_cases = elim (Option-cases (lookup q.address m.alerts)) [
      | inr (a, e) ↦ inl (a, e, ground (arith, e))
      | inl e ↦ elim (Bool-cases (ltb m.max_alerts (length added.alerts))) [
        | inr room ↦ inr (inl (e, not_over _ _ room, ground (arith, e, room)))
        | inl over ↦ inr (inr (e, ltb→lt _ _ over, ground (arith, e, over)))
      ]
    ]

    added-IsWellFormed : IsWellFormed fl rt m → IsWellFormed fl rt added
    added-IsWellFormed h = record {
      distinct = Distinct-insert q.address (new_alert fl rt now q) m.alerts h.distinct;
      queued = omega (arith, rt.length-heappush m.queue m.total_created, h.queued);
    }

    -- `add_or_update` keeps the state well formed.
    pub add_or_update-IsWellFormed :
        IsWellFormed fl rt m → IsWellFormed fl rt (add_or_update fl rt now q m).1
    add_or_update-IsWellFormed h = elim add_or_update_cases [
      | inl (a, _, e) ↦ subst (IsWellFormed fl rt) (sym (ap (λ r. r.1) e)) (record {
        distinct = Distinct-insert q.address (updated fl rt now q a) m.alerts h.distinct;
        queued = h.queued;
      })
      | inr (inl (_, _, e)) ↦
          subst (IsWellFormed fl rt) (sym (ap (λ r. r.1) e)) (added-IsWellFormed h)
      | inr (inr (_, _, e)) ↦
          subst (IsWellFormed fl rt) (sym (ap (λ r. r.1) e))
            (evict-IsWellFormed fl rt now added (added-IsWellFormed h))
    ]

    -- When there are at most `max_alerts` alerts before, `add_or_update` leaves at most so many,
    -- or one more, each of them an EMERGENCY.
    pub add_or_update_bound :
        length m.alerts ≤ m.max_alerts
        → let m' = (add_or_update fl rt now q m).1 in
          (length m'.alerts ≤ m.max_alerts)
          ⊎ ((length m'.alerts ≡ m.max_alerts + 1)
              × ((x : String × Alert fl rt) → In x m'.alerts → IsEmergency fl rt x.1))
    add_or_update_bound room = elim add_or_update_cases [
      | inl (a, known, e) ↦ inl (
          omega (
            arith,
            room,
            length-insert_old q.address (updated fl rt now q a) a m.alerts known,
            ap (λ r. length r.1.alerts) e,
          ))
      | inr (inl (_, fits, e)) ↦ inl (omega (arith, fits, ap (λ r. length r.1.alerts) e))
      | inr (inr (new, _, e)) ↦
          let size = length-insert_new q.address (new_alert fl rt now q) m.alerts new in
          elim (evicts_lowest fl rt now added) [
            | inl (all, same) ↦ spared_all size (ap (λ r. r.1) e ∙ same) all
            | inr (x, evicted, same) ↦ inl (
                omega (
                  arith,
                  room,
                  size,
                  length-remove x.0 added.alerts
                      (In-entry_key x.0 x.1 added.alerts evicted.present),
                  ap length (ap (λ r. r.1.alerts) e ∙ ap (λ s. s.alerts) same),
                ))
          ]
    ]
      where
        spared_all :
            length added.alerts ≡ suc (length m.alerts)
            → after ≡ added
            → ((x : String × Alert fl rt) → In x added.alerts → IsEmergency fl rt x.1)
            → (length after.alerts ≤ m.max_alerts)
              ⊎ ((length after.alerts ≡ m.max_alerts + 1)
                  × ((x : String × Alert fl rt) → In x after.alerts → IsEmergency fl rt x.1))
        spared_all size e all = elim (Bool-cases (ltb m.max_alerts (length added.alerts))) [
          | inl over ↦ inr (
            omega (arith, room, size, ltb→lt _ _ over, ap (λ s. length s.alerts) e),
            λ x k. all x (subst (λ s. In x s.alerts) e k),
          )
          | inr fits ↦ inl (omega (arith, not_over _ _ fits, ap (λ s. length s.alerts) e))
        ]

    -- `add_or_update` writes the alert that it returns under its address, and every EMERGENCY among
    -- that one and the others is still found after the call.
    pub emergency_stays :
        (c : String) (a : Alert fl rt)
        → IsWellFormed fl rt m
        → (if q.address == c then some (add_or_update fl rt now q m).0 else lookup c m.alerts)
          ≡ some a
        → IsEmergency fl rt a
        → lookup c (add_or_update fl rt now q m).1.alerts ≡ some a
    emergency_stays c a h found emerg = elim add_or_update_cases [
      | inl (b, _, e) ↦
          ap (λ r. lookup c r.1.alerts) e
          ∙ lookup-insert q.address c (updated fl rt now q b) m.alerts
          ∙ ap (λ r. if q.address == c then some r.0 else lookup c m.alerts) (sym e)
          ∙ found
      | inr (inl (_, _, e)) ↦ ap (λ r. lookup c r.1.alerts) e ∙ in_added e
      | inr (inr (_, _, e)) ↦
          ap (λ r. lookup c r.1.alerts) e
          ∙ evict-emergency fl rt now added c a (added-IsWellFormed h).distinct emerg (in_added e)
    ]
      where
        in_added :
            {m' : AlertManager fl rt}
            → run ≡ (new_alert fl rt now q, m')
            → lookup c added.alerts ≡ some a
        in_added e =
            lookup-insert q.address c (new_alert fl rt now q) m.alerts
            ∙ ap (λ r. if q.address == c then some r.0 else lookup c m.alerts) (sym e)
            ∙ found
