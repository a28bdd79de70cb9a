-- ===== src/ThreatGraph/RoundTrips.antt =====
-- `detect_round_trips` of src/graph/threat_graph.py: money that returns within 24 hours. The edges out of
-- a wallet are those to its successors, and the edges into it those from its predecessors.
use cryptosentinel_ai.Prelude.{
  ◌<◌, ◌↔◌, ◌≡◌, refl, sym, subst, ◌∙◌, ◌≢◌, inl, inr, String, Bool, true, false, ◌&&◌, Option,
  none, some, List, [], ◌∷◌, In, gather, In-gather, gather-In, if◌then◌else◌, arith, Option-cases,
}
use cryptosentinel_ai.Float.{Float, lt_f}
use cryptosentinel_ai.DiGraph.{DiGraph}
use cryptosentinel_ai.ThreatGraph.Defs.{WalletNode, TransactionEdge, ThreatGraph}

module _ (fl : Float) (dg : DiGraph (WalletNode fl) (TransactionEdge fl)) where
  open fl use {F, lit, sub, place}
  open dg use {G, node, edge, predecessors}

  pub record RoundTrip : Type 0 where
    pub intermediate : String
    pub time_out : F
    pub time_in : F
    pub round_trip_seconds : F
    pub value_eth : F

  -- `0 < (time_in - time_out) < self._round_trip_window`, a day
  unfoldable pub in_a_day : F → Bool
  in_a_day seconds = lt_f fl (lit 0) seconds && lt_f fl seconds (lit 86_400_000_000)

  abbrev pub round_trip : String → TransactionEdge fl → TransactionEdge fl → RoundTrip
  round_trip src out back = record {
    intermediate = src;
    time_out = out.timestamp;
    time_in = back.timestamp;
    round_trip_seconds = sub back.timestamp out.timestamp;
    value_eth = back.value_eth;
  }

  unfoldable pub trip_of : String → TransactionEdge fl → TransactionEdge fl → List RoundTrip
  trip_of src out back =
      if in_a_day (sub back.timestamp out.timestamp) then round_trip src out back ∷ [] else []

  -- `src in outgoing_times`, for an edge into the wallet
  unfoldable pub trip_by :
      String → Option (TransactionEdge fl) → Option (TransactionEdge fl) → List RoundTrip
  trip_by src none back = []
  trip_by src (some out) none = []
  trip_by src (some out) (some back) = trip_of src out back

  unfoldable pub detect_round_trips : String → ThreatGraph fl dg → List RoundTrip
  detect_round_trips address s = elim (node s.graph address) [
    | none ↦ []
    | some _ ↦
        gather (λ src. trip_by src (edge s.graph address src) (edge s.graph src address))
          (predecessors s.graph address)
  ]

  module _ (src : String) (out back : TransactionEdge fl) where
    trip_of_sound :
        (t : RoundTrip)
        → In t (trip_of src out back)
        → (t ≡ round_trip src out back) × (in_a_day (sub back.timestamp out.timestamp) ≡ true)
    unfolding trip_of
    trip_of_sound t m = by_test (in_a_day (sub back.timestamp out.timestamp)) m
      where
        by_test :
            (b : Bool)
            → In t (if b then round_trip src out back ∷ [] else [])
            → (t ≡ round_trip src out back) × (b ≡ true)
        by_test true (inl q) = (q, refl)
        by_test true (inr n) = absurd n
        by_test false n = absurd n

    trip_of-complete :
        in_a_day (sub back.timestamp out.timestamp) ≡ true
        → In (round_trip src out back) (trip_of src out back)
    unfolding trip_of
    trip_of-complete e = rw e (inl refl)

  trip_by_sound :
      (src : String) (o b : Option (TransactionEdge fl)) (t : RoundTrip)
      → In t (trip_by src o b)
      → (out : TransactionEdge fl) × (back : TransactionEdge fl) × (o ≡ some out)
        × (b ≡ some back)
        × (t ≡ round_trip src out back)
        × (in_a_day (sub back.timestamp out.timestamp) ≡ true)
  unfolding trip_by
  trip_by_sound src none b t m = absurd m
  trip_by_sound src (some out) none t m = absurd m
  trip_by_sound src (some out) (some back) t m =
      let (q, e) = trip_of_sound src out back t m in (out, back, refl, refl, q, e)

  opened :
      (src : String) (out back : TransactionEdge fl)
      → in_a_day (sub back.timestamp out.timestamp) ≡ true
      → In (round_trip src out back) (trip_by src (some out) (some back))
  unfolding trip_by
  opened src out back e = trip_of-complete src out back e

  trip_by-complete :
      (src : String) (o b : Option (TransactionEdge fl)) (t : RoundTrip)
      (out back : TransactionEdge fl)
      → o ≡ some out
      → b ≡ some back
      → t ≡ round_trip src out back
      → in_a_day (sub back.timestamp out.timestamp) ≡ true
      → In t (trip_by src o b)
  trip_by-complete src o b t out back p q r e =
      subst (λ x. In t (trip_by src x b)) (sym p)
        (subst (λ y. In t (trip_by src (some out) y)) (sym q)
          (subst (λ x. In x (trip_by src (some out) (some back))) (sym r) (opened src out back e)))

  -- `in_a_day` says that the time is positive and below the 86 400 seconds of a day.
  in_a_day_iff :
      (seconds : F)
      → (in_a_day seconds ≡ true)
        ↔ ((place (lit 0) < place seconds) × (place seconds < place (lit 86_400_000_000)))
  unfolding in_a_day
  in_a_day_iff seconds = (λ e. ground (arith, e), λ (a, b). ground (arith, a, b))

  module _ (address : String) (s : ThreatGraph fl dg) (known : node s.graph address ≢ none) where
    abbrev trips : List RoundTrip
    trips =
        gather (λ src. trip_by src (edge s.graph address src) (edge s.graph src address))
          (predecessors s.graph address)

    detect_round_trips_known : detect_round_trips address s ≡ trips
    unfolding detect_round_trips
    detect_round_trips_known = elim (Option-cases (node s.graph address)) [
      | inl missing ↦ absurd (known missing)
      | inr (w, e) ↦ rw (e, detect_round_trips) refl
    ]

    -- For a wallet of the graph, `detect_round_trips` reports exactly the wallets that it paid and that paid it
    -- back, when the edge back is later by less than 24 hours: with the time of the edge to the wallet as
    -- `time_out`, the time of the edge back as `time_in`, their difference, and the value of the edge back.
    pub round_trips_exact :
        (t : RoundTrip)
        → In t (detect_round_trips address s) ↔ (
            (src : String) × (out : TransactionEdge fl) × (back : TransactionEdge fl) × (edge
                s.graph address src
              ≡ some out)
            × (edge s.graph src address ≡ some back)
            × (t ≡ record {
              intermediate = src;
              time_out = out.timestamp;
              time_in = back.timestamp;
              round_trip_seconds = sub back.timestamp out.timestamp;
              value_eth = back.value_eth;
            })
            × (place (lit 0) < place (sub back.timestamp out.timestamp))
            × (place (sub back.timestamp out.timestamp) < place (lit 86_400_000_000)))
    round_trips_exact t = (
      (λ m.
          let (src, _, i) =
            In-gather _ t (predecessors s.graph address)
              (subst (In t) detect_round_trips_known m) in
          let (out, back, o, b, q, e) =
            trip_by_sound src (edge s.graph address src) (edge s.graph src address) t i in
          let (after, soon) = (in_a_day_iff (sub back.timestamp out.timestamp)).0 e in
          (src, out, back, o, b, q, after, soon)),
      (λ (src, out, back, o, b, q, after, soon). subst (In t) (sym detect_round_trips_known) (
          gather-In _ t src (predecessors s.graph address)
            ((dg.In-predecessors s.graph address src).1 (there src back b))
            (trip_by-complete src _ _ t out back o b q
              ((in_a_day_iff (sub back.timestamp out.timestamp)).1 (after, soon))))),
    )
      where
        there :
            (src : String) (back : TransactionEdge fl)
            → edge s.graph src address ≡ some back
            → edge s.graph src address ≢ none
        there src back b none_there = absurd (grind (arith, sym b ∙ none_there))
