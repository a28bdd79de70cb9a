-- ===== src/Features/Tests.antt =====
-- Runs of src/ml/tabular, and its theorems there.
use cryptosentinel_ai.Prelude.{ℕ, ◌≡◌, refl, some, none, List, [], ◌∷◌, map, leb, keep, arith}
use cryptosentinel_ai.Float.Fixed.{fixed}
use cryptosentinel_ai.Features.Defs.{TxPayload, extract, features_of, since, cutoff_of}
use cryptosentinel_ai.Features.History.{Seen, sent_by, after, Ascending, seen_as, extract_exact}
use cryptosentinel_ai.Features.Velocity.{
  compute_velocity_numba, compute_velocity_numpy, detect_burst_numba, count_near, velocity_agrees,
}

-- Times in seconds: 1 s, 2 s and 4000 s.
abbrev times : List ℕ
times = 1_000_001 ∷ 2_000_001 ∷ 4_000_000_001 ∷ []

one_hour : compute_velocity_numba fixed times 3_600_000_001 ≡ 1 ∷ 2 ∷ 1 ∷ []
unfolding compute_velocity_numba count_near
one_hour = refl

velocity_agrees_example :
    (compute_velocity_numba fixed times 3_600_000_001
      ≡ compute_velocity_numpy fixed times 3_600_000_001)
    × (detect_burst_numba fixed times 3_600_000_001 2
        ≡ map (leb 2) (compute_velocity_numpy fixed times 3_600_000_001))
velocity_agrees_example = velocity_agrees fixed times 3_600_000_001 2

abbrev payload : TxPayload fixed
payload = record {
  tx_hash = some "0x1";
  from_addr = some "a";
  chain_name = some "polygon-mainnet";
  value_eth = some 1_000_001;
  block_timestamp = some 4_000_000_001;
  input_data = none;
  gas_price = none;
  gas = none;
  is_contract_call = none;
  is_contract_creation = none;
}

abbrev seen : List (Seen fixed)
seen = ("a", 1_000_001, 5) ∷ ("a", 2_000_000_001, 7) ∷ []

ascending :
    Ascending fixed 1 (("a", 1_000_001, 5) ∷ ("a", 2_000_000_001, 7) ∷ seen_as fixed 1 payload ∷ [])
ascending = (omega arith, (omega arith, (omega arith, tt)))

extract_exact_example :
    (extract fixed
      (λ x. x)
      1
      payload
      (record { history_window = 3600; address_history = after fixed 3600 seen [] })).0
    ≡ features_of fixed
        (λ x. x)
        payload
        "a"
        1_000_001
        4_000_000_001
        (keep (since fixed (cutoff_of fixed 3600 4_000_000_001)) (
          sent_by fixed "a"
            (("a", 1_000_001, 5) ∷ ("a", 2_000_000_001, 7) ∷ seen_as fixed 1 payload ∷ [])))
extract_exact_example = extract_exact fixed (λ x. x) 3600 seen 1 1 payload ascending
