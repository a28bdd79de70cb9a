-- ===== src/Features/Defs.antt =====
-- `FeatureEngineer` of src/ml/tabular/feature_engineer.py. numpy's `log1p`, its rounding
-- to 32 bits and the clock are arguments.
use Prim.Native.String.{count}
use text.Mathlib.Text.{◌==◌}
use cryptosentinel_ai.Prelude.{
  ℕ, ◌-◌, ◌/◌, String, Bool, false, Option, none, some, List, [], ◌∷◌, ◌++◌, map, length, keep, ltb,
  if◌then◌else◌,
}
use cryptosentinel_ai.Dict.{Dict, lookup, insert}
use cryptosentinel_ai.Float.{Float, lt_f, le_f, of_int}

module _ (fl : Float) where
  open fl use {F, lit, add, sub, div}

  pub record TransactionFeatures : Type 0 where
    pub tx_hash : String
    pub from_addr : String
    pub chain_name : String
    pub value_eth : F
    pub log_value_eth : F
    pub is_high_value : F
    pub gas : F
    pub gas_price_gwei : F
    pub gas_price_percentile : F
    pub is_contract_call : F
    pub is_contract_creation : F
    pub input_data_length : F
    pub tx_count_1h : F
    pub tx_count_24h : F
    pub value_sum_1h : F
    pub time_since_last_tx : F
    pub address_in_degree : F
    pub address_out_degree : F
    pub cluster_risk_score : F

  -- `to_numpy`, whose array rounds each number to 32 bits.
  unfoldable pub to_numpy : (F → F) → TransactionFeatures → List F
  to_numpy float32 f = map float32 (
      f.value_eth ∷ f.log_value_eth ∷ f.is_high_value ∷ f.gas ∷ f.gas_price_gwei
      ∷ f.gas_price_percentile ∷ f.is_contract_call ∷ f.is_contract_creation ∷ f.input_data_length
      ∷ f.tx_count_1h ∷ f.tx_count_24h ∷ f.value_sum_1h ∷ f.time_since_last_tx ∷ f.address_in_degree
      ∷ f.address_out_degree ∷ f.cluster_risk_score ∷ [])

  -- The dict `tx_payload`, any key of which may be missing.
  pub record TxPayload : Type 0 where
    pub tx_hash : Option String
    pub from_addr : Option String
    pub chain_name : Option String
    pub value_eth : Option F
    pub block_timestamp : Option F
    pub input_data : Option String
    pub gas_price : Option F
    pub gas : Option F
    pub is_contract_call : Option Bool
    pub is_contract_creation : Option Bool

  -- `payload.get(key, default)`
  abbrev pub get : {A : Type 0} → A → Option A → A
  get a none = a
  get a (some b) = b

  -- `_address_history`: times and values.
  abbrev pub Histories : Type 0
  Histories = Dict (List (F × F))

  abbrev pub history_of : String → Histories → List (F × F)
  history_of address h = get [] (lookup address h)

  -- `t >= cutoff`
  abbrev pub since : F → F × F → Bool
  since cutoff e = le_f fl cutoff e.0

  pub record FeatureEngineer : Type 0 where
    pub history_window : ℕ
    pub address_history : Histories

  abbrev pub cutoff_of : ℕ → F → F
  cutoff_of window timestamp = sub timestamp (of_int fl window)

  -- `_update_history`
  unfoldable pub update_history : ℕ → String → F → F → Histories → Histories
  update_history window address timestamp value_eth h =
      insert address
        (keep (since (cutoff_of window timestamp))
          (history_of address h ++ (timestamp, value_eth) ∷ []))
        h

  -- `_get_recent_history`
  unfoldable pub get_recent_history : ℕ → String → F → Histories → List (F × F)
  get_recent_history window address timestamp h =
      keep (since (cutoff_of window timestamp)) (history_of address h)

  -- `sum(v for _, v in history)`
  abbrev sum_from : F → List (F × F) → F
  sum_from total [] = total
  sum_from total (e ∷ es) = sum_from (add total e.1) es

  unfoldable pub sum_values : List (F × F) → F
  sum_values history = sum_from (lit 0) history

  -- `sorted` on times
  abbrev put_time : F → List F → List F
  put_time t [] = t ∷ []
  put_time t (u ∷ us) = let rest = put_time t us in if lt_f fl u t then u ∷ rest else t ∷ u ∷ us

  unfoldable pub sorted_times : List F → List F
  sorted_times [] = []
  sorted_times (t ∷ ts) = put_time t (sorted_times ts)

  -- `sorted_times[-2]`, of at least two times.
  abbrev pub last_but_one : List F → F
  last_but_one [] = lit 0
  last_but_one (t ∷ []) = t
  last_but_one (t ∷ u ∷ []) = t
  last_but_one (t ∷ u ∷ v ∷ ts) = last_but_one (u ∷ v ∷ ts)

  unfoldable pub time_since_last : F → List (F × F) → F
  time_since_last timestamp history =
      if ltb 1 (length history)
      then sub timestamp (last_but_one (sorted_times (map (λ e. e.0) history)))
      else fl.minus_one

  abbrev pub flag : Bool → F
  flag b = if b then lit 1_000_000 else lit 0

  abbrev hex_or : String → String
  hex_or s = if s == "" then "0x" else s

  -- The number of bytes of `input_data`; `None` and "" count as "0x".
  unfoldable pub input_length : Option String → ℕ
  input_length input = (count (hex_or (get "0x" input)) - 2) / 2

  module _ (log1p : F → F) where
    -- The features, from the history of the sender.
    unfoldable pub features_of : TxPayload → String → F → F → List (F × F) → TransactionFeatures
    features_of tx from_addr value_eth timestamp history = record {
      tx_hash = get "" tx.tx_hash;
      from_addr = from_addr;
      chain_name = get "" tx.chain_name;
      value_eth = value_eth;
      log_value_eth = log1p value_eth;
      is_high_value = flag (lt_f fl (lit 1_000_000) value_eth);
      gas = get (lit 0) tx.gas;
      gas_price_gwei = div (get (lit 0) tx.gas_price) (lit 1_000_000_000_000_000);
      gas_price_percentile = lit 500_000;
      is_contract_call = flag (get false tx.is_contract_call);
      is_contract_creation = flag (get false tx.is_contract_creation);
      input_data_length = of_int fl (input_length tx.input_data);
      tx_count_1h = of_int fl (length history);
      tx_count_24h = of_int fl (length history);
      value_sum_1h = sum_values history;
      time_since_last_tx = time_since_last timestamp history;
      address_in_degree = lit 0;
      address_out_degree = lit 0;
      cluster_risk_score = lit 0;
    }

    -- `extract`
    unfoldable pub extract : F → TxPayload → FeatureEngineer → TransactionFeatures × FeatureEngineer
    extract now tx s =
        let from_addr = get "" tx.from_addr in
        let value_eth = get (lit 0) tx.value_eth in
        let timestamp = get now tx.block_timestamp in
        let h = update_history s.history_window from_addr timestamp value_eth s.address_history in
        (
          features_of tx from_addr value_eth timestamp
              (get_recent_history s.history_window from_addr timestamp h),
          record s { address_history = h },
        )
