-- ===== src/CrossChain/Defs.antt =====
-- `CrossChainAnalyzer` of src/graph/cross_chain.py. `str.lower` is a parameter. A set is the list of its
-- elements.
use text.Mathlib.Text.{◌==◌}
use Prim.Native.String.{compare}
use Prim.Native.Nat.{Ordering}
use cryptosentinel_ai.Prelude.{
  ℕ, ◌+◌, String, Bool, true, false, ◌&&◌, ◌||◌, Option, none, some, List, [], ◌∷◌, length, keep,
  ltb, if◌then◌else◌,
}
use cryptosentinel_ai.Dict.{Dict, lookup, insert, keys}
use cryptosentinel_ai.Float.{Float}

-- KNOWN_BRIDGES
abbrev pub known_bridges : Dict String
known_bridges =
    ("0xa0c68c638235ee32657e8f720a23cec1bfc77c77", "Polygon PoS: RootChainManager")
    ∷ ("0x40ec5b33f54e0e8a33a975908c5ba1c14e5bbbdf", "Polygon PoS: ERC20 Predicate")
    ∷ ("0x8484ef722627bf18ca5ae6bcf031c23e6e922b30", "Polygon PoS: Ether Predicate")
    ∷ ("0x401f6c983ea34274ec46f84d70b31c151321188b", "Polygon: Plasma DepositManager")
    ∷ ("0x3ee18b2214aff97000d974cf647e7c347e8fa585", "Wormhole: Token Bridge")
    ∷ ("0xa7d7079b0fead91f3e65f86e8915cb59c1a4c664", "Across: SpokePool")
    ∷ []

-- BRIDGED_ASSETS
abbrev pub bridged_assets : Dict String
bridged_assets =
    ("0x2791bca1f2de4661ed88a30c99a7a9449aa84174", "USDC.e (PoS-bridged USDC)")
    ∷ ("0x7ceb23fd6bc0add59e62ac25578270cff1b9f619", "WETH (PoS-bridged)")
    ∷ ("0xc2132d05d31c914a87c6611c10748aeb04b58e8f", "USDT (PoS-bridged)")
    ∷ []

-- An address that is not `None` and not empty.
abbrev pub given : Option String → Option String
given none = none
given (some address) = if address == "" then none else some address

abbrev pub is_given : {A : Type 0} → Option A → Bool
is_given none = false
is_given (some _) = true

-- `a or b`
abbrev pub first_of : Option String → Option String → Option String
first_of none b = b
first_of (some a) b = some a

abbrev pub contains : String → List String → Bool
contains x [] = false
contains x (y ∷ ys) = x == y || contains x ys

-- `set.add`
unfoldable pub add_to : String → List String → List String
add_to x xs = if contains x xs then xs else x ∷ xs

-- `d.get(address, set())`, and what `defaultdict(set)` has at a missing key.
unfoldable pub set_of : String → Dict (List String) → List String
set_of address d = elim (lookup address d) [ none ↦ [] | some xs ↦ xs ]

unfoldable pub count_of : String → Dict ℕ → ℕ
count_of address d = elim (lookup address d) [ none ↦ 0 | some n ↦ n ]

-- `if address: d[address].add(x)`
unfoldable pub note : Option String → String → Dict (List String) → Dict (List String)
note none x d = d
note (some address) x d = insert address (add_to x (set_of address d)) d

-- `if address: d[address] += 1`
unfoldable pub hit : Option String → Dict ℕ → Dict ℕ
hit none d = d
hit (some address) d = insert address (count_of address d + 1) d

-- `sorted` on texts
abbrev put_text : String → List String → List String
put_text x [] = x ∷ []
put_text x (y ∷ ys) =
    let rest = put_text x ys in elim (compare y x) [ Ordering.lt ↦ y ∷ rest | _ ↦ x ∷ y ∷ ys ]

unfoldable pub sorted_texts : List String → List String
sorted_texts [] = []
sorted_texts (x ∷ xs) = put_text x (sorted_texts xs)

pub record CrossChainAnalyzer : Type 0 where
  pub chains_by_address : Dict (List String)
  pub bridge_hits : Dict ℕ
  pub bridges_touched : Dict (List String)
  pub bridged_asset_hits : Dict ℕ

abbrev pub new_analyzer : CrossChainAnalyzer
new_analyzer = record {
  chains_by_address = [];
  bridge_hits = [];
  bridges_touched = [];
  bridged_asset_hits = [];
}

-- The dict `flags`; `bridge_actor` is there with `bridge_interaction`, and may be `None`.
pub record Flags : Type 0 where
  pub bridge_interaction : Option String
  pub bridge_actor : Option String
  pub bridged_asset : Option String
  pub cross_chain_actor : Option (List String)

module _ (lower : String → String) where
  abbrev pub name_in : Dict String → Option String → Option String
  name_in names address = elim (given address) [ none ↦ none | some a ↦ lookup (lower a) names ]

  unfoldable pub bridge_name : Option String → Option String
  bridge_name address = name_in known_bridges address

  unfoldable pub is_bridge : Option String → Bool
  is_bridge address = is_given (name_in known_bridges address)

  unfoldable pub bridged_asset_name : Option String → Option String
  bridged_asset_name address = name_in bridged_assets address

  -- `bridge_name(to_addr) or bridge_name(from_addr)`
  unfoldable pub bridge_of : String → Option String → Option String
  bridge_of from_addr to_addr = first_of (bridge_name to_addr) (bridge_name (some from_addr))

  -- `from_addr if is_bridge(to_addr) else to_addr`, where there is a bridge
  unfoldable pub actor_of : String → Option String → Option String
  actor_of from_addr to_addr = elim (bridge_of from_addr to_addr) [
    | none ↦ none
    | some _ ↦ if is_bridge to_addr then some from_addr else to_addr
  ]

  abbrev pub touch : Option String → Option String → Dict (List String) → Dict (List String)
  touch actor none d = d
  touch actor (some name) d = note actor name d

  -- The sender that is given, where the receiver is a bridged asset.
  unfoldable pub asset_user : String → Option String → Option String
  asset_user from_addr to_addr = elim (bridged_asset_name to_addr) [
    | none ↦ none
    | some _ ↦ given (some from_addr)
  ]

  unfoldable pub observe :
      String → Option String → String → CrossChainAnalyzer → Flags × CrossChainAnalyzer
  observe from_addr to_addr chain_name a =
      let chains =
        note (given to_addr) chain_name
          (note (given (some from_addr)) chain_name a.chains_by_address) in
      let bname = bridge_of from_addr to_addr in
      let actor = actor_of from_addr to_addr in
      let user = asset_user from_addr to_addr in
      (
        record {
          bridge_interaction = bname;
          bridge_actor = actor;
          bridged_asset = if is_given user then bridged_asset_name to_addr else none;
          cross_chain_actor = elim (given (some from_addr)) [
            | none ↦ none
            | some x ↦
                if ltb 1 (length (set_of x chains))
                then some (sorted_texts (set_of x chains))
                else none
          ];
        },
        record {
          chains_by_address = chains;
          bridge_hits = hit (given actor) a.bridge_hits;
          bridges_touched = touch (given actor) bname a.bridges_touched;
          bridged_asset_hits = hit user a.bridged_asset_hits;
        },
      )

unfoldable pub chains_for : String → CrossChainAnalyzer → List String
chains_for address a = sorted_texts (set_of address a.chains_by_address)

unfoldable pub is_cross_chain_actor : String → CrossChainAnalyzer → Bool
is_cross_chain_actor address a = ltb 1 (length (set_of address a.chains_by_address))

unfoldable pub bridge_interaction_count : String → CrossChainAnalyzer → ℕ
bridge_interaction_count address a = count_of address a.bridge_hits

-- The boost in millionths.
unfoldable pub boost_of : Bool → Bool → Bool → ℕ
boost_of cross bridged asset =
    if cross && bridged
    then 1_400_000
    else if bridged
    then 1_250_000
    else if cross
    then 1_150_000
    else if asset
    then 1_080_000
    else 1_000_000

unfoldable pub cross_chain_risk_boost : (fl : Float) → String → CrossChainAnalyzer → fl.F
cross_chain_risk_boost fl address a = fl.lit (
    boost_of (is_cross_chain_actor address a) (ltb 0 (bridge_interaction_count address a))
      (ltb 0 (count_of address a.bridged_asset_hits)))

unfoldable pub get_cross_chain_actors : CrossChainAnalyzer → List String
get_cross_chain_actors a = keys (keep (λ e. ltb 1 (length e.1)) a.chains_by_address)
