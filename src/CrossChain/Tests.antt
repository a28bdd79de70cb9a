-- ===== src/CrossChain/Tests.antt =====
-- Runs of `CrossChainAnalyzer` (src/graph/cross_chain.py), and its theorems there.
use cryptosentinel_ai.Prelude.{◌≤◌, ◌≡◌, refl, ◌≢◌, String, true, some, arith, eq_iff}
use cryptosentinel_ai.Dict.{lookup}
use cryptosentinel_ai.Float.Fixed.{fixed}
use cryptosentinel_ai.CrossChain.Defs.{new_analyzer, observe, is_bridge, cross_chain_risk_boost}
use cryptosentinel_ai.CrossChain.Boost.{observe_raises}

abbrev lower_case : String → String
lower_case x = x

abbrev portal : String
portal = "0x3ee18b2214aff97000d974cf647e7c347e8fa585"

portal_bridges : is_bridge lower_case (some portal) ≡ true
unfolding is_bridge lookup
portal_bridges = refl

abbrev sender : String
sender = "a"

sender_given : sender ≢ ""
sender_given e = ground (arith, eq_iff sender "")

observe_raises_example :
    fixed.place (cross_chain_risk_boost fixed "a" new_analyzer)
    ≤ fixed.place (
        cross_chain_risk_boost fixed "a"
          (observe lower_case "a" (some portal) "ethereum" new_analyzer).1)
observe_raises_example =
    observe_raises fixed lower_case "a" (some portal) "ethereum" new_analyzer "a"
