-- ===== src/CrossChain/Boost.antt =====
-- How `observe` moves `cross_chain_risk_boost` (src/graph/cross_chain.py).
use text.Mathlib.Text.{◌==◌}
use cryptosentinel_ai.Prelude.{
  ℕ, ◌+◌, ◌≤◌, ◌≡◌, refl, sym, ap, subst, ◌∙◌, ◌≢◌, String, Bool, true, Option, none, some, List,
  length, ltb, lt→ltb, if◌then◌else◌, arith, eq_iff, eq_self, eq_of_ne,
}
use cryptosentinel_ai.Dict.{Dict, insert, lookup-insert}
use cryptosentinel_ai.Float.{Float}
use cryptosentinel_ai.Float.Laws.{lit_le}
use cryptosentinel_ai.CrossChain.Defs.{
  given, is_given, first_of, known_bridges, add_to, set_of, count_of, note, hit, CrossChainAnalyzer,
  observe, actor_of, bridge_of, bridge_name, is_bridge, name_in, asset_user, is_cross_chain_actor,
  bridge_interaction_count, boost_of, cross_chain_risk_boost,
}

length-add_to : (x : String) (xs : List String) → length xs ≤ length (add_to x xs)
unfolding add_to
length-add_to x xs = ground arith

set_of-insert :
    (a b : String) (xs : List String) (d : Dict (List String))
    → set_of b (insert a xs d) ≡ (if a == b then xs else set_of b d)
unfolding set_of
set_of-insert a b xs d = ground (arith, lookup-insert a b xs d)

count_of-insert :
    (a b : String) (n : ℕ) (d : Dict ℕ)
    → count_of b (insert a n d) ≡ (if a == b then n else count_of b d)
unfolding count_of
count_of-insert a b n d = ground (arith, lookup-insert a b n d)

note-grows :
    (o : Option String) (x b : String) (d : Dict (List String))
    → length (set_of b d) ≤ length (set_of b (note o x d))
unfolding note
note-grows none x b d = omega arith
note-grows (some a) x b d = ground (
  arith,
  set_of-insert a b (add_to x (set_of a d)) d,
  eq_iff a b,
  same,
  length-add_to x (set_of a d),
)
  where
    same : a ≡ b → length (set_of a d) ≡ length (set_of b d)
    same e = ap (λ t. length (set_of t d)) e

hit-grows : (o : Option String) (b : String) (d : Dict ℕ) → count_of b d ≤ count_of b (hit o d)
unfolding hit
hit-grows none b d = omega arith
hit-grows (some a) b d = ground (arith, count_of-insert a b (count_of a d + 1) d, eq_iff a b, same)
  where
    same : a ≡ b → count_of a d ≡ count_of b d
    same e = ap (λ t. count_of t d) e

boost_mono :
    (c b a c' b' a' : Bool)
    → (c ≡ true → c' ≡ true)
    → (b ≡ true → b' ≡ true)
    → (a ≡ true → a' ≡ true)
    → boost_of c b a ≤ boost_of c' b' a'
unfolding boost_of
boost_mono c b a c' b' a' hc hb ha = ground arith

boost_bound : (c b a : Bool) → boost_of c b a ≤ 1_000_000_000_000_000
unfolding boost_of
boost_bound c b a = ground arith

ltb_mono : (k n m : ℕ) → n ≤ m → ltb k n ≡ true → ltb k m ≡ true
ltb_mono k n m h e = ground arith

boost_bridged : (c b a : Bool) → b ≡ true → 1_250_000 ≤ boost_of c b a
unfolding boost_of
boost_bridged c b a e = ground arith

-- The actor is the sender when the receiver is a bridge.
actor_is_sender :
    (f : String) (to o other : Option String)
    → is_given o ≡ true
    → elim (first_of o other) [ none ↦ none | some _ ↦ if is_given o then some f else to ] ≡ some f
actor_is_sender f to none other e = absurd cc
actor_is_sender f to (some x) other e = refl

hit_positive : (f : String) (d : Dict ℕ) → 1 ≤ count_of f (hit (some f) d)
unfolding hit
hit_positive f d = ground (arith, count_of-insert f f (count_of f d + 1) d, eq_self f)

module _ (fl : Float) (lower : String → String) (from_addr : String) (to_addr : Option String)
    (chain : String) (a : CrossChainAnalyzer) where
  abbrev after : CrossChainAnalyzer
  after = (observe lower from_addr to_addr chain a).1

  chains_grow :
      (b : String)
      → length (set_of b a.chains_by_address) ≤ length (set_of b after.chains_by_address)
  unfolding observe
  chains_grow b =
      let sender = given (some from_addr) in
      let once = note sender chain a.chains_by_address in
      omega (
        arith,
        note-grows sender chain b a.chains_by_address,
        note-grows (given to_addr) chain b once,
      )

  -- A transaction that is observed lowers the risk boost of no address.
  pub observe_raises :
      (b : String)
      → fl.place (cross_chain_risk_boost fl b a)
        ≤ fl.place (cross_chain_risk_boost fl b (observe lower from_addr to_addr chain a).1)
  unfolding cross_chain_risk_boost is_cross_chain_actor bridge_interaction_count observe
  observe_raises b =
      lit_le fl _ _
        (boost_mono _ _ _ _ _ _ (ltb_mono 1 _ _ (chains_grow b))
          (ltb_mono 0 _ _ (hit-grows (given (actor_of lower from_addr to_addr)) b a.bridge_hits))
          (ltb_mono 0 _ _ (hit-grows (asset_user lower from_addr to_addr) b a.bridged_asset_hits)))
        (boost_bound _ _ _)

  sender_acts :
      from_addr ≢ ""
      → is_bridge lower to_addr ≡ true
      → given (actor_of lower from_addr to_addr) ≡ some from_addr
  unfolding is_bridge actor_of bridge_of bridge_name
  sender_acts sender bridge =
      ap given (
        actor_is_sender from_addr to_addr (name_in lower known_bridges to_addr)
          (name_in lower known_bridges (some from_addr)) bridge)
      ∙ ap (λ (b : Bool). if b then none else some from_addr) (eq_of_ne from_addr "" sender)

  -- After a transaction from a given address to a known bridge, the sender's risk boost is at
  -- least 1.25.
  pub bridge_deposit_boosted :
      from_addr ≢ ""
      → is_bridge lower to_addr ≡ true
      → fl.place (fl.lit 1_250_000)
        ≤ fl.place (cross_chain_risk_boost fl from_addr (observe lower from_addr to_addr chain a).1)
  unfolding cross_chain_risk_boost bridge_interaction_count observe
  bridge_deposit_boosted sender bridge =
      let hits =
        subst (λ o. 1 ≤ count_of from_addr (hit o a.bridge_hits)) (sym (sender_acts sender bridge))
          (hit_positive from_addr a.bridge_hits) in
      lit_le fl _ _ (boost_bridged _ _ _ (lt→ltb 0 _ (omega (arith, hits)))) (boost_bound _ _ _)
