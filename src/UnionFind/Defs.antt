-- ===== src/UnionFind/Defs.antt =====
-- The state and the methods of `UnionFind` (src/graph/threat_graph.py).
use text.Mathlib.Text.{◌==◌}
use Prim.Native.Nat.{max}
use cryptosentinel_ai.Prelude.{
  ℕ, zero, suc, ◌+◌, String, Bool, true, false, Option, none, some, List, [], ◌∷◌, ◌++◌, ltb, eqb,
  if◌then◌else◌,
}
use cryptosentinel_ai.Dict.{Dict, lookup, insert, keys, values}

pub record UnionFind : Type 0 where
  pub parent : Dict String
  pub rank : Dict ℕ

-- `__init__`
abbrev pub init : UnionFind
init = record { parent = []; rank = [] }

infixl 5 ◌>>=◌
-- `none` is a `KeyError`, or fuel that ran out; neither happens (see `Find`).
abbrev pub ◌>>=◌ : {A B : Type 0} → Option A → (A → Option B) → Option B
none >>= f = none
some a >>= f = f a

-- `if x not in self._parent: ...`
unfoldable pub ensure : String → UnionFind → UnionFind
ensure x u = elim (lookup x u.parent) [
  | none ↦ record { parent = insert x x u.parent; rank = insert x 0 u.rank }
  | some _ ↦ u
]

-- `self._parent[x] = r`
unfoldable pub set_parent : String → String → UnionFind → UnionFind
set_parent x r u = record u { parent = insert x r u.parent }

-- `find` on fuel: the root, and the state with compressed paths.
unfoldable pub find_fuel : ℕ → String → UnionFind → Option (String × UnionFind)
find_fuel zero x u = none
find_fuel (suc f) x u =
    let u₁ = ensure x u in
    elim (lookup x u₁.parent) [
      | none ↦ none
      | some p ↦ elim (p == x) [
        | true ↦ some (x, u₁)
        | false ↦ find_fuel f p u₁ >>= λ found. some (found.0, set_parent x found.0 found.1)
      ]
    ]

abbrev pub max_of : List ℕ → ℕ
max_of [] = 0
max_of (n ∷ ns) = max n (max_of ns)

-- A chain of parents climbs through the ranks, so this much is enough.
unfoldable pub enough : UnionFind → ℕ
enough u = suc (suc (max_of (values u.rank)))

unfoldable pub find : String → UnionFind → Option (String × UnionFind)
find x u = find_fuel (enough u) x u

-- `self._parent[lo] = hi`, and the rank grows on a tie.
unfoldable pub link : String → String → ℕ → ℕ → UnionFind → UnionFind
link hi lo rank_hi rank_lo u =
    let joined = record u { parent = insert lo hi u.parent } in
    if eqb rank_hi rank_lo then record joined { rank = insert hi (rank_hi + 1) u.rank } else joined

-- The part of `union` after the two roots are found and differ.
unfoldable pub attach : String → String → UnionFind → Option UnionFind
attach rx ry u = lookup rx u.rank >>= λ m.
    lookup ry u.rank >>= λ n. some (if ltb m n then link ry rx n m u else link rx ry m n u)

unfoldable pub union : String → String → UnionFind → Option UnionFind
union x y u = find x u >>= λ found_x. find y found_x.1 >>= λ found_y.
    elim (found_x.0 == found_y.0) [
      | true ↦ some found_y.1
      | false ↦ attach found_x.0 found_y.0 found_y.1
    ]

unfoldable pub same_cluster : String → String → UnionFind → Option (Bool × UnionFind)
same_cluster x y u =
    find x u >>= λ found_x. find y found_x.1 >>= λ found_y. some (found_x.0 == found_y.0, found_y.1)

-- `clusters[root].append(node)` on a `defaultdict(list)`.
unfoldable pub add_member : String → String → Dict (List String) → Dict (List String)
add_member root node clusters = elim (lookup root clusters) [
  | none ↦ insert root (node ∷ []) clusters
  | some members ↦ insert root (members ++ node ∷ []) clusters
]

-- The loop of `get_clusters`; its `find` writes to the dict that it goes over, but adds no key.
unfoldable pub group :
    List String → Dict (List String) → UnionFind → Option (Dict (List String) × UnionFind)
group [] clusters u = some (clusters, u)
group (node ∷ nodes) clusters u =
    find node u >>= λ found. group nodes (add_member found.0 node clusters) found.1

unfoldable pub get_clusters : UnionFind → Option (Dict (List String) × UnionFind)
get_clusters u = group (keys u.parent) [] u
