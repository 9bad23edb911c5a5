-- ===== src/Dedup/UnionFind.antt =====
-- `_UnionFind` of src/mcm_engine/dedup.py. The loop of `find` runs on fuel; `none` is a loop that has not
-- come to its end.
use mcm_engine.Base.{
  ℕ, zero, suc, Option, none, some, List, [], ◌∷◌, ◌==◌, nat_eq, if◌then◌else◌, or_else,
}
use mcm_engine.Base.Dict.{Dict, get, put}

-- `d.setdefault(k, k)`, as the dictionary after it; its value is `parent_of` of the key.
unfoldable pub setdefault : Dict ℕ ℕ → ℕ → Dict ℕ ℕ
setdefault d k = elim (get d k) [ none ↦ put d k k | some v ↦ d ]

unfoldable pub parent_of : Dict ℕ ℕ → ℕ → ℕ
parent_of d k = or_else (get d k) k

-- `while p != x`
unfoldable pub find_loop : ℕ → Dict ℕ ℕ → ℕ → ℕ → Option (ℕ × Dict ℕ ℕ)
unfolding setdefault parent_of
find_loop zero d x p = none
find_loop (suc fuel) d x p =
    let known = setdefault d p in
    let grandparent = parent_of known p in
    let rest = find_loop fuel (put known x grandparent) p grandparent in
    if p == x then some (x, d) else rest

unfoldable pub find : ℕ → ℕ → Dict ℕ ℕ → Option (ℕ × Dict ℕ ℕ)
unfolding find_loop
find fuel x d = find_loop fuel (setdefault d x) x (parent_of d x)

unfoldable pub union : ℕ → ℕ → ℕ → Dict ℕ ℕ → Option (Dict ℕ ℕ)
unfolding find
union fuel a b d = elim (find fuel a d) [
  | none ↦ none
  | some (ra, found) ↦ elim (find fuel b found) [
    | none ↦ none
    | some (rb, both) ↦ some (if ra == rb then both else put both ra rb)
  ]
]

-- The unions of the pairs, one after the other.
unfoldable pub union_all : ℕ → List (ℕ × ℕ) → Dict ℕ ℕ → Option (Dict ℕ ℕ)
unfolding union
union_all fuel [] d = some d
union_all fuel ((a, b) ∷ pairs) d = elim (union fuel a b d) [
  | none ↦ none
  | some merged ↦ union_all fuel pairs merged
]
