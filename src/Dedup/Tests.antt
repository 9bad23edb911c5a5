-- ===== src/Dedup/Tests.antt =====
-- Three pairs of ids, and the theorem at them.
use mcm_engine.Base.{ℕ, ◌≡◌, ◌↔◌, some, List, [], ◌∷◌, arith}
use mcm_engine.Base.Dict.{Dict}
use mcm_engine.Dedup.UnionFind.{find, union_all}
use mcm_engine.Dedup.Spec.{Joined}
use mcm_engine.Dedup.Merged.{union_all_joins}

abbrev pairs : List (ℕ × ℕ)
pairs = (1, 2) ∷ (3, 4) ∷ (2, 4) ∷ []

union_all_joins_example :
    (after : Dict ℕ ℕ) × (root : ℕ → ℕ) × (union_all 4 pairs [] ≡ some after)
    × ((x : ℕ) → (rest : Dict ℕ ℕ) × (find 4 x after ≡ some (root x, rest)))
    × ((x y : ℕ) → (root x ≡ root y) ↔ Joined (λ id. id) pairs x y)
union_all_joins_example = union_all_joins pairs 4 (omega arith)
