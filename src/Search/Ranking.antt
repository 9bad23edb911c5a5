-- ===== src/Search/Ranking.antt =====
-- Ranking and cutting off in src/mcm_engine/tools/search.py add no hit.
use mathlib.Core.List.{Memᴰ}
use mathlib.Core.List.Memᴰ
use mcm_engine.Base.{
  ℕ, zero, suc, List, [], ◌∷◌, string_eq, nat_eq, Bool-cases, inl, inr, take, leb,
}
use mcm_engine.Search.Score.{Rank}
use mcm_engine.Search.Block.{Ranked, insert_ranked, sort_ranked}

pub take-Memᴰ {ℓ} : {A : Type ℓ} (n : ℕ) (xs : List A) (a : A) → Memᴰ a (take n xs) → Memᴰ a xs
take-Memᴰ zero xs a m = absurd (Memᴰ.not-nil m)
take-Memᴰ (suc n) [] a m = m
take-Memᴰ (suc n) (x ∷ xs) a m = elim (Memᴰ.cases_cons m) [
  | inl e ↦ Memᴰ.head e
  | inr k ↦ Memᴰ.tail (take-Memᴰ n xs a k)
]

insert_ranked-Memᴰ :
    (value : Rank → ℕ) (x : Ranked) (ys : List Ranked) (r : Ranked)
    → Memᴰ r (insert_ranked value x ys)
    → Memᴰ r (x ∷ ys)
unfolding insert_ranked
insert_ranked-Memᴰ value x [] r m = m
insert_ranked-Memᴰ value x (y ∷ ys) r m = elim (Bool-cases (leb (value y.rank) (value x.rank))) [
  | inl c ↦ rw (insert_ranked, c) at m
  | inr c ↦ elim (Memᴰ.cases_cons (rw (insert_ranked, c) at m)) [
    | inl e ↦ Memᴰ.tail (Memᴰ.head e)
    | inr k ↦ elim (Memᴰ.cases_cons (insert_ranked-Memᴰ value x ys r k)) [
      | inl e ↦ Memᴰ.head e
      | inr n ↦ Memᴰ.tail (Memᴰ.tail n)
    ]
  ]
]

pub sort_ranked-Memᴰ :
    (value : Rank → ℕ) (xs : List Ranked) (r : Ranked) → Memᴰ r (sort_ranked value xs) → Memᴰ r xs
unfolding sort_ranked
sort_ranked-Memᴰ value [] r m = m
sort_ranked-Memᴰ value (x ∷ xs) r m =
    elim (Memᴰ.cases_cons (insert_ranked-Memᴰ value x (sort_ranked value xs) r m)) [
      | inl e ↦ Memᴰ.head e
      | inr k ↦ Memᴰ.tail (sort_ranked-Memᴰ value xs r k)
    ]
