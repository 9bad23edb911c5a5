-- ===== src/Dedup/Spec.antt =====
-- What the clusters of src/mcm_engine/dedup.py mean: the ids that the pairs join.
use mcm_engine.Base.{
  ℕ, ◌≡◌, refl, sym, ap, ◌∙◌, List, [], ◌∷◌, ◌==◌, nat_eq, if◌then◌else◌, arith, Bool-cases, inl,
  inr, ◌⊎◌, ◌↔◌,
}

abbrev pub IsAmong : ℕ × ℕ → List (ℕ × ℕ) → Type 0
IsAmong link [] = ⊥
IsAmong link (other ∷ pairs) = (link ≡ other) ⊎ IsAmong link pairs

-- The least equivalence that holds the pairs, and that holds ids with one representative.
pub data Joined (rep : ℕ → ℕ) (pairs : List (ℕ × ℕ)) : ℕ → ℕ → Type 0 where
  same : (x y : ℕ) → rep x ≡ rep y → Joined rep pairs x y
  link : (x y : ℕ) → IsAmong (x, y) pairs → Joined rep pairs x y
  back : (x y : ℕ) → Joined rep pairs y x → Joined rep pairs x y
  over : (x y z : ℕ) → Joined rep pairs x y → Joined rep pairs y z → Joined rep pairs x z

-- The representatives after a pair is joined.
unfoldable pub merge : ℕ → ℕ → (ℕ → ℕ) → ℕ → ℕ
merge a b rep y = if rep y == rep a then rep b else rep y

unfoldable pub merge_all : List (ℕ × ℕ) → (ℕ → ℕ) → ℕ → ℕ
unfolding merge
merge_all [] rep y = rep y
merge_all ((a, b) ∷ pairs) rep y = merge_all pairs (merge a b rep) y

merge-respects :
    (a b : ℕ) (rep : ℕ → ℕ) (x y : ℕ) → rep x ≡ rep y → merge a b rep x ≡ merge a b rep y
unfolding merge
merge-respects a b rep x y h = ap (λ r. if r == rep a then rep b else r) h

merge_all-respects :
    (pairs : List (ℕ × ℕ)) (rep : ℕ → ℕ) (x y : ℕ)
    → rep x ≡ rep y
    → merge_all pairs rep x ≡ merge_all pairs rep y
unfolding merge_all
merge_all-respects [] rep x y h = h
merge_all-respects ((a, b) ∷ pairs) rep x y h =
    merge_all-respects pairs (merge a b rep) x y (merge-respects a b rep x y h)

merge-joins : (a b : ℕ) (rep : ℕ → ℕ) → merge a b rep a ≡ merge a b rep b
unfolding merge
merge-joins a b rep = ground arith

merge_all-among :
    (pairs : List (ℕ × ℕ)) (rep : ℕ → ℕ) (x y : ℕ)
    → IsAmong (x, y) pairs
    → merge_all pairs rep x ≡ merge_all pairs rep y
unfolding merge_all
merge_all-among [] rep x y h = absurd h
merge_all-among ((a, b) ∷ pairs) rep x y (inl p) =
    let x_is = ap (λ (q : ℕ × ℕ). q.0) p in
    let y_is = ap (λ (q : ℕ × ℕ). q.1) p in
    merge_all-respects pairs (merge a b rep) x y
      (ap (merge a b rep) x_is ∙ merge-joins a b rep ∙ sym (ap (merge a b rep) y_is))
merge_all-among ((a, b) ∷ pairs) rep x y (inr m) = merge_all-among pairs (merge a b rep) x y m

Joined-merge_all :
    (pairs : List (ℕ × ℕ)) (rep : ℕ → ℕ) (x y : ℕ)
    → Joined rep pairs x y
    → merge_all pairs rep x ≡ merge_all pairs rep y
Joined-merge_all pairs rep _ _ (same x y h) = merge_all-respects pairs rep x y h
Joined-merge_all pairs rep _ _ (link x y m) = merge_all-among pairs rep x y m
Joined-merge_all pairs rep _ _ (back x y h) = sym (Joined-merge_all pairs rep y x h)
Joined-merge_all pairs rep _ _ (over x y z h k) =
    Joined-merge_all pairs rep x y h ∙ Joined-merge_all pairs rep y z k

-- An id is joined to the one that stands for it after the merge.
merged-Joined :
    (a b : ℕ) (pairs : List (ℕ × ℕ)) (rep : ℕ → ℕ) (x : ℕ)
    → ((merge a b rep x ≡ rep b) × Joined rep ((a, b) ∷ pairs) x b) ⊎ (merge a b rep x ≡ rep x)
unfolding merge
merged-Joined a b pairs rep x = elim (Bool-cases (rep x == rep a)) [
  | inl c ↦ inl (
    rw c refl,
    over x a b (same x a ((nat_eq.same_iff (rep x) (rep a)).0 c)) (link a b (inl refl)),
  )
  | inr c ↦ inr (rw c refl)
]

same-Joined :
    (a b : ℕ) (pairs : List (ℕ × ℕ)) (rep : ℕ → ℕ) (x y : ℕ)
    → merge a b rep x ≡ merge a b rep y
    → Joined rep ((a, b) ∷ pairs) x y
same-Joined a b pairs rep x y h = elim (merged-Joined a b pairs rep x) [
  | inl (p, j) ↦ elim (merged-Joined a b pairs rep y) [
    | inl (q, k) ↦ over x b y j (back b y k)
    | inr q ↦ over x b y j (same b y (sym p ∙ h ∙ q))
  ]
  | inr p ↦ elim (merged-Joined a b pairs rep y) [
    | inl (q, k) ↦ over x b y (same x b (sym p ∙ h ∙ q)) (back b y k)
    | inr q ↦ same x y (sym p ∙ h ∙ q)
  ]
]

Joined-weaken :
    (a b : ℕ) (pairs : List (ℕ × ℕ)) (rep : ℕ → ℕ) (x y : ℕ)
    → Joined (merge a b rep) pairs x y
    → Joined rep ((a, b) ∷ pairs) x y
Joined-weaken a b pairs rep _ _ (same x y h) = same-Joined a b pairs rep x y h
Joined-weaken a b pairs rep _ _ (link x y m) = link x y (inr m)
Joined-weaken a b pairs rep _ _ (back x y h) = back x y (Joined-weaken a b pairs rep y x h)
Joined-weaken a b pairs rep _ _ (over x y z h k) =
    over x y z (Joined-weaken a b pairs rep x y h) (Joined-weaken a b pairs rep y z k)

merge_all-Joined :
    (pairs : List (ℕ × ℕ)) (rep : ℕ → ℕ) (x y : ℕ)
    → merge_all pairs rep x ≡ merge_all pairs rep y
    → Joined rep pairs x y
unfolding merge_all
merge_all-Joined [] rep x y h = same x y h
merge_all-Joined ((a, b) ∷ pairs) rep x y h =
    Joined-weaken a b pairs rep x y (merge_all-Joined pairs (merge a b rep) x y h)

-- Two ids have one representative exactly where the pairs join them.
pub merge_all_joins :
    (pairs : List (ℕ × ℕ)) (rep : ℕ → ℕ) (x y : ℕ)
    → (merge_all pairs rep x ≡ merge_all pairs rep y) ↔ Joined rep pairs x y
merge_all_joins pairs rep x y = (merge_all-Joined pairs rep x y, Joined-merge_all pairs rep x y)
