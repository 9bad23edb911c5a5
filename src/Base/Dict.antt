-- ===== src/Base/Dict.antt =====
-- Python's `dict`: the entries in the order in which the keys first came in. An assignment to a key
-- that is there keeps its place.
use mathlib.Core.Path.{◌≡◌, refl, sym, ap, ◌∙◌, subst}
use mathlib.Core.Bool.{Bool, false}
use mathlib.Core.Logic.{◌⊎◌, inl, inr}
use mathlib.Core.Option.{Option, none, some, some-injective}
use mathlib.Core.List.{List, [], ◌∷◌}
use native.Mathlib.Omega.{arith}
use mcm_engine.Base.Tests.{Equality, ◌==◌, if◌then◌else◌, is_some, Bool-cases}

abbrev pub Dict {ℓ κ} : Type ℓ → Type κ → Type (ℓ ⊔ κ)
Dict K V = List (K × V)

module _ {ℓ κ} {K : Type ℓ} {V : Type κ} ⦃e : Equality K⦄ where
  -- d.get(k)
  unfoldable pub get : Dict K V → K → Option V
  get [] k = none
  get ((j, v) ∷ d) k = if j == k then some v else get d k

  -- d[k] = v
  unfoldable pub put : Dict K V → K → V → Dict K V
  put [] k v = (k, v) ∷ []
  put ((j, w) ∷ d) k v = if j == k then (j, v) ∷ d else (j, w) ∷ put d k v

  -- d.pop(k, None)
  unfoldable pub remove : Dict K V → K → Dict K V
  remove [] k = []
  remove ((j, w) ∷ d) k = let rest = remove d k in if j == k then rest else (j, w) ∷ rest

  -- k in d
  abbrev pub has : Dict K V → K → Bool
  has d k = is_some (get d k)

  pub get-put :
      (d : Dict K V) (k j : K) (v : V) → get (put d k v) j ≡ (if k == j then some v else get d j)
  unfolding get put
  get-put [] k j v = refl
  get-put ((i, w) ∷ d) k j v =
      ground (arith, get-put d k j v, e.same_iff i k, e.same_iff i j, e.same_iff k j)

  pub get-remove :
      (d : Dict K V) (k j : K) → get (remove d k) j ≡ (if k == j then none else get d j)
  unfolding get remove
  get-remove [] k j = ground arith
  get-remove ((i, w) ∷ d) k j =
      ground (arith, get-remove d k j, e.same_iff i k, e.same_iff i j, e.same_iff k j)

  -- No key stands twice, as in every dictionary that the operations build.
  abbrev pub Distinct : Dict K V → Type 0
  Distinct [] = Unit
  Distinct ((k, v) ∷ d) = (has d k ≡ false) × Distinct d

  pub put-Distinct : (d : Dict K V) (k : K) (v : V) → Distinct d → Distinct (put d k v)
  unfolding put get
  put-Distinct [] k v h = (refl, tt)
  put-Distinct ((j, w) ∷ d) k v (a, h) = elim (Bool-cases (j == k)) [
    | inl p ↦ rw p (a, h)
    | inr p ↦
        rw p (ground (arith, get-put d k j v, e.same_iff k j, e.same_iff j k), put-Distinct d k v h)
  ]

  pub remove-Distinct : (d : Dict K V) (k : K) → Distinct d → Distinct (remove d k)
  unfolding remove get
  remove-Distinct [] k h = tt
  remove-Distinct ((j, w) ∷ d) k (a, h) = elim (Bool-cases (j == k)) [
    | inl p ↦ rw p (remove-Distinct d k h)
    | inr p ↦ rw p (ground (arith, a, get-remove d k j), remove-Distinct d k h)
  ]

  pub get-cons_here : (d : Dict K V) (k : K) (v : V) → get ((k, v) ∷ d) k ≡ some v
  unfolding get
  get-cons_here d k v = rw ((e.same_iff k k).1 refl) refl

  -- A new key in front.
  pub get-cons_kept :
      (d : Dict K V) (k j : K) (v x : V)
      → has d k ≡ false
      → get d j ≡ some x
      → get ((k, v) ∷ d) j ≡ some x
  unfolding get
  get-cons_kept d k j v x off h = elim (Bool-cases (k == j)) [
    | inl c ↦
        let same : get d j ≡ get d k = ap (get d) (sym ((e.same_iff k j).0 c)) in
        absurd (ground (arith, off, ap is_some (sym same ∙ h)))
    | inr c ↦ rw c h
  ]

  pub get-cons_cases :
      (d : Dict K V) (k j : K) (v x : V)
      → get ((k, v) ∷ d) j ≡ some x
      → (get d j ≡ some x) ⊎ ((k ≡ j) × (v ≡ x))
  unfolding get
  get-cons_cases d k j v x h = elim (Bool-cases (k == j)) [
    | inl c ↦ inr (
      (e.same_iff k j).0 c,
      some-injective v x (subst (λ b. (if b then some v else get d j) ≡ some x) c h),
    )
    | inr c ↦ inl (subst (λ b. (if b then some v else get d j) ≡ some x) c h)
  ]
