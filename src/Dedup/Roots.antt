-- ===== src/Dedup/Roots.antt =====
-- `find` of src/mcm_engine/dedup.py comes to its end, gives the root, and keeps every root.
use mcm_engine.Base.{
  ℕ, zero, suc, ◌≡◌, refl, sym, ap, ◌∙◌, subst, some, ◌==◌, nat_eq, if◌then◌else◌, or_else, arith,
  Bool-cases, Option-cases, inl, inr, same_refl,
}
use mcm_engine.Base.Dict.{Dict, get, put, get-put}
use mcm_engine.Dedup.UnionFind.{setdefault, parent_of, find_loop, find}

-- `n` steps up from `x` there is `r`, and `r` is its own parent.
unfoldable pub IsRoot : Dict ℕ ℕ → ℕ → ℕ → ℕ → Type 0
IsRoot d zero x r = (x ≡ r) × (parent_of d x ≡ x)
IsRoot d (suc n) x r = IsRoot d n (parent_of d x) r

pub parent_of-put :
    (d : Dict ℕ ℕ) (k v x : ℕ) → parent_of (put d k v) x ≡ (if k == x then v else parent_of d x)
unfolding parent_of
parent_of-put d k v x = rw (get-put d k x v) (ground arith)

pub parent_of-setdefault : (d : Dict ℕ ℕ) (k x : ℕ) → parent_of (setdefault d k) x ≡ parent_of d x
unfolding setdefault parent_of
parent_of-setdefault d k x = elim (Option-cases (get d k)) [
  | inl p ↦
      rw (setdefault, p, get-put d k x k)
        (elim (Bool-cases (k == x)) [
          | inl c ↦
              let same = (nat_eq.same_iff k x).0 c in
              rw c (same ∙ ap (λ o. or_else o x) (sym p ∙ ap (get d) same))
          | inr c ↦ rw c refl
        ])
  | inr (v, p) ↦ rw (setdefault, p) refl
]

-- The same parents, the same roots.
pub IsRoot-same :
    (d after : Dict ℕ ℕ) (n x r : ℕ)
    → ((y : ℕ) → parent_of after y ≡ parent_of d y)
    → IsRoot d n x r
    → IsRoot after n x r
unfolding IsRoot
IsRoot-same d after zero x r same (p, q) = (p, same x ∙ q)
IsRoot-same d after (suc n) x r same h =
    subst (λ y. IsRoot after n y r) (sym (same x)) (IsRoot-same d after n (parent_of d x) r same h)

pub IsRoot-parent : (d : Dict ℕ ℕ) (n x r : ℕ) → IsRoot d n x r → IsRoot d n (parent_of d x) r
unfolding IsRoot
IsRoot-parent d zero x r (p, q) = (q ∙ p, ap (parent_of d) q)
IsRoot-parent d (suc n) x r h = IsRoot-parent d n (parent_of d x) r h

pub IsRoot-root : (d : Dict ℕ ℕ) (n x r : ℕ) → IsRoot d n x r → parent_of d r ≡ r
unfolding IsRoot
IsRoot-root d zero x r (p, q) = rw (← p) q
IsRoot-root d (suc n) x r h = IsRoot-root d n (parent_of d x) r h

-- A root is its own root.
pub IsRoot-self : (d : Dict ℕ ℕ) (n x r : ℕ) → parent_of d x ≡ x → IsRoot d n x r → x ≡ r
unfolding IsRoot
IsRoot-self d zero x r q (p, _) = p
IsRoot-self d (suc n) x r q h = IsRoot-self d n x r q (subst (λ y. IsRoot d n y r) q h)

-- Hanging an id under its grandparent keeps the roots and lengthens no way.
pub IsRoot-halve :
    (d : Dict ℕ ℕ) (x n y r : ℕ)
    → IsRoot d n y r
    → IsRoot (put d x (parent_of d (parent_of d x))) n y r
unfolding IsRoot
IsRoot-halve d x zero y r (p, q) =
    let g = parent_of d (parent_of d x) in
    (
      p,
      parent_of-put d x g y ∙ elim (Bool-cases (x == y)) [
        | inl c ↦
            let same = (nat_eq.same_iff x y).0 c in
            rw c (ap (λ z. parent_of d (parent_of d z)) same ∙ ap (parent_of d) q ∙ q)
        | inr c ↦ rw c q
      ],
    )
IsRoot-halve d x (suc n) y r h =
    let g = parent_of d (parent_of d x) in
    subst (λ z. IsRoot (put d x g) n z r) (sym (parent_of-put d x g y))
      (elim (Bool-cases (x == y)) [
        | inl c ↦
            let same = (nat_eq.same_iff x y).0 c in
            let up = IsRoot-parent d n (parent_of d y) r h in
            rw c (
              IsRoot-halve d x n g r
                (subst (λ z. IsRoot d n (parent_of d (parent_of d z)) r) (sym same) up))
        | inr c ↦ rw c (IsRoot-halve d x n (parent_of d y) r h)
      ])

-- All roots are kept, at their distance.
abbrev pub KeepsRoots : Dict ℕ ℕ → Dict ℕ ℕ → Type 0
KeepsRoots d after = (n y r : ℕ) → IsRoot d n y r → IsRoot after n y r

find_loop-root :
    (n : ℕ) (d : Dict ℕ ℕ) (x r : ℕ)
    → IsRoot d n x r
    → (after : Dict ℕ ℕ) × (find_loop (suc n) d x (parent_of d x) ≡ some (r, after))
      × KeepsRoots d after
unfolding find_loop IsRoot
find_loop-root zero d x r (p, q) =
    (d, rw (find_loop, q, same_refl x) (ap (λ z. some (z, d)) p), λ n y s h. h)
find_loop-root (suc n) d x r h = elim (Bool-cases (parent_of d x == x)) [
  | inl c ↦
      let own : x ≡ r = IsRoot-self d (suc n) x r ((nat_eq.same_iff (parent_of d x) x).0 c) h in
      (d, rw (find_loop, c) (ap (λ z. some (z, d)) own), λ m y s k. k)
  | inr c ↦
      let p = parent_of d x in
      let known = setdefault d p in
      let g = parent_of known p in
      let next = put known x g in
      let same = parent_of-setdefault d p in
      let halved : KeepsRoots d next = λ m y s k.
        subst (λ v. IsRoot (put known x v) m y s) (ap (parent_of known) (same x))
          (IsRoot-halve known x m y s (IsRoot-same d known m y s same k)) in
      let up : parent_of next p ≡ g =
        parent_of-put known x g p ∙ ground (arith, c, nat_eq.same_iff x p, nat_eq.same_iff p x) in
      let (after, q, kept) = find_loop-root n next p r (halved n p r h) in
      (
        after,
        rw (find_loop, c) (subst (λ v. find_loop (suc n) next p v ≡ some (r, after)) up q),
        λ m y s k. kept m y s (halved m y s k),
      )
]

-- From an id whose root is `n` steps up, `find` comes to its end in `n + 1` rounds, whatever the dict, and
-- gives the root; every id keeps its root, at no greater distance.
pub find_root :
    (n : ℕ) (d : Dict ℕ ℕ) (x r : ℕ)
    → IsRoot d n x r
    → (after : Dict ℕ ℕ) × (find (suc n) x d ≡ some (r, after)) × KeepsRoots d after
unfolding find
find_root n d x r h =
    let same = parent_of-setdefault d x in
    let (after, q, kept) =
      find_loop-root n (setdefault d x) x r (IsRoot-same d (setdefault d x) n x r same h) in
    (
      after,
      subst (λ p. find_loop (suc n) (setdefault d x) x p ≡ some (r, after)) (same x) q,
      λ m y s k. kept m y s (IsRoot-same d (setdefault d x) m y s same k),
    )
