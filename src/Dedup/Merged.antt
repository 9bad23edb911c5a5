-- ===== src/Dedup/Merged.antt =====
-- The unions of src/mcm_engine/dedup.py, and what `find` gives after them.
use mcm_engine.Base.{
  ℕ, zero, suc, ◌+◌, ◌-◌, ◌<◌, ◌≡◌, ◌↔◌, refl, sym, ap, ◌∙◌, subst, true, false, some, List, [],
  ◌∷◌, ◌==◌, nat_eq, if◌then◌else◌, arith, Bool-cases, inl, inr, length,
}
use mcm_engine.Base.Dict.{Dict, get, put}
use mcm_engine.Dedup.UnionFind.{parent_of, find, union, union_all}
use mcm_engine.Dedup.Roots.{
  IsRoot, IsRoot-parent, IsRoot-root, IsRoot-self, parent_of-put, find_root,
}
use mcm_engine.Dedup.Spec.{merge, merge_all, merge_all_joins, Joined}

-- Every id has its representative as its root, at most `n` steps up.
abbrev pub HasRoots : Dict ℕ ℕ → ℕ → (ℕ → ℕ) → Type 0
HasRoots d n rep = (x : ℕ) → IsRoot d n x (rep x)

IsRoot-suc : (d : Dict ℕ ℕ) (n x r : ℕ) → IsRoot d n x r → IsRoot d (suc n) x r
unfolding IsRoot
IsRoot-suc d n x r h = IsRoot-parent d n x r h

IsRoot-up : (k : ℕ) (d : Dict ℕ ℕ) (n x r : ℕ) → IsRoot d n x r → IsRoot d (k + n) x r
IsRoot-up zero d n x r h = subst (λ m. IsRoot d m x r) (omega arith) h
IsRoot-up (suc k) d n x r h =
    subst (λ m. IsRoot d m x r) (omega arith) (IsRoot-suc d (k + n) x r (IsRoot-up k d n x r h))

IsRoot-stay : (d : Dict ℕ ℕ) (n x : ℕ) → parent_of d x ≡ x → IsRoot d n x x
unfolding IsRoot
IsRoot-stay d zero x h = (refl, h)
IsRoot-stay d (suc n) x h = subst (λ y. IsRoot d n y x) (sym h) (IsRoot-stay d n x h)

-- One root is hung under another one.
IsRoot-link :
    (d : Dict ℕ ℕ) (ra rb n y s : ℕ)
    → (ra == rb) ≡ false
    → parent_of d ra ≡ ra
    → parent_of d rb ≡ rb
    → IsRoot d n y s
    → IsRoot (put d ra rb) (suc n) y (if s == ra then rb else s)
unfolding IsRoot
IsRoot-link d ra rb zero y s apart pa pb (p, q) =
    subst (λ z. IsRoot (put d ra rb) zero z (if s == ra then rb else s))
      (sym (parent_of-put d ra rb y))
      (elim (Bool-cases (ra == y)) [
        | inl c ↦
            let at : (s == ra) ≡ true =
              ground (arith, p, nat_eq.same_iff ra y, nat_eq.same_iff s ra) in
            rw (c, at) (refl, parent_of-put d ra rb rb ∙ rw apart pb)
        | inr c ↦
            let off : (s == ra) ≡ false =
              ground (arith, p, nat_eq.same_iff ra y, nat_eq.same_iff s ra) in
            rw (c, off)
              (q ∙ p, ap (parent_of (put d ra rb)) q ∙ parent_of-put d ra rb y ∙ rw c refl)
      ])
IsRoot-link d ra rb (suc n) y s apart pa pb h =
    subst (λ z. IsRoot (put d ra rb) (suc n) z (if s == ra then rb else s))
      (sym (parent_of-put d ra rb y))
      (elim (Bool-cases (ra == y)) [
        | inl c ↦
            let y_is = (nat_eq.same_iff ra y).0 c in
            let s_is : y ≡ s =
              IsRoot-self d (suc n) y s (subst (λ z. parent_of d z ≡ z) y_is pa) h in
            let at : (s == ra) ≡ true = (nat_eq.same_iff s ra).1 (sym s_is ∙ sym y_is) in
            rw (c, at)
              (IsRoot-stay (put d ra rb) (suc n) rb (parent_of-put d ra rb rb ∙ rw apart pb))
        | inr c ↦ rw c (IsRoot-link d ra rb n (parent_of d y) s apart pa pb h)
      ])

union-HasRoots :
    (k n a b : ℕ) (rep : ℕ → ℕ) (d : Dict ℕ ℕ)
    → HasRoots d n rep
    → (after : Dict ℕ ℕ) × (union (suc (k + n)) a b d ≡ some after)
      × HasRoots after (suc n) (merge a b rep)
unfolding union merge
union-HasRoots k n a b rep d h =
    let (found, p, kept) = find_root (k + n) d a (rep a) (IsRoot-up k d n a (rep a) (h a)) in
    let h' : HasRoots found n rep = λ x. kept n x (rep x) (h x) in
    let (both, q, kept') =
      find_root (k + n) found b (rep b) (IsRoot-up k found n b (rep b) (h' b)) in
    let h'' : HasRoots both n rep = λ x. kept' n x (rep x) (h' x) in
    elim (Bool-cases (rep a == rep b)) [
      | inl c ↦
          let one = (nat_eq.same_iff (rep a) (rep b)).0 c in
          (
            both,
            rw (union, p, q, c) refl,
            λ x.
                subst (IsRoot both (suc n) x)
                  (elim (Bool-cases (rep x == rep a)) [
                    | inl e ↦ rw e ((nat_eq.same_iff (rep x) (rep a)).0 e ∙ one)
                    | inr e ↦ rw e refl
                  ])
                  (IsRoot-suc both n x (rep x) (h'' x)),
          )
      | inr c ↦ (
        put both (rep a) (rep b),
        rw (union, p, q, c) refl,
        λ x.
            IsRoot-link both (rep a) (rep b) n x (rep x) c (IsRoot-root both n a (rep a) (h'' a))
              (IsRoot-root both n b (rep b) (h'' b)) (h'' x),
      )
    ]

union_all-HasRoots :
    (pairs : List (ℕ × ℕ)) (fuel n : ℕ) (rep : ℕ → ℕ) (d : Dict ℕ ℕ)
    → n + length pairs < fuel
    → HasRoots d n rep
    → (after : Dict ℕ ℕ) × (union_all fuel pairs d ≡ some after)
      × HasRoots after (n + length pairs) (merge_all pairs rep)
unfolding union_all merge_all
union_all-HasRoots [] fuel n rep d b h =
    (d, refl, λ x. subst (λ m. IsRoot d m x (rep x)) (omega arith) (h x))
union_all-HasRoots ((p, q) ∷ pairs) fuel n rep d b h =
    let enough : suc ((fuel - suc n) + n) ≡ fuel = omega (arith, b) in
    let (merged, done, roots) = union-HasRoots (fuel - suc n) n p q rep d h in
    let (after, rest, last) =
      union_all-HasRoots pairs fuel (suc n) (merge p q rep) merged (omega (arith, b)) roots in
    (
      after,
      rw (union_all, subst (λ f. union f p q d ≡ some merged) enough done) rest,
      λ x. subst (λ m. IsRoot after m x (merge_all pairs (merge p q rep) x)) (omega arith) (last x),
    )

-- The unions of any pairs of ids, from nothing, come to their end with fuel above the number of pairs,
-- and so does each `find` after them. What it gives for two ids is the same exactly where the least
-- equivalence that holds the pairs joins the two.
pub union_all_joins :
    (pairs : List (ℕ × ℕ)) (fuel : ℕ)
    → length pairs < fuel
    → (after : Dict ℕ ℕ) × (root : ℕ → ℕ) × (union_all fuel pairs [] ≡ some after)
      × ((x : ℕ) → (rest : Dict ℕ ℕ) × (find fuel x after ≡ some (root x, rest)))
      × ((x y : ℕ) → (root x ≡ root y) ↔ Joined (λ id. id) pairs x y)
unfolding IsRoot parent_of get
union_all_joins pairs fuel b =
    let root = merge_all pairs (λ id. id) in
    let alone : HasRoots [] 0 (λ id. id) = λ x. (refl, refl) in
    let (after, done, roots) =
      union_all-HasRoots pairs fuel 0 (λ id. id) [] (omega (arith, b)) alone in
    let n = 0 + length pairs in
    let enough : suc ((fuel - suc n) + n) ≡ fuel = omega (arith, b) in
    (
      after,
      root,
      done,
      λ x.
          let (rest, p, kept) =
            find_root ((fuel - suc n) + n) after x (root x)
              (IsRoot-up (fuel - suc n) after n x (root x) (roots x)) in
          (rest, subst (λ f. find f x after ≡ some (root x, rest)) enough p),
      λ x y. merge_all_joins pairs (λ id. id) x y,
    )
