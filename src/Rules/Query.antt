-- ===== src/Rules/Query.antt =====
-- The queries on one column of src/mcm_engine/adapters/sqlite/storage.py, which give the first row of
-- the table that passes, and what a write of one row does to them.
use mcm_engine.Base.{
  ◌<◌, ℕ, ◌≡◌, refl, sym, ap, ◌∙◌, String, Bool, true, false, Option, none, some, [], ◌∷◌, All,
  arith, ◌==◌, nat_eq, string_eq, if◌then◌else◌, map_option, Bool-cases, inl, inr, subst, is_some,
}
use mathlib.Core.Option.{some-injective}
use mcm_engine.Base.Dict.{Dict, get, put, Distinct, put-Distinct}
use mcm_engine.Entries.Rows.{RuleRow}
use mcm_engine.Rules.State.{Store, max_id}

-- `SELECT * FROM rules WHERE ...`, `fetchone`
unfoldable pub first_row : (RuleRow → Bool) → Dict ℕ RuleRow → Option (ℕ × RuleRow)
first_row p [] = none
first_row p ((id, row) ∷ rows) =
    let later = first_row p rows in if p row then some (id, row) else later

abbrev pub has_title : String → RuleRow → Bool
has_title title row = row.title == title

abbrev pub has_file_path : String → RuleRow → Bool
has_file_path path row = elim row.file_path [ none ↦ false | some p ↦ p == path ]

unfoldable pub find_rule_by_title : String → Store → Option RuleRow
find_rule_by_title title s = map_option (λ entry. entry.1) (first_row (has_title title) s.rules)

unfoldable pub find_rule_by_file_path : String → Store → Option RuleRow
find_rule_by_file_path path s =
    map_option (λ entry. entry.1) (first_row (has_file_path path) s.rules)

-- The keys are the rows' ids, and none stands twice.
pub record IsTable (d : Dict ℕ RuleRow) : Type 0 where
  pub distinct : Distinct d
  pub keyed : All (λ (entry : ℕ × RuleRow). entry.1.id ≡ entry.0) d

All-put :
    (P : ℕ × RuleRow → Type 0) (d : Dict ℕ RuleRow) (id : ℕ) (row : RuleRow)
    → All P d
    → P (id, row)
    → All P (put d id row)
unfolding put
All-put P [] id row h p = (p, tt)
All-put P ((j, w) ∷ d) id row (q, h) p = elim (Bool-cases (j == id)) [
  | inl c ↦ rw c (subst (λ k. P (k, row)) (sym ((nat_eq.same_iff j id).0 c)) p, h)
  | inr c ↦ rw c (q, All-put P d id row h p)
]

pub IsTable-put :
    (d : Dict ℕ RuleRow) (id : ℕ) (row : RuleRow) → IsTable d → row.id ≡ id → IsTable (put d id row)
IsTable-put d id row t p = record {
  distinct = put-Distinct d id row t.distinct;
  keyed = All-put (λ (entry : ℕ × RuleRow). entry.1.id ≡ entry.0) d id row t.keyed p;
}

-- An entry behind the first one has another key.
pub apart :
    (j : ℕ) (w : RuleRow) (d : Dict ℕ RuleRow) (id : ℕ) (row : RuleRow)
    → is_some (get d j) ≡ false
    → get d id ≡ some row
    → get ((j, w) ∷ d) id ≡ some row
unfolding get
apart j w d id row h g = elim (Bool-cases (j == id)) [
  | inl c ↦
      absurd
        (cc (subst (λ k. is_some (get d k) ≡ false) ((nat_eq.same_iff j id).0 c) h, ap is_some g))
  | inr c ↦ rw c g
]

-- The row that a query gives is the row of its id.
pub first_row-found :
    (p : RuleRow → Bool) (d : Dict ℕ RuleRow) (id : ℕ) (row : RuleRow)
    → IsTable d
    → first_row p d ≡ some (id, row)
    → (get d id ≡ some row) × (row.id ≡ id) × (p row ≡ true)
unfolding first_row get
first_row-found p [] id row t h = absurd (ground arith)
first_row-found p ((j, w) ∷ d) id row t h = elim (Bool-cases (p w)) [
  | inl c ↦
      let pair : (j, w) ≡ (id, row) =
        some-injective _ _
          (subst (λ b. (if b then some (j, w) else first_row p d) ≡ some (id, row)) c h) in
      let j_is : j ≡ id = ap (λ (x : ℕ × RuleRow). x.0) pair in
      let w_is : w ≡ row = ap (λ (x : ℕ × RuleRow). x.1) pair in
      rw (← j_is, ← w_is) (rw ((nat_eq.same_iff j j).1 refl) refl, t.keyed.0, c)
  | inr c ↦
      let tail : first_row p d ≡ some (id, row) =
        subst (λ b. (if b then some (j, w) else first_row p d) ≡ some (id, row)) c h in
      let rest : IsTable d = record { distinct = t.distinct.1; keyed = t.keyed.1 } in
      let (g, k, q) = first_row-found p d id row rest tail in
      (apart j w d id row t.distinct.0 g, k, q)
]

pub first_row-fresh :
    (p : RuleRow → Bool) (d : Dict ℕ RuleRow) (id : ℕ) (row : RuleRow)
    → get d id ≡ none
    → first_row p d ≡ none
    → first_row p (put d id row) ≡ (if p row then some (id, row) else none)
unfolding first_row get put
first_row-fresh p [] id row g h = refl
first_row-fresh p ((j, w) ∷ d) id row g h = ground (arith, first_row-fresh p d id row)

pub first_row-replaced :
    (p : RuleRow → Bool) (d : Dict ℕ RuleRow) (id : ℕ) (old row : RuleRow)
    → first_row p d ≡ some (id, old)
    → p row ≡ true
    → first_row p (put d id row) ≡ some (id, row)
unfolding first_row put
first_row-replaced p [] id old row h q = absurd (ground arith)
first_row-replaced p ((j, w) ∷ d) id old row h q = elim (Bool-cases (p w)) [
  | inl c ↦
      let pair : (j, w) ≡ (id, old) =
        some-injective _ _
          (subst (λ b. (if b then some (j, w) else first_row p d) ≡ some (id, old)) c h) in
      let j_is : j ≡ id = ap (λ (x : ℕ × RuleRow). x.0) pair in
      rw (← j_is, (nat_eq.same_iff j j).1 refl) (rw (first_row, q) refl)
  | inr c ↦
      let tail : first_row p d ≡ some (id, old) =
        subst (λ b. (if b then some (j, w) else first_row p d) ≡ some (id, old)) c h in
      elim (Bool-cases (j == id)) [
        | inl f ↦ rw f (rw (first_row, q) (ap (λ k. some (k, row)) ((nat_eq.same_iff j id).0 f)))
        | inr f ↦ rw f (rw (first_row, c) (first_row-replaced p d id old row tail q))
      ]
]

pub first_row-other :
    (p : RuleRow → Bool) (d : Dict ℕ RuleRow) (id : ℕ) (old row : RuleRow)
    → get d id ≡ some old
    → p old ≡ false
    → p row ≡ false
    → first_row p (put d id row) ≡ first_row p d
unfolding first_row get put
first_row-other p [] id old row g q r = absurd (ground arith)
first_row-other p ((j, w) ∷ d) id old row g q r = elim (Bool-cases (j == id)) [
  | inl f ↦
      let same : some w ≡ some old = subst (λ b. (if b then some w else get d id) ≡ some old) f g in
      let w_is : w ≡ old = some-injective w old same in
      let failed : p w ≡ false = ap p w_is ∙ q in rw f (rw (first_row, r, failed) refl)
  | inr f ↦
      let tail : get d id ≡ some old =
        subst (λ b. (if b then some w else get d id) ≡ some old) f g in
      rw f (rw (first_row, first_row-other p d id old row tail q r) refl)
]

pub first_row-unseen :
    (p : RuleRow → Bool) (d : Dict ℕ RuleRow) (id : ℕ) (row : RuleRow)
    → get d id ≡ none
    → p row ≡ false
    → first_row p (put d id row) ≡ first_row p d
unfolding first_row get put
first_row-unseen p [] id row g r = ground arith
first_row-unseen p ((j, w) ∷ d) id row g r = ground (arith, first_row-unseen p d id row)

-- No row has an id above the largest.
pub fresh : (d : Dict ℕ RuleRow) (id : ℕ) → max_id d < id → get d id ≡ none
unfolding max_id get
fresh [] id h = refl
fresh ((j, w) ∷ d) id h = ground (arith, fresh d id)
