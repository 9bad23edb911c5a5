-- ===== src/Watcher/Reaped.antt =====
-- The sweep of `sync_once` in src/mcm_engine/files/watcher.py: it leaves no orphan, and no rule whose
-- file is there is touched.
use mcm_engine.Base.{
  ℕ, ◌≡◌, refl, ap, ◌∙◌, String, Bool, true, not, ◌&&◌, some, List, [], ◌∷◌, ◌==◌, string_eq,
  nat_eq, if◌then◌else◌, Bool-cases, inl, inr, subst, arith, contains, same_refl, All, filter, map,
}
use mathlib.Core.Option.{some-injective}
use mcm_engine.Base.Dict.{Dict, get}
use mcm_engine.Entries.Rows.{RuleRow}
use mcm_engine.Rules.State.{Store}
use mcm_engine.Rules.Query.{IsTable, apart}
use mcm_engine.Watcher.Links.{has_path, list_rules_with_file_paths, path_of}
use mcm_engine.Watcher.Sync.{Setting, managed, orphans}

-- The rows, with their ids.
abbrev pub rows {κ} : {V : Type κ} → Dict ℕ V → List V
rows d = map (λ entry. entry.1) d

unfoldable pub is_orphan : Setting → List String → RuleRow → Bool
is_orphan c seen row =
    has_path row
    && (not row.archived && c.is_managed_path (path_of row))
    && not (contains seen (path_of row))

filter-filter {ℓ} :
    {A : Type ℓ}
    → (p q : A → Bool) (xs : List A) → filter p (filter q xs) ≡ filter (λ x. q x && p x) xs
filter-filter p q [] = refl
filter-filter p q (x ∷ xs) = ground (arith, filter-filter p q xs)

filter-ext {ℓ} :
    {A : Type ℓ}
    → (p q : A → Bool) (xs : List A) → ((x : A) → p x ≡ q x)
    → filter p xs ≡ filter q xs
filter-ext p q [] h = refl
filter-ext p q (x ∷ xs) h = ground (arith, filter-ext p q xs h, h x)

is_orphan-parts :
    (c : Setting) (seen : List String) (row : RuleRow)
    → (has_path row
        && ((not row.archived && c.is_managed_path (path_of row))
            && not (contains seen (path_of row))))
      ≡ is_orphan c seen row
unfolding is_orphan
is_orphan-parts c seen row = ground arith

pub orphans-filter :
    (c : Setting) (seen : List String) (s : Store)
    → orphans c seen s ≡ filter (is_orphan c seen) (rows s.rules)
unfolding orphans managed list_rules_with_file_paths
orphans-filter c seen s =
    filter-filter _ _ (filter has_path (rows s.rules))
    ∙ filter-filter _ _ (rows s.rules)
    ∙ filter-ext _ (is_orphan c seen) (rows s.rules) (is_orphan-parts c seen)

-- A table gives its entries.
pub Entries-get :
    (d whole : Dict ℕ RuleRow)
    → ((id : ℕ) (row : RuleRow) → get d id ≡ some row → get whole id ≡ some row)
    → IsTable d
    → All (λ (entry : ℕ × RuleRow). (entry.1.id ≡ entry.0) × (get whole entry.0 ≡ some entry.1)) d
unfolding get
Entries-get [] whole into h = tt
Entries-get ((j, w) ∷ d) whole into h = (
  (h.keyed.0, into j w (rw (same_refl j) refl)),
  Entries-get d whole (λ id row g. into id row (apart j w d id row h.distinct.0 g))
      (record { distinct = h.distinct.1; keyed = h.keyed.1 }),
)

pub All-filter {κ} :
    (P : RuleRow → Type κ) (Q : ℕ × RuleRow → Type 0) (p : RuleRow → Bool) (d : Dict ℕ RuleRow)
    → ((entry : ℕ × RuleRow) → Q entry → p entry.1 ≡ true → P entry.1)
    → All Q d
    → All P (filter p (rows d))
All-filter P Q p [] into h = tt
All-filter P Q p (entry ∷ d) into (q, h) = elim (Bool-cases (p entry.1)) [
  | inl c ↦ rw c (into entry q c, All-filter P Q p d into h)
  | inr c ↦ rw c (All-filter P Q p d into h)
]

pub filter-none :
    (p : RuleRow → Bool) (d : Dict ℕ RuleRow)
    → IsTable d
    → ((id : ℕ) (row : RuleRow) → get d id ≡ some row → p row ≡ true → ⊥)
    → filter p (rows d) ≡ []
filter-none p d h never =
    let absent : All (λ _. ⊥) (filter p (rows d)) =
      All-filter (λ _. ⊥)
        (λ (entry : ℕ × RuleRow). (entry.1.id ≡ entry.0) × (get d entry.0 ≡ some entry.1)) p d
        (λ entry q c. never entry.0 entry.1 q.1 c) (Entries-get d d (λ id row g. g) h) in
    empty (filter p (rows d)) absent
  where
    empty : (xs : List RuleRow) → All (λ _. ⊥) xs → xs ≡ []
    empty [] n = refl
    empty (x ∷ xs) (n, m) = absurd n

pub listed :
    (p : RuleRow → Bool) (d : Dict ℕ RuleRow) (id : ℕ) (row : RuleRow)
    → IsTable d
    → get d id ≡ some row
    → p row ≡ true
    → contains (map (λ r. r.id) (filter p (rows d))) id ≡ true
unfolding get contains
listed p [] id row h g c = absurd (ground arith)
listed p ((j, w) ∷ d) id row h g c =
    let rest : IsTable d = record { distinct = h.distinct.1; keyed = h.keyed.1 } in
    elim (Bool-cases (j == id)) [
      | inl q ↦
          let w_is : w ≡ row =
            some-injective w row (subst (λ b. (if b then some w else get d id) ≡ some row) q g) in
          let named : (w.id == id) ≡ true = rw h.keyed.0 q in
          rw (ap p w_is ∙ c) (rw (contains, named) refl)
      | inr q ↦
          let tail = subst (λ b. (if b then some w else get d id) ≡ some row) q g in
          elim (Bool-cases (p w)) [
            | inl r ↦ rw r (rw (contains, listed p d id row rest tail c) (ground arith))
            | inr r ↦ rw r (listed p d id row rest tail c)
          ]
    ]
