-- ===== src/Rules/Columns.antt =====
-- The assignments of `update_rule` in src/mcm_engine/adapters/sqlite/storage.py keep the row's id, its status and its successor.
use mcm_engine.Base.{
  ℕ, String, Bool, true, false, Option, none, some, List, [], ◌∷◌, ◌==◌, ◌≡◌, refl, nat_eq,
  string_eq, if◌then◌else◌, Option-cases, inl, inr, subst, map_option,
}
use mcm_engine.Entries.Rows.{RuleRow}
use mcm_engine.Rules.Store.{set_column, set_columns}

-- What no assignment touches.
abbrev pub core : RuleRow → ℕ × String × Option ℕ
core row = (row.id, row.status, row.superseded_by)

-- A row, if there is one, with these values.
unfoldable pub HasCore : ℕ × String × Option ℕ → Option RuleRow → Type 0
HasCore n none = Unit
HasCore n (some row) = core row ≡ n

HasCore-if :
    (n : ℕ × String × Option ℕ) (b : Bool) (x y : Option RuleRow)
    → HasCore n x
    → HasCore n y
    → HasCore n (if b then x else y)
HasCore-if n true x y p q = p
HasCore-if n false x y p q = q

core-if :
    (n : ℕ × String × Option ℕ) (b : Bool) (x y : RuleRow)
    → core x ≡ n
    → core y ≡ n
    → core (if b then x else y) ≡ n
core-if n true x y p q = p
core-if n false x y p q = q

HasCore-map :
    (row : RuleRow) (change : String → RuleRow) (v : Option String)
    → ((t : String) → core (change t) ≡ core row)
    → HasCore (core row) (map_option change v)
unfolding HasCore
HasCore-map row change none h = tt
HasCore-map row change (some t) h = h t

HasCore-set_column :
    (k : String) (v : Option String) (row : RuleRow) → HasCore (core row) (set_column k v row)
unfolding set_column HasCore
HasCore-set_column k v row =
    let n = core row in
    HasCore-if n (k == "title") _ _ (HasCore-map row _ v (λ _. refl)) (
      HasCore-if n (k == "keywords") _ _ (HasCore-map row _ v (λ _. refl)) (
        core-if n (k == "file_path") _ _ refl (
          core-if n (k == "description") _ _ refl (
            core-if n (k == "category") _ _ refl (
              core-if n (k == "content_hash") _ _ refl (
                core-if n (k == "content") _ _ refl (
                  core-if n (k == "created_by") _ _ refl
                    (core-if n (k == "updated_by") _ _ refl refl))))))))

pub HasCore-set_columns :
    (fields : List (String × Option String)) (row : RuleRow)
    → HasCore (core row) (set_columns fields row)
unfolding set_columns HasCore
HasCore-set_columns [] row = refl
HasCore-set_columns ((k, v) ∷ fields) row =
    let first = HasCore-set_column k v row in
    elim (Option-cases (set_column k v row)) [
      | inl q ↦ rw (HasCore, set_columns, q) tt
      | inr (next, q) ↦
          let kept : core next ≡ core row = subst (HasCore (core row)) q first in
          rw (set_columns, q)
            (subst (λ n. HasCore n (set_columns fields next)) kept
              (HasCore-set_columns fields next))
    ]
