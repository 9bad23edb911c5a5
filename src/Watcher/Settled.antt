-- ===== src/Watcher/Settled.antt =====
-- What `_cascade_upsert` of src/mcm_engine/files/watcher.py leaves: a file's rule is current, other paths
-- have the rules that they had, and a recalled rule is as it was.
use mcm_engine.Base.{
  ℕ, ◌≡◌, refl, sym, ap, ◌∙◌, String, Bool, true, false, ◌||◌, none, some, ◌==◌, string_eq, nat_eq,
  Option-cases, Bool-cases, inl, inr, map_option, subst, arith, same_refl,
}
use mathlib.Core.Option.{some-injective}
use mcm_engine.Base.Dict.{Dict, get, put, get-put}
use mcm_engine.Entries.Rows.{RuleRow}
use mcm_engine.Rules.Query.{
  first_row, has_file_path, IsTable, IsTable-put, first_row-found, first_row-fresh,
  first_row-replaced, first_row-other, first_row-unseen,
}
use mcm_engine.Watcher.Cascade.{Parsed, is_same}

-- There is nothing to do for the file.
abbrev pub is_current : Parsed → RuleRow → Bool
is_current parsed row = row.status == "recalled" || is_same parsed row

-- The file's rule is there, and is current.
abbrev pub Settled : String → Parsed → Dict ℕ RuleRow → Type 0
Settled path parsed rules =
    map_option (λ (entry : ℕ × RuleRow). is_current parsed entry.1)
      (first_row (has_file_path path) rules)
    ≡ some true

pub record Upserted (path : String) (parsed : Parsed) (d after : Dict ℕ RuleRow) : Type 0 where
  pub table : IsTable after
  pub settled : Settled path parsed after
  pub others :
      (other : String)
      → (path == other) ≡ false
      → first_row (has_file_path other) after ≡ first_row (has_file_path other) d
  pub frozen :
      (id : ℕ) (row : RuleRow)
      → get d id ≡ some row
      → (row.status == "recalled") ≡ true
      → get after id ≡ some row

file_path_is :
    (path : String) (row : RuleRow) → has_file_path path row ≡ true → row.file_path ≡ some path
file_path_is path row h = elim (Option-cases row.file_path) [
  | inl p ↦ absurd (cc (subst (λ o. (elim o [ none ↦ false | some p ↦ p == path ]) ≡ true) p h))
  | inr (q, p) ↦
      p
      ∙ ap some (
          (string_eq.same_iff q path).0
            (subst (λ o. (elim o [ none ↦ false | some p ↦ p == path ]) ≡ true) p h))
]

-- A row with the path has no other one.
other_path :
    (path other : String) (row : RuleRow)
    → row.file_path ≡ some path
    → (path == other) ≡ false
    → has_file_path other row ≡ false
other_path path other row h o =
    subst (λ f. (elim f [ none ↦ false | some p ↦ p == other ]) ≡ false) (sym h) o

this_path :
    (path : String) (row : RuleRow) → row.file_path ≡ some path → has_file_path path row ≡ true
this_path path row h =
    subst (λ f. (elim f [ none ↦ false | some p ↦ p == path ]) ≡ true) (sym h) (same_refl path)

pub Upserted-fresh :
    (path : String) (parsed : Parsed) (d : Dict ℕ RuleRow) (id : ℕ) (row : RuleRow)
    → IsTable d
    → get d id ≡ none
    → row.id ≡ id
    → row.file_path ≡ some path
    → is_current parsed row ≡ true
    → first_row (has_file_path path) d ≡ none
    → Upserted path parsed d (put d id row)
Upserted-fresh path parsed d id row h g i f c n = record {
  table = IsTable-put d id row h i;
  settled =
      rw (first_row-fresh (has_file_path path) d id row g n, this_path path row f) (ap some c);
  others =
      λ other o. first_row-unseen (has_file_path other) d id row g (other_path path other row f o);
  frozen = λ j old p r. get-put d id j row ∙ ground (arith, nat_eq.same_iff id j);
}

pub Upserted-old :
    (path : String) (parsed : Parsed) (d : Dict ℕ RuleRow) (id : ℕ) (old row : RuleRow)
    → IsTable d
    → first_row (has_file_path path) d ≡ some (id, old)
    → (old.status == "recalled") ≡ false
    → row.id ≡ old.id
    → row.file_path ≡ old.file_path
    → is_current parsed row ≡ true
    → Upserted path parsed d (put d id row)
Upserted-old path parsed d id old row h n s i f c =
    let (g, k, named) = first_row-found (has_file_path path) d id old h n in
    let was = file_path_is path old named in
    record {
      table = IsTable-put d id row h (i ∙ k);
      settled =
          rw (first_row-replaced (has_file_path path) d id old row n (this_path path row (f ∙ was)))
            (ap some c);
      others = λ other o.
          first_row-other (has_file_path other) d id old row g (other_path path other old was o)
            (other_path path other row (f ∙ was) o);
      frozen = λ j other p r. get-put d id j row ∙ elim (Bool-cases (id == j)) [
        | inl q ↦
            let same : some old ≡ some other =
              sym g ∙ ap (get d) ((nat_eq.same_iff id j).0 q) ∙ p in
            absurd
              (cc (ap (λ (w : RuleRow). w.status == "recalled") (some-injective _ _ same), s, r))
        | inr q ↦ rw q p
      ];
    }

pub Upserted-current :
    (path : String) (parsed : Parsed) (d : Dict ℕ RuleRow) (id : ℕ) (old : RuleRow)
    → IsTable d
    → first_row (has_file_path path) d ≡ some (id, old)
    → is_current parsed old ≡ true
    → Upserted path parsed d d
Upserted-current path parsed d id old h n c = record {
  table = h;
  settled = rw n (ap some c);
  others = λ other o. refl;
  frozen = λ j row p r. p;
}
