-- ===== src/Import/Found.antt =====
-- `import_rules` of src/mcm_engine/tools/rules.py in update mode: a valid batch is imported whole, and
-- each of its titles then names a rule with its content.
use mcm_engine.Base.{
  ℕ, ◌+◌, ◌≡◌, refl, sym, ap, ◌∙◌, String, Bool, true, false, not, ◌⊎◌, none, some, List, [], ◌∷◌,
  All, ◌==◌, string_eq, nat_eq, or_else, Equality, Option-cases, Bool-cases, inl, inr, map_option,
  subst, arith, contains, same_refl,
}
use mcm_engine.Base.Dict.{get, put}
use mcm_engine.Entries.Rows.{RuleRow, Entry}
use mcm_engine.Rules.State.{Store, max_id}
use mcm_engine.Rules.Mirror.{mirror_entry}
use mcm_engine.Rules.Store.{inserted_row}
use mcm_engine.Rules.Sync.{rules-mirror_entry}
use mcm_engine.Rules.Query.{
  first_row, has_title, find_rule_by_title, IsTable, first_row-found, fresh,
}
use mcm_engine.Ingest.Commit.{Source, insert_rule_event}
use mcm_engine.Import.Batch.{
  update, created, updated, skipped, Item, Line, row_of_item, log_import, update_existing,
  insert_new, apply_item, apply_items,
}
use mcm_engine.Import.Respond.{
  Rejection, normalized, reject, Validated, rejected, valid, validate_items, imported, tally, stops,
  import_valid, import_rules,
}
use mcm_engine.Import.Step.{
  rewritten, update_rule-rewritten, insert_rule-fresh, Written, Written-fresh, Written-old,
}

module _ {ℓ} {Digest : Type ℓ} ⦃e : Equality Digest⦄ (entry_hash : Entry → Digest)
    (sha256 : String → String) where
  rules-log_import :
      (source : Source) (now id : ℕ) (event_type : String) (it : Item) (s : Store)
      → (log_import entry_hash sha256 source now id event_type it s).rules ≡ s.rules
  unfolding log_import insert_rule_event
  rules-log_import source now id event_type it s = refl

  insert-Written :
      (source : Source) (now : ℕ) (it : Item) (s : Store)
      → IsTable s.rules
      → first_row (has_title it.title) s.rules ≡ none
      → (line : Line) × (t : Store) × (insert_new entry_hash sha256 source now it s
          ≡ some (line, t))
        × Written it s t
  unfolding insert_new inserted_row row_of_item
  insert-Written source now it s h f =
      let id = max_id s.rules + 1 in
      let row = inserted_row id now (row_of_item (sha256 it.content) source.actor it) in
      let after = mirror_entry entry_hash id (record s { rules = put s.rules id row }) in
      (
        record { title = it.title; status = created id },
        log_import entry_hash sha256 source now id "created" it after,
        rw (insert_new, insert_rule-fresh entry_hash now (sha256 it.content) source.actor it s)
            refl,
        Written-fresh it s _ id row h
            (rules-log_import source now id "created" it after ∙ rules-mirror_entry entry_hash id _)
            (fresh s.rules id (omega arith)) refl refl refl f,
      )

  update-Written :
      (source : Source) (now id : ℕ) (it : Item) (old : RuleRow) (s : Store)
      → IsTable s.rules
      → first_row (has_title it.title) s.rules ≡ some (id, old)
      → (line : Line) × (t : Store) × (update_existing entry_hash sha256 source now it old s
          ≡ some (line, t))
        × Written it s t
  unfolding update_existing rewritten
  update-Written source now id it old s h f =
      let (g, k, named) = first_row-found (has_title it.title) s.rules id old h f in
      let here : get s.rules old.id ≡ some old = subst (λ j. get s.rules j ≡ some old) (sym k) g in
      let found : first_row (has_title it.title) s.rules ≡ some (old.id, old) =
        subst (λ j. first_row (has_title it.title) s.rules ≡ some (j, old)) (sym k) f in
      let row = rewritten (sha256 it.content) source.actor now it old in
      let after = mirror_entry entry_hash old.id (record s { rules = put s.rules old.id row }) in
      let done =
        update_rule-rewritten entry_hash old.id now (sha256 it.content) source.actor it old s
          here in
      elim (Bool-cases (not (it.content == or_else old.content ""))) [
        | inl c ↦ (
          record { title = it.title; status = updated old.id },
          log_import entry_hash sha256 source now old.id "updated" it after,
          rw (update_existing, done, c) refl,
          Written-old it s _ old.id old row h
              (rules-log_import source now old.id "updated" it after
                ∙ rules-mirror_entry entry_hash old.id _)
              refl refl refl found,
        )
        | inr c ↦ (
          record { title = it.title; status = skipped old.id },
          after,
          rw (update_existing, done, c) refl,
          Written-old it s after old.id old row h (rules-mirror_entry entry_hash old.id _) refl refl
              refl found,
        )
      ]

  item-Written :
      (source : Source) (now : ℕ) (it : Item) (s : Store)
      → IsTable s.rules
      → (line : Line) × (t : Store) × (apply_item entry_hash sha256 update source now it s
          ≡ some (line, t))
        × Written it s t
  unfolding apply_item find_rule_by_title
  item-Written source now it s h = elim (Option-cases (first_row (has_title it.title) s.rules)) [
    | inl f ↦
        let (line, t, p, w) = insert-Written source now it s h f in
        (line, t, rw (apply_item, f) p, w)
    | inr ((id, old), f) ↦
        let (line, t, p, w) = update-Written source now id it old s h f in
        (line, t, rw (apply_item, f) p, w)
  ]

differ :
    (seen : List String) (a b : String)
    → contains seen a ≡ false
    → contains seen b ≡ true
    → (a == b) ≡ false
differ seen a b p q = elim (Bool-cases (a == b)) [
  | inl c ↦ absurd (cc (p, q, ap (contains seen) ((string_eq.same_iff a b).0 c)))
  | inr c ↦ c
]

-- The title names a rule that has the content.
abbrev pub IsFound : Store → Item → Type 0
IsFound t it =
    map_option (λ (row : RuleRow). row.content) (find_rule_by_title it.title t)
    ≡ some (some it.content)

-- No title of the list is among those before it, or among the ones given.
abbrev pub AreNew : List String → List Item → Type 0
AreNew seen [] = Unit
AreNew seen (it ∷ items) = (contains seen it.title ≡ false) × AreNew (it.title ∷ seen) items

module _ {ℓ} {Digest : Type ℓ} ⦃e : Equality Digest⦄ (entry_hash : Entry → Digest)
    (sha256 : String → String) where
  items-IsFound :
      (source : Source) (now : ℕ) (seen : List String) (items : List Item) (s : Store)
      → IsTable s.rules
      → AreNew seen items
      → (lines : List Line) × (t : Store) × (apply_items entry_hash sha256 update source now items s
          ≡ some (lines, t))
        × IsTable t.rules
        × All (IsFound t) items
        × ((title : String)
            → contains seen title ≡ true
            → find_rule_by_title title t ≡ find_rule_by_title title s)
  unfolding apply_items contains
  items-IsFound source now seen [] s h n = ([], s, refl, h, tt, λ title c. refl)
  items-IsFound source now seen (it ∷ items) s h (new, rest) =
      let (line, t, p, w) = item-Written entry_hash sha256 source now it s h in
      let (lines, last, q, table, found, kept) =
        items-IsFound source now (it.title ∷ seen) items t w.table rest in
      (
        line ∷ lines,
        last,
        rw (apply_items, p) (rw (apply_items, q) refl),
        table,
        (
          subst (λ o. map_option (λ (row : RuleRow). row.content) o ≡ some (some it.content))
              (sym (kept it.title (ground (arith, same_refl it.title)))) w.found,
          found,
        ),
        λ title c.
            kept title (ground (arith, c)) ∙ w.others title (differ seen it.title title new c),
      )

Validated-cases :
    (v : Validated)
    → ((rejection : Rejection) × (v ≡ rejected rejection))
      ⊎ ((items : List Item) × (v ≡ valid items))
Validated-cases (rejected rejection) = inl (rejection, refl)
Validated-cases (valid items) = inr (items, refl)

valid_items : Validated → List Item
valid_items (rejected rejection) = []
valid_items (valid items) = items

valid_inj : (xs ys : List Item) → valid xs ≡ valid ys → xs ≡ ys
unfolding valid_items
valid_inj xs ys h = ap valid_items h

is_valid : Validated → Bool
is_valid (rejected rejection) = false
is_valid (valid items) = true

refused : (rejection : Rejection) (items : List Item) → rejected rejection ≡ valid items → ⊥
unfolding is_valid
refused rejection items h = cc (ap is_valid h)

reject-new :
    (seen : List String) (it : Item) → reject seen it ≡ none → contains seen it.title ≡ false
unfolding reject
reject-new seen it h = ground arith

validate-AreNew :
    (seen : List String) (rules items : List Item)
    → validate_items seen rules ≡ valid items
    → AreNew seen items
unfolding validate_items
validate-AreNew seen [] [] h = tt
validate-AreNew seen [] (it ∷ items) h = absurd (ground arith)
validate-AreNew seen (r ∷ rules) items h =
    let it = normalized r in
    elim (Option-cases (reject seen it)) [
      | inr (rejection, p) ↦ absurd (refused rejection items (rw (validate_items, p) at h))
      | inl p ↦ elim (Validated-cases (validate_items (it.title ∷ seen) rules)) [
        | inl (rejection, q) ↦ absurd (refused rejection items (rw (validate_items, p, q) at h))
        | inr (rest, q) ↦
            subst (AreNew seen) (valid_inj (it ∷ rest) items (rw (validate_items, p, q) at h))
              (reject-new seen it p, validate-AreNew (it.title ∷ seen) rules rest q)
      ]
    ]

module _ {ℓ} {Digest : Type ℓ} ⦃e : Equality Digest⦄ (entry_hash : Entry → Digest)
    (sha256 : String → String) where
  -- A batch that passes the validation is imported in update mode, whatever the store: the answer is no
  -- rejection, no abort and no rollback, and afterwards each title of the batch names a rule whose
  -- content is the one that the batch gives. The rows of the store stand at their ids, each once, before
  -- and after.
  pub import_rules-IsFound :
      (source : Source) (now : ℕ) (rules items : List Item) (s : Store)
      → validate_items [] rules ≡ valid items
      → IsTable s.rules
      → ((lines : List Line) × ((import_rules entry_hash sha256 update source now rules s).0
            ≡ imported (tally lines) lines))
        × All (IsFound (import_rules entry_hash sha256 update source now rules s).1) items
        × IsTable (import_rules entry_hash sha256 update source now rules s).1.rules
  unfolding import_rules import_valid stops
  import_rules-IsFound source now rules items s v h =
      let (lines, t, p, table, found, kept) =
        items-IsFound entry_hash sha256 source now [] items s h
          (validate-AreNew [] rules items v) in
      (
        (lines, rw (import_rules, v, import_valid, p) refl),
        rw (import_rules, v, import_valid, p) found,
        rw (import_rules, v, import_valid, p) table,
      )
