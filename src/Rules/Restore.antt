-- ===== src/Rules/Restore.antt =====
-- The tool `restore_rule` of src/mcm_engine/tools/rules.py. The call that it makes of the session tracker
-- is modelled with the tracker.
use mcm_engine.Base.{
  ℕ, ◌≡◌, refl, ap, ◌∙◌, String, Bool, true, false, not, ◌&&◌, ◌||◌, none, some, List, [], ◌∷◌,
  ◌++◌, ◌==◌, string_eq, nat_eq, if◌then◌else◌, Equality, ltb, filter, map, contains, arith,
  Bool-cases, Option-cases, inl, inr, contains-append, subst, is_some,
}
use mcm_engine.Base.Dict.{Dict, get, put, get-put}
use mcm_engine.Entries.Rows.{RuleRow, Entry}
use mcm_engine.Rules.State.{Store, update_row, log_event}
use mcm_engine.Rules.Store.{restore_rule}
use mcm_engine.Rules.Sync.{rules-mirror_entry}
use mcm_engine.Rules.Query.{IsTable}

unfoldable pub list_archived_rules : Store → List RuleRow
list_archived_rules s = filter (λ row. row.archived) (map (λ entry. entry.1) s.rules)

-- `sorted(set(ids))`
unfoldable pub insert_sorted : ℕ → List ℕ → List ℕ
insert_sorted id [] = id ∷ []
insert_sorted id (next ∷ ids) =
    let rest = insert_sorted id ids in
    if id == next then next ∷ ids else if ltb id next then id ∷ next ∷ ids else next ∷ rest

unfoldable pub sorted_set : List ℕ → List ℕ
unfolding insert_sorted
sorted_set [] = []
sorted_set (id ∷ ids) = insert_sorted id (sorted_set ids)

module _ {ℓ} {Digest : Type ℓ} ⦃e : Equality Digest⦄ (entry_hash : Entry → Digest) where
  -- The loop over the targets, with the ids that it has restored.
  unfoldable pub restore_each : List ℕ → String → ℕ → Store → List ℕ × Store
  unfolding log_event
  restore_each [] who now s = ([], s)
  restore_each (id ∷ ids) who now s = elim (get s.rules id) [
    | none ↦ restore_each ids who now s
    | some row ↦
        if not row.archived
        then restore_each ids who now s
        else (let rest =
              restore_each ids who now
                (log_event id "restored" who now none (restore_rule entry_hash id now s)) in
            (id ∷ rest.0, rest.1))
  ]

  unfoldable pub restore_tool : List ℕ → Bool → String → ℕ → Store → List ℕ × Store
  unfolding list_archived_rules sorted_set restore_each
  restore_tool rule_ids all_archived who now s =
      let archived =
        if all_archived then map (λ (row : RuleRow). row.id) (list_archived_rules s) else [] in
      restore_each (sorted_set (archived ++ rule_ids)) who now s

-- There is an archived rule at the id.
unfoldable pub is_archived : Dict ℕ RuleRow → ℕ → Bool
is_archived rules id = elim (get rules id) [ none ↦ false | some row ↦ row.archived ]

not_archived :
    (id j : ℕ) (d : Dict ℕ RuleRow)
    → is_archived d id ≡ false
    → (id == j) ≡ true
    → is_archived d j ≡ false
not_archived id j d h c = subst (λ i. is_archived d i ≡ false) ((nat_eq.same_iff id j).0 c) h

was_archived :
    (id j : ℕ) (d : Dict ℕ RuleRow)
    → is_archived d id ≡ true
    → (id == j) ≡ true
    → is_archived d j ≡ true
was_archived id j d h c = subst (λ i. is_archived d i ≡ true) ((nat_eq.same_iff id j).0 c) h

contains-insert_sorted :
    (id : ℕ) (ids : List ℕ) (j : ℕ)
    → contains (insert_sorted id ids) j ≡ (id == j || contains ids j)
unfolding insert_sorted contains
contains-insert_sorted id [] j = refl
contains-insert_sorted id (next ∷ ids) j = ground (
  arith,
  contains-insert_sorted id ids j,
  nat_eq.same_iff id next,
  nat_eq.same_iff id j,
  nat_eq.same_iff next j,
)

contains-sorted_set : (ids : List ℕ) (j : ℕ) → contains (sorted_set ids) j ≡ contains ids j
unfolding sorted_set contains
contains-sorted_set [] j = refl
contains-sorted_set (id ∷ ids) j =
    contains-insert_sorted id (sorted_set ids) j
    ∙ ap (λ b. id == j || b) (contains-sorted_set ids j)

-- The ids of the archived rows are those where there is one.
archived_ids-contains :
    (d : Dict ℕ RuleRow) (j : ℕ)
    → IsTable d
    → contains
        (map
          (λ (row : RuleRow). row.id)
          (filter (λ row. row.archived) (map (λ (entry : ℕ × RuleRow). entry.1) d)))
        j
      ≡ is_archived d j
unfolding contains is_archived get
archived_ids-contains [] j h = refl
archived_ids-contains ((k, w) ∷ d) j h =
    let rest : IsTable d = record { distinct = h.distinct.1; keyed = h.keyed.1 } in
    let later = archived_ids-contains d j rest in
    let off : (k == j) ≡ true → is_archived d j ≡ false = λ c.
      let here = subst (λ i. is_some (get d i) ≡ false) ((nat_eq.same_iff k j).0 c) h.distinct.0 in
      ground (arith, here) in
    let own : (w.id == j) ≡ (k == j) = ap (λ i. i == j) h.keyed.0 in
    elim (Bool-cases (k == j)) [
      | inl c ↦ elim (Bool-cases w.archived) [
        | inl a ↦ rw (is_archived, get, c, a) (rw (contains, own, c) refl)
        | inr a ↦ rw (is_archived, get, c, a) (later ∙ off c)
      ]
      | inr c ↦ elim (Bool-cases w.archived) [
        | inl a ↦ rw (is_archived, get, c, a) (rw (contains, own, c) later)
        | inr a ↦ rw (is_archived, get, c, a) later
      ]
    ]

module _ {ℓ} {Digest : Type ℓ} ⦃e : Equality Digest⦄ (entry_hash : Entry → Digest) where
  is_archived-restore_rule :
      (id now : ℕ) (who : String) (row : RuleRow) (s : Store) (j : ℕ)
      → get s.rules id ≡ some row
      → is_archived
          (log_event id "restored" who now none (restore_rule entry_hash id now s)).rules
          j
        ≡ (is_archived s.rules j && not (id == j))
  unfolding log_event restore_rule update_row is_archived
  is_archived-restore_rule id now who row s j g =
      let back : RuleRow = record row {
        archived = false;
        archived_at = none;
        updated_at = some now;
      } in
      let after : (restore_rule entry_hash id now s).rules ≡ put s.rules id back =
        rules-mirror_entry entry_hash id _ ∙ rw (update_row, g) refl in
      ap (λ rules. is_archived rules j) after
      ∙ rw (is_archived, get-put s.rules id j back) (ground arith)

  -- The loop restores the archived rules among its targets, and no others.
  restore_each_restores :
      (targets : List ℕ) (who : String) (now : ℕ) (s : Store) (j : ℕ)
      → (is_archived (restore_each entry_hash targets who now s).1.rules j
          ≡ (is_archived s.rules j && not (contains targets j)))
        × (contains (restore_each entry_hash targets who now s).0 j
            ≡ (is_archived s.rules j && contains targets j))
  unfolding restore_each contains is_archived
  restore_each_restores [] who now s j = (ground arith, ground arith)
  restore_each_restores (id ∷ ids) who now s j = elim (Option-cases (get s.rules id)) [
    | inl g ↦
        let (p, q) = restore_each_restores ids who now s j in
        let off = not_archived id j s.rules (rw (is_archived, g) refl) in
        rw (restore_each, g) (ground (arith, p, off), ground (arith, q, off))
    | inr (row, g) ↦ elim (Bool-cases row.archived) [
      | inr a ↦
          let (p, q) = restore_each_restores ids who now s j in
          let off = not_archived id j s.rules (rw (is_archived, g) a) in
          rw (restore_each, g, a) (ground (arith, p, off), ground (arith, q, off))
      | inl a ↦
          let next = log_event id "restored" who now none (restore_rule entry_hash id now s) in
          let (p, q) = restore_each_restores ids who now next j in
          let step = is_archived-restore_rule id now who row s j g in
          let here = was_archived id j s.rules (rw (is_archived, g) a) in
          rw (restore_each, g, a) (ground (arith, p, step, here), ground (arith, q, step, here))
    ]
  ]

  -- `restore_rule` over a table whose rows stand at their ids, each once: an id is archived afterwards
  -- exactly where it was and was not asked for, by its id or with all archived ones, and the ids that
  -- it answers are those that were archived and asked for.
  pub restore_tool_restores :
      (rule_ids : List ℕ) (all_archived : Bool) (who : String) (now : ℕ) (s : Store) (j : ℕ)
      → IsTable s.rules
      → (is_archived (restore_tool entry_hash rule_ids all_archived who now s).1.rules j
          ≡ (is_archived s.rules j && not (all_archived || contains rule_ids j)))
        × (contains (restore_tool entry_hash rule_ids all_archived who now s).0 j
            ≡ (is_archived s.rules j && (all_archived || contains rule_ids j)))
  unfolding restore_tool list_archived_rules contains
  restore_tool_restores rule_ids true who now s j h =
      let listed = map (λ (row : RuleRow). row.id) (list_archived_rules s) in
      let (p, q) = restore_each_restores (sorted_set (listed ++ rule_ids)) who now s j in
      let asked =
        contains-sorted_set (listed ++ rule_ids) j
        ∙ contains-append listed rule_ids j
        ∙ ap (λ b. b || contains rule_ids j) (archived_ids-contains s.rules j h) in
      (p ∙ rw asked (ground arith), q ∙ rw asked (ground arith))
  restore_tool_restores rule_ids false who now s j h =
      let (p, q) = restore_each_restores (sorted_set rule_ids) who now s j in
      let asked = contains-sorted_set rule_ids j in (p ∙ rw asked refl, q ∙ rw asked refl)
