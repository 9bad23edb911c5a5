-- ===== src/Watcher/Upsert.antt =====
-- `_cascade_upsert` of src/mcm_engine/files/watcher.py never raises, and leaves its file's rule current.
use mcm_engine.Base.{
  ℕ, ◌+◌, ◌≡◌, refl, sym, ap, ◌∙◌, String, true, false, none, some, [], ◌∷◌, ◌==◌, string_eq,
  nat_eq, or_else, Equality, Option-cases, Bool-cases, inl, inr, map_option, subst, arith, contains,
  same_refl,
}
use mcm_engine.Base.Dict.{Dict, get, put, get-put}
use mcm_engine.Entries.Rows.{RuleRow, Entry}
use mcm_engine.Rules.State.{Store, max_id, update_row}
use mcm_engine.Rules.Mirror.{mirror_entry}
use mcm_engine.Rules.Store.{
  insert_rule, insert_id, inserted_row, update_rule, restore_rule, write_columns, set_columns,
  set_column,
}
use mcm_engine.Rules.Sync.{rules-mirror_entry}
use mcm_engine.Rules.Query.{
  first_row, has_file_path, find_rule_by_file_path, IsTable, first_row-found, fresh,
}
use mcm_engine.Watcher.Cascade.{
  Parsed, State, Action, upserted, unchanged, or_column, row_of_file, file_fields, is_same,
  cascaded, update_file, insert_file, cascade_upsert,
}
use mcm_engine.Watcher.Settled.{
  is_current, Upserted, Upserted-fresh, Upserted-old, Upserted-current,
}

put-put : (d : Dict ℕ RuleRow) (id : ℕ) (a b : RuleRow) → put (put d id a) id b ≡ put d id b
unfolding put
put-put [] id a b = ground (arith, same_refl id)
put-put ((j, w) ∷ d) id a b = ground (arith, put-put d id a b)

-- The row as `update_rule` leaves it.
unfoldable refreshed : ℕ → Parsed → RuleRow → RuleRow
refreshed now parsed row = record row {
  title = parsed.title;
  keywords = or_else parsed.keywords row.keywords;
  description = or_column parsed.description row.description;
  category = or_column parsed.category row.category;
  content_hash = some parsed.content_hash;
  updated_at = some now;
}

abbrev restored : ℕ → RuleRow → RuleRow
restored now row = record row { archived = false; archived_at = none; updated_at = some now }

current-refreshed :
    (now : ℕ) (parsed : Parsed) (row : RuleRow)
    → row.archived ≡ false
    → is_current parsed (refreshed now parsed row) ≡ true
unfolding refreshed is_same
current-refreshed now parsed row h = rw (h, same_refl parsed.content_hash) (ground arith)

current-restored :
    (now : ℕ) (parsed : Parsed) (row : RuleRow)
    → is_current parsed (restored now (refreshed now parsed row)) ≡ true
unfolding refreshed is_same
current-restored now parsed row = rw (same_refl parsed.content_hash) (ground arith)

module _ {ℓ} {Digest : Type ℓ} ⦃e : Equality Digest⦄ (entry_hash : Entry → Digest) where
  update_rule-refreshed :
      (id now : ℕ) (parsed : Parsed) (row : RuleRow) (s : Store)
      → get s.rules id ≡ some row
      → update_rule entry_hash id now (file_fields parsed row) s
        ≡ some (
            mirror_entry entry_hash id
              (record s { rules = put s.rules id (refreshed now parsed row) }))
  unfolding update_rule file_fields contains write_columns set_columns set_column refreshed
  update_rule-refreshed id now parsed row s p = rw (write_columns, p) refl

  insert_rule-file :
      (now : ℕ) (path : String) (parsed : Parsed) (s : Store)
      → insert_rule entry_hash now (row_of_file path parsed) s
        ≡ some (
          max_id s.rules + 1,
          mirror_entry entry_hash (max_id s.rules + 1) (record s {
            rules =
                put s.rules
                  (max_id s.rules + 1)
                  (inserted_row (max_id s.rules + 1) now (row_of_file path parsed));
          }),
        )
  unfolding insert_rule insert_id row_of_file
  insert_rule-file now path parsed s =
      rw (insert_rule, fresh s.rules (max_id s.rules + 1) (omega arith)) refl

  rules-restore_rule :
      (id now : ℕ) (row : RuleRow) (d : Dict ℕ RuleRow) (s : Store)
      → s.rules ≡ put d id row
      → (restore_rule entry_hash id now s).rules ≡ put d id (restored now row)
  unfolding restore_rule update_row
  rules-restore_rule id now row d s h =
      let here : get s.rules id ≡ some row =
        rw h (get-put d id id row ∙ ground (arith, same_refl id)) in
      rules-mirror_entry entry_hash id _
      ∙ rw (update_row, here)
          (ap (λ r. put r id (restored now row)) h ∙ put-put d id row (restored now row))

  -- What the upsert gives: it returns, and the file's rule is current.
  abbrev pub Upserts : ℕ → String → Parsed → State → Type 0
  Upserts now path parsed s =
      (action : Action) × (t : State) × (cascade_upsert entry_hash now path (some (some parsed)) s
        ≡ some (action, t))
      × Upserted path parsed s.store.rules t.store.rules

  insert-Upserts :
      (now : ℕ) (path : String) (parsed : Parsed) (s : State)
      → IsTable s.store.rules
      → first_row (has_file_path path) s.store.rules ≡ none
      → Upserts now path parsed s
  unfolding cascade_upsert insert_file find_rule_by_file_path inserted_row row_of_file cascaded
      is_same
  insert-Upserts now path parsed s h f =
      let id = max_id s.store.rules + 1 in
      let row = inserted_row id now (row_of_file path parsed) in
      let after =
        mirror_entry entry_hash id (record s.store { rules = put s.store.rules id row }) in
      (
        upserted,
        (cascaded after s).1,
        rw (cascade_upsert, f, insert_file, insert_rule-file now path parsed s.store) refl,
        subst (Upserted path parsed s.store.rules) (sym (rules-mirror_entry entry_hash id _)) (
            Upserted-fresh path parsed s.store.rules id row h (fresh s.store.rules id (omega arith))
              refl refl (rw (same_refl parsed.content_hash) refl) f),
      )

  update-Upserts :
      (now : ℕ) (path : String) (parsed : Parsed) (id : ℕ) (old : RuleRow) (s : State)
      → IsTable s.store.rules
      → first_row (has_file_path path) s.store.rules ≡ some (id, old)
      → (old.status == "recalled") ≡ false
      → is_same parsed old ≡ false
      → Upserts now path parsed s
  unfolding cascade_upsert update_file find_rule_by_file_path refreshed cascaded
  update-Upserts now path parsed id old s h f r q =
      let d = s.store.rules in
      let (g, k, named) = first_row-found (has_file_path path) d id old h f in
      let here : get d old.id ≡ some old = subst (λ j. get d j ≡ some old) (sym k) g in
      let found : first_row (has_file_path path) d ≡ some (old.id, old) =
        subst (λ j. first_row (has_file_path path) d ≡ some (j, old)) (sym k) f in
      let row = refreshed now parsed old in
      let after = mirror_entry entry_hash old.id (record s.store { rules = put d old.id row }) in
      let done = update_rule-refreshed old.id now parsed old s.store here in
      elim (Bool-cases old.archived) [
        | inl a ↦ (
          upserted,
          (cascaded (restore_rule entry_hash old.id now after) s).1,
          rw (cascade_upsert, f, r, q, update_file, done, a) refl,
          subst (Upserted path parsed d)
              (sym (
                rules-restore_rule old.id now row d after (rules-mirror_entry entry_hash old.id _)))
              (Upserted-old path parsed d old.id old (restored now row) h found r refl refl
                (current-restored now parsed old)),
        )
        | inr a ↦ (
          upserted,
          (cascaded after s).1,
          rw (cascade_upsert, f, r, q, update_file, done, a) refl,
          subst (Upserted path parsed d) (sym (rules-mirror_entry entry_hash old.id _)) (
              Upserted-old path parsed d old.id old row h found r refl refl
                (current-refreshed now parsed old a)),
        )
      ]

  pub cascade_upsert-Upserts :
      (now : ℕ) (path : String) (parsed : Parsed) (s : State)
      → IsTable s.store.rules
      → Upserts now path parsed s
  unfolding cascade_upsert find_rule_by_file_path
  cascade_upsert-Upserts now path parsed s h =
      elim (Option-cases (first_row (has_file_path path) s.store.rules)) [
        | inl f ↦ insert-Upserts now path parsed s h f
        | inr ((id, old), f) ↦ elim (Bool-cases (old.status == "recalled")) [
          | inl r ↦ (
            unchanged,
            s,
            rw (cascade_upsert, f, r) refl,
            Upserted-current path parsed s.store.rules id old h f (rw r refl),
          )
          | inr r ↦ elim (Bool-cases (is_same parsed old)) [
            | inl q ↦ (
              unchanged,
              s,
              rw (cascade_upsert, f, r, q) refl,
              Upserted-current path parsed s.store.rules id old h f (rw (r, q) refl),
            )
            | inr q ↦ update-Upserts now path parsed id old s h f r q
          ]
        ]
      ]

  -- A file whose rule is current is left alone.
  pub cascade_upsert-settled :
      (now : ℕ) (path : String) (parsed : Parsed) (s : State)
      → map_option
          (λ (entry : ℕ × RuleRow). is_current parsed entry.1)
          (first_row (has_file_path path) s.store.rules)
        ≡ some true
      → cascade_upsert entry_hash now path (some (some parsed)) s ≡ some (unchanged, s)
  unfolding cascade_upsert find_rule_by_file_path
  cascade_upsert-settled now path parsed s h =
      elim (Option-cases (first_row (has_file_path path) s.store.rules)) [
        | inl f ↦ absurd (cc (f, h))
        | inr ((id, old), f) ↦
            rw (cascade_upsert, f)
              (ground (
                arith,
                subst
                    (λ o.
                      map_option (λ (entry : ℕ × RuleRow). is_current parsed entry.1) o ≡ some true)
                    f h,
              ))
      ]
