-- ===== src/Rules/History.antt =====
-- A history of the store: commands that reach it through the tools, so that a supersession passes the
-- tools' checks. What holds after any history, from the empty store on.
use mcm_engine.Base.{
  arith, ◌==◌, nat_eq, ℕ, String, List, [], ◌∷◌, refl, string_eq, Equality, Option-cases,
  Bool-cases, inl, inr,
}
use mcm_engine.Base.Dict.{get}
use mcm_engine.Entries.Rows.{Entry}
use mcm_engine.Rules.State.{Store}
use mcm_engine.Rules.Store.{soft_delete_rule, restore_rule}
use mcm_engine.Rules.Sync.{IsSynced}
use mcm_engine.Rules.Commands.{
  Command, insert, update, set_metadata, soft_delete, restore, outcome, supersede, unsupersede, run,
}
use mcm_engine.Rules.Preserve.{run-IsSynced, supersede_rule-IsSynced, unsupersede_rule-IsSynced}
use mcm_engine.Rules.Tools.{supersede_tool, unsupersede_tool}
use mcm_engine.Rules.State.{empty_store}
use mcm_engine.Rules.Chains.{state_of, IsLinked}
use mcm_engine.Rules.Supersession.{supersede_tool-IsLinked, unsupersede_tool-IsLinked}
use mcm_engine.Rules.Linked.{
  insert-IsLinked, update-IsLinked, metadata-IsLinked, outcome-IsLinked, kept,
}

module _ {ℓ} {Digest : Type ℓ} ⦃e : Equality Digest⦄ (entry_hash : Entry → Digest)
    (iso : ℕ → String) where
  unfoldable pub act : ℕ → Command → Store → Store
  act now (supersede old_id new_id actor) s =
      (supersede_tool entry_hash old_id new_id actor now s).1
  act now (unsupersede id actor) s = (unsupersede_tool entry_hash id actor now s).1
  act now c s = run entry_hash iso now c s

  unfoldable pub act_all : List (ℕ × Command) → Store → Store
  act_all [] s = s
  act_all ((now, c) ∷ commands) s = act_all commands (act now c s)

module _ {ℓ} {Digest : Type ℓ} ⦃e : Equality Digest⦄ (entry_hash : Entry → Digest)
    (iso : ℕ → String) where
  act-IsLinked :
      (now : ℕ) (c : Command) (s : Store) → IsLinked s → IsLinked (act entry_hash iso now c s)
  unfolding act run soft_delete_rule restore_rule
  act-IsLinked now (insert row) s h = insert-IsLinked entry_hash iso now row s h
  act-IsLinked now (update id fields) s h = update-IsLinked entry_hash iso now id fields s h
  act-IsLinked now (set_metadata id u v actor) s h =
      metadata-IsLinked entry_hash iso now id u v actor s h
  act-IsLinked now (soft_delete id) s h = kept entry_hash iso id _ s (λ _. (refl, refl)) h
  act-IsLinked now (restore id) s h = kept entry_hash iso id _ s (λ _. (refl, refl)) h
  act-IsLinked now (outcome id actor passed count) s h =
      outcome-IsLinked entry_hash iso id actor passed count now s h
  act-IsLinked now (supersede old_id new_id actor) s h =
      supersede_tool-IsLinked entry_hash old_id new_id now actor s h
  act-IsLinked now (unsupersede id actor) s h =
      unsupersede_tool-IsLinked entry_hash id now actor s h

  supersede_tool-IsSynced :
      (old_id new_id now : ℕ) (who : String) (s : Store)
      → IsSynced entry_hash s
      → IsSynced entry_hash (supersede_tool entry_hash old_id new_id who now s).1
  unfolding supersede_tool
  supersede_tool-IsSynced old_id new_id now who s h = elim (Bool-cases (old_id == new_id)) [
    | inl c ↦ rw (supersede_tool, c) h
    | inr c ↦
        rw (supersede_tool, c)
          (elim (Option-cases (get s.rules old_id)) [
            | inl p ↦ rw (supersede_tool, p) h
            | inr (old, p) ↦
                rw (supersede_tool, p)
                  (elim (Option-cases (get s.rules new_id)) [
                    | inl q ↦ rw (supersede_tool, q) h
                    | inr (new, q) ↦
                        rw (supersede_tool, q)
                          (elim (Bool-cases (new.status == "superseded")) [
                            | inl d ↦ rw d h
                            | inr d ↦
                                rw d (supersede_rule-IsSynced entry_hash old_id new_id who now s h)
                          ])
                  ])
          ])
  ]

  unsupersede_tool-IsSynced :
      (id now : ℕ) (who : String) (s : Store)
      → IsSynced entry_hash s
      → IsSynced entry_hash (unsupersede_tool entry_hash id who now s).1
  unfolding unsupersede_tool
  unsupersede_tool-IsSynced id now who s h = elim (Option-cases (get s.rules id)) [
    | inl p ↦ rw (unsupersede_tool, p) h
    | inr (row, p) ↦
        rw (unsupersede_tool, p)
          (elim (Bool-cases (row.status == "superseded")) [
            | inl d ↦ rw d (unsupersede_rule-IsSynced entry_hash id who now s h)
            | inr d ↦ rw d h
          ])
  ]

  act-IsSynced :
      (now : ℕ) (c : Command) (s : Store)
      → IsSynced entry_hash s
      → IsSynced entry_hash (act entry_hash iso now c s)
  unfolding act
  act-IsSynced now (insert row) s h = run-IsSynced entry_hash iso now (insert row) s h
  act-IsSynced now (update id fields) s h = run-IsSynced entry_hash iso now (update id fields) s h
  act-IsSynced now (set_metadata id u v actor) s h =
      run-IsSynced entry_hash iso now (set_metadata id u v actor) s h
  act-IsSynced now (soft_delete id) s h = run-IsSynced entry_hash iso now (soft_delete id) s h
  act-IsSynced now (restore id) s h = run-IsSynced entry_hash iso now (restore id) s h
  act-IsSynced now (outcome id actor passed count) s h =
      run-IsSynced entry_hash iso now (outcome id actor passed count) s h
  act-IsSynced now (supersede old_id new_id actor) s h =
      supersede_tool-IsSynced old_id new_id now actor s h
  act-IsSynced now (unsupersede id actor) s h = unsupersede_tool-IsSynced id now actor s h

  -- Where the entries of kind "rule" are those of the rows, one for each row, at its id, with the
  -- digest of the row's projection, they are so after any history.
  pub act_all-IsSynced :
      (commands : List (ℕ × Command)) (s : Store)
      → IsSynced entry_hash s
      → IsSynced entry_hash (act_all entry_hash iso commands s)
  unfolding act_all
  act_all-IsSynced [] s h = h
  act_all-IsSynced ((now, c) ∷ commands) s h =
      act_all-IsSynced commands (act entry_hash iso now c s) (act-IsSynced now c s h)

  -- Where the chain of successors of each rule ends in a rule that is not superseded, it does so after
  -- any history.
  pub act_all-IsLinked :
      (commands : List (ℕ × Command)) (s : Store)
      → IsLinked s
      → IsLinked (act_all entry_hash iso commands s)
  unfolding act_all
  act_all-IsLinked [] s h = h
  act_all-IsLinked ((now, c) ∷ commands) s h =
      act_all-IsLinked commands (act entry_hash iso now c s) (act-IsLinked now c s h)

pub IsLinked-empty_store : IsLinked empty_store
unfolding state_of get
IsLinked-empty_store = record { ends = λ id there. absurd (ground arith) }
