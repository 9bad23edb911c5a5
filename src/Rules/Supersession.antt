-- ===== src/Rules/Supersession.antt =====
-- Supersession of rules through the tools of src/mcm_engine/tools/rules.py: the chain of successors of
-- a superseded rule ends in one that is not, whatever the tools are asked to do.
use mcm_engine.Base.{
  ℕ, String, true, false, Option, none, some, ◌==◌, ◌≡◌, refl, ◌∙◌, nat_eq, string_eq,
  if◌then◌else◌, Equality, Option-cases, Bool-cases, inl, inr, map_option,
}
use mcm_engine.Base.Dict.{get}
use mcm_engine.Entries.Rows.{RuleRow, Entry}
use mcm_engine.Rules.State.{Store, update_row, log_event}
use mcm_engine.Rules.Mirror.{mirror_entry, mirror_all}
use mcm_engine.Rules.Store.{supersede_rule, unsupersede_rule}
use mcm_engine.Rules.Tools.{supersede_tool, unsupersede_tool}
use mcm_engine.Rules.Sync.{rules-mirror_entry}
use mcm_engine.Rules.Chains.{state_of, live, via, IsLinked, IsLinked-at, state_of-update_row}

module _ {ℓ} {Digest : Type ℓ} ⦃e : Equality Digest⦄ (entry_hash : Entry → Digest) where
  pub state_of-mirror_entry :
      (id j : ℕ) (s : Store) → state_of (mirror_entry entry_hash id s) j ≡ state_of s j
  unfolding state_of
  state_of-mirror_entry id j s = rw (rules-mirror_entry entry_hash id s) refl

  state_of-supersede_rule :
      (old_id new_id now j : ℕ) (actor : String) (s : Store)
      → state_of (supersede_rule entry_hash old_id new_id actor now s) j ≡ (
          if old_id == j
          then map_option (λ row. (true, some new_id)) (get s.rules old_id)
          else state_of s j)
  unfolding supersede_rule mirror_all
  state_of-supersede_rule old_id new_id now j actor s =
      state_of-mirror_entry new_id j _
      ∙ state_of-mirror_entry old_id j _
      ∙ unfold log_event state_of in state_of-update_row old_id j _ s

  -- What happens to a row between its change and the answer.
  pub state_of-logged :
      (id j now : ℕ) (change : RuleRow → RuleRow) (event_type actor : String) (note : Option String)
      (s : Store)
      → state_of
          (mirror_entry entry_hash id
            (log_event id event_type actor now note (update_row id change s)))
          j
        ≡ state_of (update_row id change s) j
  unfolding log_event state_of
  state_of-logged id j now change event_type actor message s =
      rw
        (rules-mirror_entry entry_hash id
          (log_event id event_type actor now message (update_row id change s)))
        refl

  superseded :
      (old_id new_id now : ℕ) (who : String) (old new : RuleRow) (s : Store)
      → (old_id == new_id) ≡ false
      → get s.rules old_id ≡ some old
      → get s.rules new_id ≡ some new
      → (new.status == "superseded") ≡ false
      → IsLinked s
      → IsLinked (supersede_rule entry_hash old_id new_id who now s)
  unfolding state_of
  superseded old_id new_id now who old new s c p q d h =
      let t = supersede_rule entry_hash old_id new_id who now s in
      let after = λ (j : ℕ). state_of-supersede_rule old_id new_id now j who s in
      let redirected : state_of t old_id ≡ some (true, some new_id) =
        after old_id ∙ rw ((nat_eq.same_iff old_id old_id).1 refl, p) refl in
      let successor : state_of t new_id ≡ some (false, new.superseded_by) =
        after new_id ∙ rw (c, q, d) refl in
      IsLinked-at s t old_id
        (via old_id new_id redirected (live new_id new.superseded_by successor))
        (λ id other. after id ∙ rw other refl) h

  pub supersede_tool-IsLinked :
      (old_id new_id now : ℕ) (who : String) (s : Store)
      → IsLinked s
      → IsLinked (supersede_tool entry_hash old_id new_id who now s).1
  unfolding supersede_tool
  supersede_tool-IsLinked old_id new_id now who s h = elim (Bool-cases (old_id == new_id)) [
    | inl c ↦ rw (supersede_tool, c) h
    | inr c ↦
        rw (supersede_tool, c)
          (elim (Option-cases (get s.rules old_id)) [
            | inl p ↦ rw (supersede_tool, p) h
            | inr (old, p) ↦
                rw (supersede_tool, p)
                  (elim (Option-cases (get s.rules new_id)) [
                    | inl q ↦ rw (supersede_tool, q) h
                    | inr (new, q) ↦
                        rw (supersede_tool, q)
                          (elim (Bool-cases (new.status == "superseded")) [
                            | inl d ↦ rw d h
                            | inr d ↦ rw d (superseded old_id new_id now who old new s c p q d h)
                          ])
                  ])
          ])
  ]

  unsuperseded :
      (id now : ℕ) (who : String) (row : RuleRow) (s : Store)
      → get s.rules id ≡ some row
      → IsLinked s
      → IsLinked (unsupersede_rule entry_hash id who now s)
  unfolding unsupersede_rule
  unsuperseded id now who row s p h =
      let t = unsupersede_rule entry_hash id who now s in
      let after : (j : ℕ)
          → state_of t j ≡ (
              if id == j
              then map_option (λ row. (false, none)) (get s.rules id)
              else state_of s j) =
        λ j. state_of-logged id j now _ "unsuperseded" who _ s ∙ state_of-update_row id j _ s in
      let revived : state_of t id ≡ some (false, none) =
        after id ∙ rw ((nat_eq.same_iff id id).1 refl, p) refl in
      IsLinked-at s t id (live id none revived) (λ j other. after j ∙ rw other refl) h

  pub unsupersede_tool-IsLinked :
      (id now : ℕ) (who : String) (s : Store)
      → IsLinked s
      → IsLinked (unsupersede_tool entry_hash id who now s).1
  unfolding unsupersede_tool
  unsupersede_tool-IsLinked id now who s h = elim (Option-cases (get s.rules id)) [
    | inl p ↦ rw (unsupersede_tool, p) h
    | inr (row, p) ↦
        rw (unsupersede_tool, p)
          (elim (Bool-cases (row.status == "superseded")) [
            | inl d ↦ rw d (unsuperseded id now who row s p h)
            | inr d ↦ rw d h
          ])
  ]
