-- ===== src/Rules/Mirror.antt =====
-- `mirror_entry` of src/mcm_engine/entries.py at the kind "rule", with the operations on `entries`
-- that it calls, and the decorator `mirrored`. The digest that tells whether an entry has changed is
-- a parameter: SHA-256 over the fields as JSON.
use mcm_engine.Base.{ℕ, ◌+◌, max, none, some, List, [], ◌∷◌, ◌==◌, nat_eq, if◌then◌else◌, Equality}
use mcm_engine.Base.Dict.{get, put, remove}
use mcm_engine.Entries.Rows.{RuleRow, Entry}
use mcm_engine.Entries.Project.{rule_to_entry}
use mcm_engine.Rules.State.{Store, max_id}

unfoldable pub seed_entry_ids : Store → Store
unfolding max_id
seed_entry_ids s = record s {
  next_entry_id = max s.next_entry_id (max (max_id s.rules) (max_id s.entries) + 1);
}

-- `update_entry` with `entry_fields`: every column but the identity.
unfoldable pub update_entry : ℕ → Entry → Entry → Store → Store
update_entry id got want s = record s {
  entries = put s.entries id (record want { kind = got.kind; id = got.id });
}

module _ {ℓ} {Digest : Type ℓ} ⦃e : Equality Digest⦄ (entry_hash : Entry → Digest) where
  -- The row `want` of the entry, with the row that is there.
  unfoldable pub mirror_row : ℕ → RuleRow → Store → Store
  unfolding seed_entry_ids update_entry rule_to_entry
  mirror_row id row s =
      let want = rule_to_entry row in
      elim (get s.entries id) [
        | none ↦ seed_entry_ids (record s { entries = put s.entries want.id want })
        | some got ↦ if entry_hash got == entry_hash want then s else update_entry id got want s
      ]

  unfoldable pub mirror_entry : ℕ → Store → Store
  unfolding mirror_row
  mirror_entry id s = elim (get s.rules id) [
    | none ↦ record s { entries = remove s.entries id }
    | some row ↦ mirror_row id row s
  ]

  -- The loop of `mirrored` over the ids it is given.
  unfoldable pub mirror_all : List ℕ → Store → Store
  mirror_all [] s = s
  mirror_all (id ∷ ids) s = mirror_all ids (mirror_entry id s)
