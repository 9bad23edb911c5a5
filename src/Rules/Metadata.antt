-- ===== src/Rules/Metadata.antt =====
-- The hierarchy axes: `validated_metadata_updates` of src/mcm_engine/hierarchy.py, and
-- `set_rule_metadata` of src/mcm_engine/adapters/sqlite/storage.py, which writes them. An importance
-- is a number from 0 up. Also `insert_rule_event` of the same file.
use Prim.Native.String.{◌++◌}
use mcm_engine.Base.{
  ℕ, String, Bool, true, not, ◌&&◌, Option, none, some, List, [], ◌∷◌, string_eq, nat_eq,
  if◌then◌else◌, leb, Equality, or_text, or_else, contains, show_nat, is_some, map_option,
}
use mcm_engine.Base.Dict.{get}
use mcm_engine.Entries.Rows.{RuleRow, Entry}
use mcm_engine.Rules.State.{Store, update_row, log_event}
use mcm_engine.Rules.Mirror.{mirror_entry}

abbrev pub scopes : List String
scopes = "universal" ∷ "conditional" ∷ []

abbrev pub kinds : List String
kinds = "directive" ∷ "fact" ∷ []

abbrev pub importance_max : ℕ
importance_max = 2

-- The axes that a caller gives; `none` leaves one as it is.
pub record Updates : Type 0 where
  pub importance : Option ℕ
  pub scope : Option String
  pub kind : Option String
  pub category : Option String

-- `none` is the ValueError.
unfoldable pub validated_metadata_updates : Updates → Option Updates
validated_metadata_updates u =
    if not (elim u.importance [ none ↦ true | some n ↦ leb n importance_max ])
    then none
    else if not (elim u.scope [ none ↦ true | some scope ↦ contains scopes scope ])
    then none
    else if not (elim u.kind [ none ↦ true | some kind ↦ contains kinds kind ])
    then none
    else some u

unfoldable pub is_empty : Updates → Option ℕ → Bool
is_empty u valid_until =
    not (is_some u.importance)
    && not (is_some u.scope)
    && not (is_some u.kind)
    && not (is_some u.category)
    && not (is_some valid_until)

unfoldable pub apply_updates : Updates → Option ℕ → String → ℕ → RuleRow → RuleRow
unfolding or_text
apply_updates u valid_until actor now row = record row {
  importance = or_else u.importance row.importance;
  scope = or_else u.scope row.scope;
  kind = or_else u.kind row.kind;
  category = elim u.category [ none ↦ row.category | some c ↦ some c ];
  valid_until = elim valid_until [ none ↦ row.valid_until | some t ↦ some t ];
  updated_by = some (or_text actor "nobody");
  updated_at = some now;
}

-- `", ".join(f"{k}={v}" for k, v in updates.items())`; `iso` stands for `datetime.isoformat`.
unfoldable pub join_notes : List String → String
join_notes [] = ""
join_notes (part ∷ []) = part
join_notes (part ∷ next ∷ parts) = part ++ (", " ++ join_notes (next ∷ parts))

unfoldable pub part_of : String → Option String → List String → List String
part_of name none parts = parts
part_of name (some value) parts = (name ++ ("=" ++ value)) ∷ parts

unfoldable pub metadata_note : (ℕ → String) → Updates → Option ℕ → String
unfolding join_notes part_of show_nat
metadata_note iso u valid_until =
    let parts = part_of "valid_until" (map_option iso valid_until) [] in
    let parts = part_of "kind" u.kind (part_of "category" u.category parts) in
    let parts =
      part_of "importance" (map_option show_nat u.importance) (part_of "scope" u.scope parts) in
    join_notes parts

-- What the call answers.
pub data Metadata : Type 0 where
  invalid : Metadata
  absent : Metadata
  row_is : RuleRow → Metadata

module _ {ℓ} {Digest : Type ℓ} ⦃e : Equality Digest⦄ (entry_hash : Entry → Digest) where
  unfoldable pub write_metadata :
      (ℕ → String) → ℕ → Updates → Option ℕ → String → ℕ → RuleRow → Store → Metadata × Store
  unfolding apply_updates metadata_note is_empty update_row log_event
  write_metadata iso id u valid_until actor now row s =
      if is_empty u valid_until then (row_is row, mirror_entry entry_hash id s) else (
        row_is (apply_updates u valid_until actor now row),
        mirror_entry entry_hash id (
            log_event id "metadata" actor now (some (metadata_note iso u valid_until))
              (update_row id (apply_updates u valid_until actor now) s)),
      )

  unfoldable pub set_rule_metadata :
      (ℕ → String) → ℕ → Updates → Option ℕ → String → ℕ → Store → Metadata × Store
  unfolding validated_metadata_updates write_metadata
  set_rule_metadata iso id updates valid_until actor now s =
      elim (validated_metadata_updates updates) [
        | none ↦ (invalid, s)
        | some u ↦ elim (get s.rules id) [
          | none ↦ (absent, mirror_entry entry_hash id s)
          | some row ↦ write_metadata iso id u valid_until actor now row s
        ]
      ]
