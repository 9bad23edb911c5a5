-- ===== src/Rules/State.antt =====
-- The tables behind src/mcm_engine/adapters/sqlite/storage.py that the operations on rules read and
-- write. A table is its rows by their primary key; a ledger is its rows, the newest first. The clock,
-- `datetime('now')`, is an argument.
use mcm_engine.Base.{ℕ, max, String, Bool, Option, none, some, List, [], ◌∷◌, nat_eq, or_text}
use mcm_engine.Base.Dict.{Dict, get, put}
use mcm_engine.Entries.Rows.{RuleRow, Entry}

pub record RuleEvent : Type 0 where
  pub rule_id : ℕ
  pub event_type : String
  pub actor : String
  pub at : ℕ
  pub content_hash : Option String
  pub source_repo : Option String
  pub source_ref : Option String
  pub source_commit : Option String
  pub note : Option String

pub record Outcome : Type 0 where
  pub rule_id : ℕ
  pub actor : String
  pub passed : Bool

pub record Store : Type 0 where
  pub rules : Dict ℕ RuleRow
  -- the rows of `entries` whose kind is "rule"
  pub entries : Dict ℕ Entry
  -- the counter of `entry_ids` for the kind "rule"; 0 where it has no row
  pub next_entry_id : ℕ
  pub rule_events : List RuleEvent
  pub rule_outcomes : List Outcome

abbrev pub empty_store : Store
empty_store = record {
  rules = [];
  entries = [];
  next_entry_id = 0;
  rule_events = [];
  rule_outcomes = [];
}

-- `COALESCE((SELECT MAX(id) FROM ...), 0)`
unfoldable pub max_id {ℓ} : {V : Type ℓ} → Dict ℕ V → ℕ
max_id [] = 0
max_id ((id, v) ∷ rows) = max id (max_id rows)

-- `UPDATE rules SET ... WHERE id = ?`
unfoldable pub update_row : ℕ → (RuleRow → RuleRow) → Store → Store
update_row id change s = elim (get s.rules id) [
  | none ↦ s
  | some row ↦ record s { rules = put s.rules id (change row) }
]

-- The event of a state change that carries no content; `actor or "nobody"`.
unfoldable pub log_event : ℕ → String → String → ℕ → Option String → Store → Store
unfolding or_text
log_event rule_id event_type actor now note s =
    let event : RuleEvent = record {
      rule_id = rule_id;
      event_type = event_type;
      actor = or_text actor "nobody";
      at = now;
      content_hash = none;
      source_repo = none;
      source_ref = none;
      source_commit = none;
      note = note;
    } in
    record s { rule_events = event ∷ s.rule_events }
