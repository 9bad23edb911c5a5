-- ===== src/Ingest/Commit.antt =====
-- What `commit_verdicts` of src/mcm_engine/ingest/adjudicate.py does for one verdict, with what it calls
-- of the storage and of src/mcm_engine/adapters/sqlite/counters.py. SHA-256 of a text is a parameter, as
-- the digest of an entry is.
use mcm_engine.Base.{
  ℕ, zero, suc, ◌+◌, String, Bool, false, not, ◌&&◌, Option, none, some, [], ◌∷◌, ◌==◌, string_eq,
  nat_eq, if◌then◌else◌, or_text, Equality,
}
use mcm_engine.Base.Dict.{Dict, get, put}
use mcm_engine.Entries.Rows.{RuleRow, Entry}
use mcm_engine.Rules.State.{Store, RuleEvent, update_row}
use mcm_engine.Rules.Store.{insert_rule, supersede_rule}
use mcm_engine.Ingest.Verdict.{
  add, refine, reinforce, reject, Verdict, validate, Detail, invalid, rejected, duplicate, created,
  refined, reinforced, target_missing, insert_failed,
}

-- The tests of `find_rule_by_content_hash` on one row.
unfoldable pub is_active_copy : String → RuleRow → Bool
is_active_copy content_hash row =
    elim row.content_hash [ none ↦ false | some hash ↦ hash == content_hash ]
    && (not row.archived && row.status == "active")

-- The first row, in the order of the table.
unfoldable pub find_active : String → Dict ℕ RuleRow → Option RuleRow
unfolding is_active_copy
find_active content_hash [] = none
find_active content_hash ((id, row) ∷ rows) =
    let later = find_active content_hash rows in
    if is_active_copy content_hash row then some row else later

unfoldable pub find_rule_by_content_hash : String → Store → Option RuleRow
unfolding find_active
find_rule_by_content_hash content_hash s =
    if content_hash == "" then none else find_active content_hash s.rules

-- `text[:n]`
unfoldable pub take_text : ℕ → String → String
take_text zero s = ""
take_text (suc n) String.[] = ""
take_text (suc n) (String.◌∷◌ c s) = String.◌∷◌ c (take_text n s)

-- `text or None`
unfoldable pub text_or_none : String → Option String
text_or_none s = if s == "" then none else some s

-- `insert_rule_event`
unfoldable pub insert_rule_event :
    ℕ
    → String
    → String
    → ℕ
    → Option String
    → Option String
    → Option String
    → Option String
    → Store
    → Store
unfolding or_text
insert_rule_event rule_id event_type actor now content_hash source_repo source_ref source_commit s =
    let event : RuleEvent = record {
      rule_id = rule_id;
      event_type = event_type;
      actor = or_text actor "nobody";
      at = now;
      content_hash = content_hash;
      source_repo = source_repo;
      source_ref = source_ref;
      source_commit = source_commit;
      note = none;
    } in
    record s { rule_events = event ∷ s.rule_events }

-- `UPDATE entries SET ... WHERE kind = 'rule' AND id = ?`
unfoldable pub update_entry_columns : ℕ → (Entry → Entry) → Store → Store
update_entry_columns id change s = elim (get s.entries id) [
  | none ↦ s
  | some entry ↦ record s { entries = put s.entries id (change entry) }
]

-- `increment` at the counter `reinforcement_count` and then at `last_hit_at`, of the rule `row`.
unfoldable pub reinforce_counters : ℕ → ℕ → RuleRow → Store → Store
unfolding update_row update_entry_columns
reinforce_counters id now row s =
    let counted = row.reinforcement_count + 1 in
    let s1 = update_row id (λ r. record r { reinforcement_count = counted }) s in
    let s2 = update_entry_columns id (λ w. record w { reinforcement_count = counted }) s1 in
    let s3 = update_row id (λ r. record r { last_hit_at = some now }) s2 in
    update_entry_columns id (λ w. record w { last_hit_at = some now }) s3

-- Where a commit comes from.
pub record Source : Type 0 where
  pub actor : String
  pub source_repo : String
  pub source_ref : String
  pub source_commit : String

unfoldable pub rule_of : String → String → Verdict → RuleRow
unfolding take_text text_or_none
rule_of content_hash actor v = record {
  id = 0;
  title = v.title;
  keywords = v.keywords;
  file_path = none;
  description = some (take_text 500 v.content);
  category = text_or_none v.category;
  hit_count = 0;
  last_hit_at = none;
  reinforcement_count = 0;
  pinned = false;
  content_hash = some content_hash;
  archived = false;
  archived_at = none;
  created_at = none;
  updated_at = none;
  content = some v.content;
  created_by = some actor;
  updated_by = some actor;
  correct_count = 0;
  incorrect_count = 0;
  valid_until = none;
  superseded_by = none;
  status = "active";
  importance = 0;
  scope = "conditional";
  kind = "fact";
  source_classification = none;
}

module _ {ℓ} {Digest : Type ℓ} ⦃e : Equality Digest⦄ (entry_hash : Entry → Digest)
    (sha256 : String → String) where
  -- `_insert_rule`
  unfoldable pub insert_verdict : Source → ℕ → Verdict → Store → Option (ℕ × Store)
  unfolding rule_of insert_rule_event text_or_none
  insert_verdict source now v s =
      let content_hash = sha256 v.content in
      elim (insert_rule entry_hash now (rule_of content_hash source.actor v) s) [
        | none ↦ none
        | some (id, after) ↦ some (
          id,
          insert_rule_event id "created" source.actor now (some content_hash)
              (text_or_none source.source_repo) (text_or_none source.source_ref)
              (text_or_none source.source_commit) after,
        )
      ]

  unfoldable pub commit_add : Source → ℕ → Verdict → Store → Detail × Store
  unfolding insert_verdict find_rule_by_content_hash
  commit_add source now v s = elim (find_rule_by_content_hash (sha256 v.content) s) [
    | some existing ↦ (duplicate existing.id, s)
    | none ↦ elim (insert_verdict source now v s) [
      | none ↦ (insert_failed, s)
      | some (id, after) ↦ (created id, after)
    ]
  ]

  unfoldable pub commit_refine : Source → ℕ → Verdict → ℕ → Store → Detail × Store
  unfolding insert_verdict
  commit_refine source now v old_id s = elim (get s.rules old_id) [
    | none ↦ (target_missing old_id, s)
    | some old ↦ elim (insert_verdict source now v s) [
      | none ↦ (insert_failed, s)
      | some (id, after) ↦
          (refined old_id id, supersede_rule entry_hash old_id id source.actor now after)
    ]
  ]

unfoldable pub commit_reinforce : Source → ℕ → ℕ → Store → Detail × Store
unfolding reinforce_counters insert_rule_event
commit_reinforce source now id s = elim (get s.rules id) [
  | none ↦ (target_missing id, s)
  | some row ↦ (
    reinforced id,
    insert_rule_event id "reinforced" source.actor now none none none none
        (reinforce_counters id now row s),
  )
]

module _ {ℓ} {Digest : Type ℓ} ⦃e : Equality Digest⦄ (entry_hash : Entry → Digest)
    (sha256 : String → String) where
  -- A verdict that is valid; the missing target of a refinement or a reinforcement is refused before.
  unfoldable pub apply : Source → ℕ → Verdict → Store → Detail × Store
  unfolding commit_add commit_refine commit_reinforce
  apply source now v s = elim v.action [
    | reject ↦ (rejected, s)
    | add ↦ commit_add entry_hash sha256 source now v s
    | refine ↦ elim v.target_rule_id [
      | none ↦ (insert_failed, s)
      | some id ↦ commit_refine entry_hash sha256 source now v id s
    ]
    | reinforce ↦ elim v.target_rule_id [
      | none ↦ (insert_failed, s)
      | some id ↦ commit_reinforce source now id s
    ]
  ]

  unfoldable pub commit_one : Source → ℕ → Verdict → Store → Detail × Store
  unfolding apply validate
  commit_one source now v s = elim (validate v) [
    | some err ↦ (invalid err, s)
    | none ↦ apply source now v s
  ]
