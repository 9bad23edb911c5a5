-- ===== src/Rules/Tools.antt =====
-- The tools `report_outcome`, `supersede_rule` and `unsupersede_rule` of src/mcm_engine/tools/rules.py
-- over the store, and `resolve_actor` of src/mcm_engine/principal.py. The call that each tool makes of
-- the session tracker is modelled with the tracker. An answer stands for its text.
use mcm_engine.Base.{
  ℕ, String, Bool, false, not, ◌&&◌, Option, none, some, List, [], ◌∷◌, ◌==◌, string_eq, nat_eq,
  if◌then◌else◌, Equality, or_text, or_else, strip,
}
use mcm_engine.Base.Dict.{get}
use mcm_engine.Entries.Rows.{RuleRow, Entry}
use mcm_engine.Rules.State.{Store}
use mcm_engine.Rules.Store.{record_outcome, supersede_rule, unsupersede_rule}

-- The explicit actor, the environment's, the transport's, or the last resort.
unfoldable pub resolve_actor : String → String → Option String → String
unfolding or_text strip
resolve_actor explicit env principal =
    or_text explicit (or_text (strip env) (or_text (or_else principal "") "nobody"))

pub data Answer : Type 0 where
  refused_self : Answer
  not_found : Answer
  successor_not_found : Answer
  refused_superseded : Answer
  superseded_now : Answer
  not_superseded : Answer
  revived : Answer

pub data Report : Type 0 where
  unknown_rule : ℕ → Report
  self_report : ℕ → Report
  counted : ℕ → Report

-- Whether the actor reports on a rule of its own.
unfoldable pub is_self_report : String → RuleRow → Bool
is_self_report who row = elim row.created_by [
  | none ↦ false
  | some author ↦ not (author == "") && who == author
]

module _ {ℓ} {Digest : Type ℓ} ⦃e : Equality Digest⦄ (entry_hash : Entry → Digest) where
  unfoldable pub report_one : ℕ → String → Bool → ℕ → Store → Report × Store
  unfolding is_self_report
  report_one id who passed now s = elim (get s.rules id) [
    | none ↦ (unknown_rule id, s)
    | some row ↦
        let is_self = is_self_report who row in
        (
          if is_self then self_report id else counted id,
          record_outcome entry_hash id who passed (not is_self) now s,
        )
  ]

  unfoldable pub report_outcome : List ℕ → String → Bool → ℕ → Store → List Report × Store
  unfolding report_one
  report_outcome [] who passed now s = ([], s)
  report_outcome (id ∷ ids) who passed now s =
      let (report, next) = report_one id who passed now s in
      let (reports, last) = report_outcome ids who passed now next in (report ∷ reports, last)

  unfoldable pub supersede_tool : ℕ → ℕ → String → ℕ → Store → Answer × Store
  supersede_tool old_id new_id who now s =
      if old_id == new_id then (refused_self, s) else elim (get s.rules old_id) [
        | none ↦ (not_found, s)
        | some old ↦ elim (get s.rules new_id) [
          | none ↦ (successor_not_found, s)
          | some new ↦
              if new.status == "superseded"
              then (refused_superseded, s)
              else (superseded_now, supersede_rule entry_hash old_id new_id who now s)
        ]
      ]

  unfoldable pub unsupersede_tool : ℕ → String → ℕ → Store → Answer × Store
  unsupersede_tool id who now s = elim (get s.rules id) [
    | none ↦ (not_found, s)
    | some row ↦
        if not (row.status == "superseded")
        then (not_superseded, s)
        else (revived, unsupersede_rule entry_hash id who now s)
  ]
