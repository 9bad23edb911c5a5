-- ===== src/Counters/Mirrored.antt =====
-- `increment` of src/mcm_engine/adapters/sqlite/counters.py keeps an entry the mirror of its row.
use mathlib.Core.Option.{some-injective}
use mcm_engine.Base.{
  ℕ, ◌+◌, ◌≤◌, String, true, not, ◌||◌, some, [], ◌==◌, ◌≡◌, refl, sym, ap, ◌∙◌, nat_eq, string_eq,
  if◌then◌else◌, arith, Bool-cases, inl, inr, subst,
}
use mcm_engine.Base.Dict.{get, get-put}
use mcm_engine.Entries.Rows.{RuleRow, KnowledgeRow, Entry, number}
use mcm_engine.Entries.Project.{Row, knowledge, negative, error, rule, rule_fields, to_entry}
use mcm_engine.Entries.Fields.{rule_read, get-rule_facets}
use mcm_engine.Counters.Increment.{
  Counter, hit_count, reinforcement_count, pinned, last_hit_at, correct_count, incorrect_count,
  update_counter, copy_counter, has_column, raise_flag, increment,
}

-- Two entries that are the same, but for the order of the facets.
pub record SameEntry (a b : Entry) : Type 0 where
  pub columns : record a { facets = [] } ≡ record b { facets = [] }
  pub facets : (k : String) → get a.facets k ≡ get b.facets k

-- A count that is not zero is in the facets at its own key.
read_correct :
    (row : RuleRow) (n : ℕ) (k : String)
    → not (n == 0) ≡ true
    → (if "correct_count" == k then some (number n) else rule_read row k)
      ≡ rule_read (record row { correct_count = n }) k
unfolding rule_read rule_fields
read_correct row n k positive = elim (Bool-cases ("correct_count" == k)) [
  | inr c ↦ rw c refl
  | inl c ↦
      subst
        (λ j.
          (if "correct_count" == j then some (number n) else rule_read row j)
          ≡ rule_read (record row { correct_count = n }) j)
        ((string_eq.same_iff "correct_count" k).0 c) (rw positive refl)
]

read_incorrect :
    (row : RuleRow) (n : ℕ) (k : String)
    → not (n == 0) ≡ true
    → (if "incorrect_count" == k then some (number n) else rule_read row k)
      ≡ rule_read (record row { incorrect_count = n }) k
unfolding rule_read rule_fields
read_incorrect row n k positive = elim (Bool-cases ("incorrect_count" == k)) [
  | inr c ↦ rw c refl
  | inl c ↦
      subst
        (λ j.
          (if "incorrect_count" == j then some (number n) else rule_read row j)
          ≡ rule_read (record row { incorrect_count = n }) j)
        ((string_eq.same_iff "incorrect_count" k).0 c) (rw positive refl)
]

module _ (by now : ℕ) (low : 1 ≤ by) where
  rule_mirrored :
      (counter : Counter) (row : RuleRow) (e : Entry)
      → SameEntry e (to_entry (rule row))
      → SameEntry
          (copy_counter counter (update_counter counter by now (rule row)) e)
          (to_entry (update_counter counter by now (rule row)))
  unfolding update_counter copy_counter to_entry
  rule_mirrored hit_count row e same = record {
    columns = ap (λ (x : Entry). record x { hit_count = row.hit_count + by }) same.columns;
    facets = same.facets;
  }
  rule_mirrored reinforcement_count row e same = record {
    columns =
        ap (λ (x : Entry). record x { reinforcement_count = row.reinforcement_count + by })
          same.columns;
    facets = same.facets;
  }
  rule_mirrored pinned row e same = record {
    columns = ap (λ (x : Entry). record x { pinned = row.pinned || not (by == 0) }) same.columns;
    facets = same.facets;
  }
  rule_mirrored last_hit_at row e same = record {
    columns = ap (λ (x : Entry). record x { last_hit_at = some now }) same.columns;
    facets = same.facets;
  }
  rule_mirrored correct_count row e same = record {
    columns = same.columns;
    facets = λ k.
        get-put e.facets "correct_count" k (number (row.correct_count + by))
        ∙ ap (λ v. if "correct_count" == k then some (number (row.correct_count + by)) else v)
            (same.facets k ∙ get-rule_facets row k)
        ∙ read_correct row (row.correct_count + by) k (ground (arith, low))
        ∙ sym (get-rule_facets (record row { correct_count = row.correct_count + by }) k);
  }
  rule_mirrored incorrect_count row e same = record {
    columns = same.columns;
    facets = λ k.
        get-put e.facets "incorrect_count" k (number (row.incorrect_count + by))
        ∙ ap (λ v. if "incorrect_count" == k then some (number (row.incorrect_count + by)) else v)
            (same.facets k ∙ get-rule_facets row k)
        ∙ read_incorrect row (row.incorrect_count + by) k (ground (arith, low))
        ∙ sym (get-rule_facets (record row { incorrect_count = row.incorrect_count + by }) k);
  }

  knowledge_mirrored :
      (counter : Counter) (row : KnowledgeRow) (e : Entry)
      → SameEntry e (to_entry (knowledge row))
      → SameEntry
          (copy_counter counter (update_counter counter by now (knowledge row)) e)
          (to_entry (update_counter counter by now (knowledge row)))
  unfolding update_counter copy_counter to_entry
  knowledge_mirrored hit_count row e same = record {
    columns = ap (λ (x : Entry). record x { hit_count = row.hit_count + by }) same.columns;
    facets = same.facets;
  }
  knowledge_mirrored reinforcement_count row e same = record {
    columns =
        ap (λ (x : Entry). record x { reinforcement_count = row.reinforcement_count + by })
          same.columns;
    facets = same.facets;
  }
  knowledge_mirrored pinned row e same = record {
    columns = ap (λ (x : Entry). record x { pinned = raise_flag row.pinned by }) same.columns;
    facets = same.facets;
  }
  knowledge_mirrored last_hit_at row e same = record {
    columns = ap (λ (x : Entry). record x { last_hit_at = some now }) same.columns;
    facets = same.facets;
  }
  knowledge_mirrored correct_count row e same = same
  knowledge_mirrored incorrect_count row e same = same

  plain_mirrored :
      (counter : Counter) (row : Row) (e : Entry)
      → SameEntry e (to_entry row)
      → SameEntry
          (copy_counter counter (update_counter counter by now row) e)
          (to_entry (update_counter counter by now row))
  unfolding update_counter copy_counter to_entry
  plain_mirrored counter (rule row) e same = rule_mirrored counter row e same
  plain_mirrored counter (knowledge row) e same = knowledge_mirrored counter row e same
  plain_mirrored pinned (negative row) e same = record {
    columns = ap (λ (x : Entry). record x { pinned = raise_flag row.pinned by }) same.columns;
    facets = same.facets;
  }
  plain_mirrored hit_count (negative row) e same = same
  plain_mirrored reinforcement_count (negative row) e same = same
  plain_mirrored last_hit_at (negative row) e same = same
  plain_mirrored correct_count (negative row) e same = same
  plain_mirrored incorrect_count (negative row) e same = same
  plain_mirrored pinned (error row) e same = record {
    columns = ap (λ (x : Entry). record x { pinned = raise_flag row.pinned by }) same.columns;
    facets = same.facets;
  }
  plain_mirrored hit_count (error row) e same = same
  plain_mirrored reinforcement_count (error row) e same = same
  plain_mirrored last_hit_at (error row) e same = same
  plain_mirrored correct_count (error row) e same = same
  plain_mirrored incorrect_count (error row) e same = same

-- An increment by at least 1 that does not raise, of any counter of a row of any kind, leaves the entry the
-- projection of its row, up to the order of the facets, where it was that before.
pub increment-SameEntry :
    (counter : Counter) (by now : ℕ) (row after : Row) (e mirror : Entry)
    → 1 ≤ by
    → SameEntry e (to_entry row)
    → increment counter by now row e ≡ some (after, mirror)
    → SameEntry mirror (to_entry after)
unfolding increment
increment-SameEntry counter by now row after e mirror low same out =
    elim (Bool-cases (has_column row counter)) [
      | inr c ↦ absurd (cc (rw (increment, c) at out))
      | inl c ↦
          let both = some-injective _ _ (rw (increment, c) at out) in
          subst (λ (p : Row × Entry). SameEntry p.1 (to_entry p.0)) both
            (plain_mirrored by now low counter row e same)
    ]
