-- ===== src/Rules/Reports.antt =====
-- What reports of outcomes, in src/mcm_engine/tools/rules.py, do to the counters of a rule.
use mcm_engine.Base.{
  ℕ, ◌+◌, String, Bool, true, false, not, some, List, [], ◌∷◌, ◌==◌, ◌≡◌, refl, sym, ap, ◌∙◌, arith,
  nat_eq, string_eq, if◌then◌else◌, Equality, Option-cases, Bool-cases, inl, inr,
}
use mcm_engine.Base.Dict.{get, get-put}
use mcm_engine.Entries.Rows.{RuleRow, Entry}
use mcm_engine.Rules.State.{Store, update_row, log_event}
use mcm_engine.Rules.Store.{count_outcome, record_outcome}
use mcm_engine.Rules.Sync.{rules-mirror_entry}
use mcm_engine.Rules.Tools.{is_self_report, report_one, report_outcome}

-- How often the id stands in the list.
unfoldable pub occurrences : ℕ → List ℕ → ℕ
occurrences id [] = 0
occurrences id (j ∷ ids) = let rest = occurrences id ids in if j == id then rest + 1 else rest

-- The row with `n` reports counted; those by its own author count nothing.
unfoldable pub credited : ℕ → Bool → Bool → RuleRow → RuleRow
credited n true passed row = row
credited n false true row = record row { correct_count = row.correct_count + n }
credited n false false row = record row { incorrect_count = row.incorrect_count + n }

credited-zero : (self passed : Bool) (row : RuleRow) → credited 0 self passed row ≡ row
unfolding credited
credited-zero true passed row = refl
credited-zero false true row =
    let p : row.correct_count + 0 ≡ row.correct_count = omega arith in
    λ i. record row { correct_count = p i }
credited-zero false false row =
    let p : row.incorrect_count + 0 ≡ row.incorrect_count = omega arith in
    λ i. record row { incorrect_count = p i }

credited-suc :
    (n : ℕ) (self passed : Bool) (row : RuleRow)
    → credited n self passed (count_outcome (not self) passed row)
      ≡ credited (n + 1) self passed row
unfolding credited count_outcome
credited-suc n true passed row = refl
credited-suc n false true row =
    let p : row.correct_count + 1 + n ≡ row.correct_count + (n + 1) = omega arith in
    λ i. record row { correct_count = p i }
credited-suc n false false row =
    let p : row.incorrect_count + 1 + n ≡ row.incorrect_count + (n + 1) = omega arith in
    λ i. record row { incorrect_count = p i }

author-kept :
    (who : String) (count passed : Bool) (row : RuleRow)
    → is_self_report who (count_outcome count passed row) ≡ is_self_report who row
unfolding is_self_report count_outcome
author-kept who false passed row = refl
author-kept who true true row = refl
author-kept who true false row = refl

module _ {ℓ} {Digest : Type ℓ} ⦃e : Equality Digest⦄ (entry_hash : Entry → Digest) where
  get-record_outcome :
      (id j : ℕ) (who : String) (passed count : Bool) (now : ℕ) (row : RuleRow) (s : Store)
      → get s.rules id ≡ some row
      → get (record_outcome entry_hash id who passed count now s).rules j
        ≡ (if id == j then some (count_outcome count passed row) else get s.rules j)
  unfolding record_outcome update_row log_event
  get-record_outcome id j who passed count now row s p =
      rw (record_outcome, rules-mirror_entry, update_row, p)
        (get-put s.rules id j (count_outcome count passed row))

  report_here :
      (id : ℕ) (who : String) (passed : Bool) (now : ℕ) (row : RuleRow) (s : Store)
      → get s.rules id ≡ some row
      → get (report_one entry_hash id who passed now s).1.rules id
        ≡ some (count_outcome (not (is_self_report who row)) passed row)
  unfolding report_one
  report_here id who passed now row s p =
      rw (report_one, p)
        (get-record_outcome id id who passed (not (is_self_report who row)) now row s p
          ∙ rw ((nat_eq.same_iff id id).1 refl) refl)

  report_elsewhere :
      (j id : ℕ) (who : String) (passed : Bool) (now : ℕ) (s : Store)
      → (j == id) ≡ false
      → get (report_one entry_hash j who passed now s).1.rules id ≡ get s.rules id
  unfolding report_one
  report_elsewhere j id who passed now s c = elim (Option-cases (get s.rules j)) [
    | inl p ↦ rw (report_one, p) refl
    | inr (row, p) ↦
        rw (report_one, p)
          (get-record_outcome j id who passed (not (is_self_report who row)) now row s p
            ∙ rw c refl)
  ]

  -- A call of `report_outcome` raises, of a rule that is there, the counter that the verdict names by
  -- the number of times that the rule is listed, when the actor is not the rule's author; it changes
  -- nothing else of the row, and nothing at all when the actor is the author.
  pub reports_counted :
      (ids : List ℕ) (id : ℕ) (who : String) (passed : Bool) (now : ℕ) (row : RuleRow) (s : Store)
      → get s.rules id ≡ some row
      → get (report_outcome entry_hash ids who passed now s).1.rules id
        ≡ some (credited (occurrences id ids) (is_self_report who row) passed row)
  unfolding report_outcome occurrences
  reports_counted [] id who passed now row s p =
      p ∙ ap some (sym (credited-zero (is_self_report who row) passed row))
  reports_counted (j ∷ ids) id who passed now row s p =
      let next = (report_one entry_hash j who passed now s).1 in
      let self = is_self_report who row in
      elim (Bool-cases (j == id)) [
        | inl c ↦
            let changed = count_outcome (not self) passed row in
            let here : get next.rules id ≡ some changed =
              rw ((nat_eq.same_iff j id).0 c) (report_here id who passed now row s p) in
            rw c (
              reports_counted ids id who passed now changed next here
              ∙ rw (author-kept who (not self) passed row)
                  (ap some (credited-suc (occurrences id ids) self passed row)))
        | inr c ↦ rw c (
            reports_counted ids id who passed now row next
              (report_elsewhere j id who passed now s c ∙ p))
      ]
