-- ===== src/Ingest/Idempotent.antt =====
-- A batch of new rules can be committed again: `commit_verdicts` of src/mcm_engine/ingest/adjudicate.py
-- finds each one there already.
use mcm_engine.Base.{
  ℕ, suc, ◌+◌, ◌≡◌, refl, sym, ap, ◌∙◌, subst, String, Bool, true, false, ◌||◌, none, is_some, List,
  [], ◌∷◌, All, arith, Equality, ◌==◌, string_eq, nat_eq, if◌then◌else◌, Bool-cases, Option-cases,
  inl, inr, same_refl,
}
use mcm_engine.Base.Dict.{Dict, get, put}
use mcm_engine.Entries.Rows.{RuleRow, Entry}
use mcm_engine.Rules.State.{Store, max_id}
use mcm_engine.Rules.Store.{insert_rule, insert_id, inserted_row}
use mcm_engine.Rules.Query.{fresh}
use mcm_engine.Rules.Sync.{rules-mirror_entry}
use mcm_engine.Database.Connection.{CommitReply, commit_done}
use mcm_engine.Ingest.Verdict.{add, Verdict, validate, CommitReport, empty_report}
use mcm_engine.Ingest.Commit.{
  Source, is_active_copy, find_active, find_rule_by_content_hash, rule_of, insert_rule_event,
  insert_verdict, commit_add, apply, commit_one,
}
use mcm_engine.Ingest.Connected.{connected, all_done, settle-done, settle-same}
use mcm_engine.Ingest.Batch.{raises, is_invalid, settle, commit_from, commit_verdicts}

find_active-put :
    (content_hash : String) (d : Dict ℕ RuleRow) (id : ℕ) (row : RuleRow)
    → get d id ≡ none
    → is_some (find_active content_hash (put d id row))
      ≡ (is_some (find_active content_hash d) || is_active_copy content_hash row)
unfolding find_active put get
find_active-put content_hash [] id row h = ground arith
find_active-put content_hash ((j, w) ∷ d) id row h =
    ground (arith, find_active-put content_hash d id row)

module _ {ℓ} {Digest : Type ℓ} ⦃e : Equality Digest⦄ (entry_hash : Entry → Digest)
    (sha256 : String → String) where
  -- The rule of the verdict is there, or the verdict is refused.
  unfoldable pub settled : Verdict → Store → Bool
  settled v s = is_some (validate v) || is_some (find_rule_by_content_hash (sha256 v.content) s)

  new_row : Source → ℕ → Verdict → Store → RuleRow
  new_row source now v s =
      inserted_row (max_id s.rules + 1) now (rule_of (sha256 v.content) source.actor v)

  -- An addition changes nothing, or puts one row.
  rules-added :
      (source : Source) (now : ℕ) (v : Verdict) (s : Store)
      → v.action ≡ add
      → (commit_one entry_hash sha256 source now v s).1.rules ≡ (
          if settled v s
          then s.rules
          else put s.rules (max_id s.rules + 1) (new_row source now v s))
  unfolding settled new_row commit_one apply commit_add insert_verdict insert_rule rule_of insert_id
      insert_rule_event
  rules-added source now v s a = elim (Option-cases (validate v)) [
    | inr (err, p) ↦ rw (commit_one, p) refl
    | inl p ↦
        rw (commit_one, p, apply, a)
          (elim (Option-cases (find_rule_by_content_hash (sha256 v.content) s)) [
            | inr (row, q) ↦ rw (commit_add, q) refl
            | inl q ↦
                let id = max_id s.rules + 1 in
                rw (commit_add, q, insert_verdict, insert_rule, fresh s.rules id (omega arith))
                  (rules-mirror_entry entry_hash id _)
          ])
  ]

  settled-unchanged :
      (source : Source) (now : ℕ) (v : Verdict) (s : Store)
      → v.action ≡ add
      → settled v s ≡ true
      → (commit_one entry_hash sha256 source now v s).1 ≡ s
  unfolding settled commit_one apply commit_add
  settled-unchanged source now v s a h = elim (Option-cases (validate v)) [
    | inr (err, p) ↦ rw (commit_one, p) refl
    | inl p ↦
        rw (commit_one, p, apply, a)
          (elim (Option-cases (find_rule_by_content_hash (sha256 v.content) s)) [
            | inr (row, q) ↦ rw (commit_add, q) refl
            | inl q ↦ absurd (ground (arith, p, q, h))
          ])
  ]

  -- What an addition that puts a row leaves to be found.
  found-after :
      (source : Source) (now : ℕ) (v : Verdict) (content_hash : String) (s : Store)
      → v.action ≡ add
      → settled v s ≡ false
      → is_some (find_active content_hash (commit_one entry_hash sha256 source now v s).1.rules) ≡ (
          is_some (find_active content_hash s.rules)
          || is_active_copy content_hash (new_row source now v s))
  found-after source now v content_hash s a c =
      let id = max_id s.rules + 1 in
      rw (rules-added source now v s a, c)
        (find_active-put content_hash s.rules id (new_row source now v s)
          (fresh s.rules id (omega arith)))

  settled-after :
      (source : Source) (now : ℕ) (v w : Verdict) (s : Store)
      → v.action ≡ add
      → settled w s ≡ true
      → settled w (commit_one entry_hash sha256 source now v s).1 ≡ true
  settled-after source now v w s a h = elim (Bool-cases (settled v s)) [
    | inl c ↦ rw (settled-unchanged source now v s a c) h
    | inr c ↦
        unfold settled find_rule_by_content_hash in
        ground (arith, h, found-after source now v (sha256 w.content) s a c)
  ]

  settled-here :
      (source : Source) (now : ℕ) (v : Verdict) (s : Store)
      → v.action ≡ add
      → (sha256 v.content == "") ≡ false
      → settled v (commit_one entry_hash sha256 source now v s).1 ≡ true
  settled-here source now v s a n = elim (Bool-cases (settled v s)) [
    | inl c ↦ rw (settled-unchanged source now v s a c) c
    | inr c ↦
        unfold settled find_rule_by_content_hash new_row inserted_row rule_of is_active_copy in
        ground (
          arith,
          n,
          found-after source now v (sha256 v.content) s a c,
          same_refl (sha256 v.content),
        )
  ]

  -- The batch's verdicts are additions, with a digest that is no empty text.
  abbrev pub Additions : List Verdict → Type 0
  Additions verdicts = All (λ v. (v.action ≡ add) × ((sha256 v.content == "") ≡ false)) verdicts

  -- The store after the verdicts, where every commit is done.
  after_all : Source → ℕ → List Verdict → Store → Store
  after_all source now [] s = s
  after_all source now (v ∷ verdicts) s =
      after_all source now verdicts (commit_one entry_hash sha256 source now v s).1

  settled_through :
      (source : Source) (now : ℕ) (w : Verdict) (verdicts : List Verdict) (s : Store)
      → Additions verdicts
      → settled w s ≡ true
      → settled w (after_all source now verdicts s) ≡ true
  unfolding after_all
  settled_through source now w [] s a h = h
  settled_through source now w (v ∷ verdicts) s ((a, n), rest) h =
      settled_through source now w verdicts (commit_one entry_hash sha256 source now v s).1 rest
        (settled-after source now v w s a h)

  each_settled :
      (source : Source) (now : ℕ) (verdicts : List Verdict) (s : Store)
      → Additions verdicts
      → All (λ v. settled v (after_all source now verdicts s) ≡ true) verdicts
  unfolding after_all
  each_settled source now [] s a = tt
  each_settled source now (v ∷ verdicts) s ((a, n), rest) =
      let next = (commit_one entry_hash sha256 source now v s).1 in
      (
        settled_through source now v verdicts next rest (settled-here source now v s a n),
        each_settled source now verdicts next rest,
      )

  -- An addition that is refused, or whose block raises, leaves the store.
  kept-commit_one :
      (source : Source) (now : ℕ) (v : Verdict) (s : Store)
      → v.action ≡ add
      → let (detail, after) = commit_one entry_hash sha256 source now v s in
        (raises detail || is_invalid detail) ≡ true → after ≡ s
  unfolding commit_one apply commit_add insert_verdict raises is_invalid
  kept-commit_one source now v s a = elim (Option-cases (validate v)) [
    | inr (err, p) ↦ rw (commit_one, p) (λ h. refl)
    | inl p ↦
        rw (commit_one, p, apply, a)
          (elim (Option-cases (find_rule_by_content_hash (sha256 v.content) s)) [
            | inr (row, q) ↦ rw (commit_add, q) (λ h. refl)
            | inl q ↦ elim (Option-cases (insert_verdict entry_hash sha256 source now v s)) [
              | inl i ↦ rw (commit_add, q, i) (λ h. refl)
              | inr ((id, after), i) ↦ rw (commit_add, q, i) (λ h. absurd (ground (arith, h)))
            ]
          ])
  ]

  done_from :
      (source : Source) (now : ℕ) (verdicts : List Verdict) (r : CommitReport) (s : Store)
      → Additions verdicts
      → (commit_from entry_hash sha256 source now all_done verdicts r (connected s)).1
        ≡ connected (after_all source now verdicts s)
  unfolding commit_from after_all
  done_from source now [] r s a = refl
  done_from source now (v ∷ verdicts) r s ((a, n), rest) =
      let (detail, next) = commit_one entry_hash sha256 source now v s in
      let one = settle-done detail s next r (kept-commit_one source now v s a) in
      let noted = (settle commit_done detail next r (connected s)).0 in
      ap (λ db. (commit_from entry_hash sha256 source now all_done verdicts noted db).1) one
      ∙ done_from source now verdicts noted next rest

  unchanged_from :
      (source : Source) (now : ℕ) (replies : ℕ → CommitReply) (verdicts : List Verdict)
      (r : CommitReport) (s : Store)
      → Additions verdicts
      → All (λ v. settled v s ≡ true) verdicts
      → (commit_from entry_hash sha256 source now replies verdicts r (connected s)).1 ≡ connected s
  unfolding commit_from
  unchanged_from source now replies [] r s a h = refl
  unchanged_from source now replies (v ∷ verdicts) r s ((a, n), rest) (h, hs) =
      let (detail, next) = commit_one entry_hash sha256 source now v s in
      let still : next ≡ s = settled-unchanged source now v s a h in
      let one =
        ap (λ t. (settle (replies 0) detail t r (connected s)).1) still
        ∙ settle-same (replies 0) detail s r in
      let later : ℕ → CommitReply = λ n. replies (suc n) in
      let noted = (settle (replies 0) detail next r (connected s)).0 in
      ap (λ db. (commit_from entry_hash sha256 source now later verdicts noted db).1) one
      ∙ unchanged_from source now later verdicts noted s rest hs

  -- A batch of additions is committed, and each commit is done. Committed again on that connection, at
  -- any later time, from any source and whatever SQLite answers to the commits, it leaves the file and
  -- the connection exactly as they were, where no digest is the empty text and the connection saw the
  -- file, outside of any transaction.
  pub commit_verdicts_again :
      (replies : ℕ → CommitReply) (first second : Source) (now later : ℕ) (verdicts : List Verdict)
      (s : Store)
      → Additions verdicts
      → let once =
          (commit_verdicts entry_hash sha256 first now all_done verdicts (connected s)).1 in
        (commit_verdicts entry_hash sha256 second later replies verdicts once).1 ≡ once
  unfolding commit_verdicts
  commit_verdicts_again replies first second now later verdicts s a =
      let done = done_from first now verdicts empty_report s a in
      subst
        (λ db. (commit_from entry_hash sha256 second later replies verdicts empty_report db).1 ≡ db)
        (sym done)
        (unchanged_from second later replies verdicts empty_report (after_all first now verdicts s)
          a (each_settled first now verdicts s a))
