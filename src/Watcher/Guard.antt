-- ===== src/Watcher/Guard.antt =====
-- The guarded sweep of `sync_once` in src/mcm_engine/files/watcher.py: what it archives, and that a
-- second sweep archives nothing.
use mcm_engine.Base.{
  ℕ, ◌≡◌, refl, sym, ap, ◌∙◌, String, Bool, true, false, some, List, [], string_eq, nat_eq,
  if◌then◌else◌, Equality, Bool-cases, inl, inr, subst, arith, contains, All, map, length,
}
use mcm_engine.Base.Dict.{get}
use mcm_engine.Entries.Rows.{RuleRow, Entry}
use mcm_engine.Rules.State.{Store}
use mcm_engine.Rules.Query.{first_row, has_file_path, IsTable}
use mcm_engine.Watcher.Cascade.{State}
use mcm_engine.Watcher.Links.{path_of}
use mcm_engine.Watcher.Sync.{
  Setting, Counts, archive_would_storm, managed, orphans, archive_all, reap,
}
use mcm_engine.Watcher.Reaped.{
  is_orphan, orphans-filter, Entries-get, All-filter, filter-none, listed,
}
use mcm_engine.Watcher.Swept.{IsOff, Swept, archive_all-Swept}

orphan-unseen :
    (c : Setting) (seen : List String) (row : RuleRow)
    → is_orphan c seen row ≡ true
    → contains seen (path_of row) ≡ false
unfolding is_orphan
orphan-unseen c seen row h = ground arith

pub orphans-IsOff :
    (c : Setting) (seen : List String) (s : Store)
    → IsTable s.rules
    → All (λ (r : RuleRow). IsOff seen s.rules r.id) (orphans c seen s)
orphans-IsOff c seen s h =
    subst (All (λ (r : RuleRow). IsOff seen s.rules r.id)) (sym (orphans-filter c seen s)) (
      All-filter (λ (r : RuleRow). IsOff seen s.rules r.id)
        (λ (entry : ℕ × RuleRow). (entry.1.id ≡ entry.0) × (get s.rules entry.0 ≡ some entry.1))
        (is_orphan c seen) s.rules
        (λ entry q p. rw (q.0, q.1) (ap some (orphan-unseen c seen entry.1 p)))
        (Entries-get s.rules s.rules (λ id row g. g) h))

abbrev pub would_storm : Setting → List String → Store → Bool
would_storm c seen s =
    archive_would_storm (length (orphans c seen s)) (length (managed c s)) c.archive_circuit_floor
      c.fraction_over c.fraction_under

no_storm :
    (managed_count floor over under : ℕ)
    → archive_would_storm 0 managed_count floor over under ≡ false
unfolding archive_would_storm
no_storm managed_count floor over under = ground arith

module _ {ℓ} {Digest : Type ℓ} ⦃e : Equality Digest⦄ (entry_hash : Entry → Digest) where
  swept :
      (now : ℕ) (c : Setting) (seen : List String) (s : Store)
      → IsTable s.rules
      → Swept c seen
          (map (λ r. r.id) (orphans c seen s))
          s.rules
          (archive_all entry_hash now (orphans c seen s) s).rules
  swept now c seen s h =
      archive_all-Swept entry_hash c seen now (orphans c seen s) s h (orphans-IsOff c seen s h)

  no_orphans :
      (now : ℕ) (c : Setting) (seen : List String) (s : Store)
      → IsTable s.rules
      → orphans c seen (archive_all entry_hash now (orphans c seen s) s) ≡ []
  no_orphans now c seen s h =
      let after = archive_all entry_hash now (orphans c seen s) s in
      let w = swept now c seen s h in
      orphans-filter c seen after
      ∙ filter-none (is_orphan c seen) after.rules w.table (λ id row g p.
        let (before, absent) = w.gone id row g p in
        absurd (
          cc (
            absent,
            ap (λ (rs : List RuleRow). contains (map (λ r. r.id) rs) id) (orphans-filter c seen s),
            listed (is_orphan c seen) s.rules id row h before p,
          )))

  -- What the sweep leaves of the rules, and that another one changes nothing.
  pub record Reaps (c : Setting) (seen : List String) (s t : State) : Type ℓ where
    pub table : IsTable t.store.rules
    pub others :
        (path : String)
        → contains seen path ≡ true
        → first_row (has_file_path path) t.store.rules
          ≡ first_row (has_file_path path) s.store.rules
    pub kept :
        (id : ℕ) (row : RuleRow)
        → get s.store.rules id ≡ some row
        → contains seen (path_of row) ≡ true
        → get t.store.rules id ≡ some row
    pub again :
        (later : ℕ) (m : Counts) (relations : List (ℕ × ℕ))
        → ((reap entry_hash later c seen m (record t { relations = relations })).1
            ≡ record t { relations = relations })
          × ((reap entry_hash later c seen m (record t { relations = relations })).0.upserted_count
              ≡ m.upserted_count)
          × ((reap entry_hash later c seen m (record t { relations = relations })).0.archived
              ≡ (if would_storm c seen t.store then m.archived else 0))

  pub reap-Reaps :
      (now : ℕ) (c : Setting) (seen : List String) (n : Counts) (s : State)
      → IsTable s.store.rules
      → Reaps c seen s (reap entry_hash now c seen n s).1
  unfolding reap archive_all
  reap-Reaps now c seen n s h = elim (Bool-cases (would_storm c seen s.store)) [
    | inl b ↦
        rw (reap, b)
          (record {
            table = h;
            others = λ path p. refl;
            kept = λ id row g p. g;
            again = λ later m relations. rw (reap, b) (refl, refl, refl);
          })
    | inr b ↦
        let w = swept now c seen s.store h in
        let z = no_orphans now c seen s.store h in
        let quiet : would_storm c seen (archive_all entry_hash now (orphans c seen s.store) s.store)
            ≡ false =
          rw z (no_storm _ c.archive_circuit_floor c.fraction_over c.fraction_under) in
        rw (reap, b)
          (record {
            table = w.table;
            others = w.others;
            kept = w.kept;
            again = λ later m relations. rw (reap, quiet, z) (refl, refl, refl);
          })
  ]
