-- ===== src/Watcher/Safe.antt =====
-- What `sync_once` of src/mcm_engine/files/watcher.py does not do: touch a recalled rule whose file is
-- there, or archive more than its guard lets it.
use mcm_engine.Base.{
  ◌≤◌, ◌*◌, max, ◌⊎◌, ℕ, ◌≡◌, refl, sym, String, true, false, some, List, ◌==◌, string_eq, nat_eq,
  Equality, Bool-cases, inl, inr, subst, arith, contains, length, leb, or_else, All,
}
use mcm_engine.Base.Dict.{get, Distinct}
use mcm_engine.Entries.Rows.{RuleRow, Entry}
use mcm_engine.Rules.State.{Store}
use mcm_engine.Rules.Query.{IsTable}
use mcm_engine.Watcher.Links.{path_of}
use mcm_engine.Watcher.Archived.{newly_archived, newly_archived-archive_all, newly_archived-same}
use mcm_engine.Watcher.Cascade.{State}
use mcm_engine.Watcher.Sync.{
  Counts, Disk, Setting, no_counts, paths, orphans, managed, archive_would_storm, upsert_all, reap,
  link_all, sync_once,
}
use mcm_engine.Watcher.Guard.{would_storm, reap-Reaps}
use mcm_engine.Watcher.Loop.{upsert_all-Loops, archived-upsert_all}

storm-bound :
    (orphan_count managed_count floor over under : ℕ)
    → archive_would_storm orphan_count managed_count floor over under ≡ false
    → (orphan_count ≤ floor) ⊎ (orphan_count * under ≤ over * max 1 managed_count)
unfolding archive_would_storm
storm-bound orphan_count managed_count floor over under h =
    elim (Bool-cases (leb orphan_count floor)) [
      | inl c ↦ inl (ground (arith, c))
      | inr c ↦ inr (ground (arith, c, h))
    ]

-- The sweep of a store: the rules that it archives are as many as it reports, they are managed ones
-- whose file is not in the directory, and they are within the guard.
abbrev pub SweptWithin : Setting → Disk → Store → Counts → Store → Type 0
SweptWithin c disk before n after =
    (length (newly_archived before.rules after.rules) ≡ n.archived)
    × All
        (λ (entry : ℕ × RuleRow).
          (c.is_managed_path (path_of entry.1) ≡ true)
          × (contains (paths disk.md_files) (path_of entry.1) ≡ false))
        (newly_archived before.rules after.rules)
    × ((n.archived ≤ c.archive_circuit_floor)
        ⊎ (n.archived * c.fraction_under ≤ c.fraction_over * max 1 (length (managed c before))))

module _ {ℓ} {Digest : Type ℓ} ⦃e : Equality Digest⦄ (entry_hash : Entry → Digest) where
  -- A recalled rule whose file is in the directory is the same after a sync, which returns. The rows of
  -- the store stand at their ids, each once, and no path of the directory twice.
  pub sync_once_recalled :
      (now : ℕ) (c : Setting) (disk : Disk) (s : State) (id : ℕ) (row : RuleRow) (path : String)
      → IsTable s.store.rules
      → Distinct disk.md_files
      → get s.store.rules id ≡ some row
      → (row.status == "recalled") ≡ true
      → row.file_path ≡ some path
      → contains (paths disk.md_files) path ≡ true
      → (n : Counts) × (t : State) × (sync_once entry_hash now c disk s ≡ some (n, t))
        × (get t.store.rules id ≡ some row)
  unfolding sync_once link_all
  sync_once_recalled now c disk s id row path h d g r f m =
      elim (Bool-cases disk.rules_path_exists) [
        | inr x ↦ (no_counts, s, rw (sync_once, x) refl, g)
        | inl x ↦
            let (n, looped, p, l) = upsert_all-Loops entry_hash now disk.md_files no_counts s h d in
            let seen = paths disk.md_files in
            let reaped = reap entry_hash now c seen n looped in
            let last = link_all c disk reaped.0 reaped.1 in
            (
              last.0,
              last.1,
              rw (sync_once, x, p) refl,
              (reap-Reaps entry_hash now c seen n looped l.table).kept id row (l.frozen id row g r)
                  (subst (λ o. contains seen (or_else o "") ≡ true) (sym f) m),
            )
      ]

  reap-bound :
      (now : ℕ) (c : Setting) (seen : List String) (n : Counts) (s : State)
      → n.archived ≡ 0
      → ((reap entry_hash now c seen n s).0.archived ≤ c.archive_circuit_floor)
        ⊎ ((reap entry_hash now c seen n s).0.archived * c.fraction_under
            ≤ c.fraction_over * max 1 (length (managed c s.store)))
  unfolding reap
  reap-bound now c seen n s h = elim (Bool-cases (would_storm c seen s.store)) [
    | inl b ↦ rw (reap, b) (inl (ground (arith, h)))
    | inr b ↦
        rw (reap, b)
          (storm-bound (length (orphans c seen s.store)) (length (managed c s.store))
            c.archive_circuit_floor c.fraction_over c.fraction_under b)
  ]

  reaped_within :
      (now : ℕ) (c : Setting) (disk : Disk) (m : Counts) (s : State)
      → IsTable s.store.rules
      → m.archived ≡ 0
      → let reaped = reap entry_hash now c (paths disk.md_files) m s in
        SweptWithin c disk s.store reaped.0 reaped.1.store
  unfolding reap
  reaped_within now c disk m s h z =
      let seen = paths disk.md_files in
      let within = reap-bound now c seen m s z in
      elim (Bool-cases (would_storm c seen s.store)) [
        | inl b ↦
            let none_left = newly_archived-same s.store.rules h in
            rw (reap, b, none_left) (sym z, tt, rw (reap, b) at within)
        | inr b ↦
            let (count, all) = newly_archived-archive_all entry_hash c seen now s.store h in
            rw (reap, b) (count, all, rw (reap, b) at within)
      ]

  -- A sync returns. Where the directory is there, its upserts give a state such that the rules that are
  -- archived in the table afterwards, and were not in that state, are as many as the sync reports; each
  -- of them is managed and its file is not in the directory; and they are no more than the floor, or no
  -- more than the fraction of the managed rules of that state. Where the directory is not there, nothing
  -- changes. The rows of the store stand at their ids, each once, and no path of the directory twice.
  pub sync_once_bounded :
      (now : ℕ) (c : Setting) (disk : Disk) (s : State)
      → IsTable s.store.rules
      → Distinct disk.md_files
      → (n : Counts) × (t : State) × (sync_once entry_hash now c disk s ≡ some (n, t))
        × (((disk.rules_path_exists ≡ false) × (n ≡ no_counts) × (t ≡ s))
            ⊎ ((m : Counts) × (after : State) × (upsert_all entry_hash now disk.md_files no_counts s
                  ≡ some (m, after))
                × SweptWithin c disk after.store n t.store))
  unfolding sync_once link_all
  sync_once_bounded now c disk s h d = elim (Bool-cases disk.rules_path_exists) [
    | inr x ↦ (no_counts, s, rw (sync_once, x) refl, inl (x, refl, refl))
    | inl x ↦
        let (m, after, p, l) = upsert_all-Loops entry_hash now disk.md_files no_counts s h d in
        let reaped = reap entry_hash now c (paths disk.md_files) m after in
        let last = link_all c disk reaped.0 reaped.1 in
        let none_before = archived-upsert_all entry_hash now disk.md_files no_counts m s after p in
        (
          last.0,
          last.1,
          rw (sync_once, x, p) refl,
          inr (m, after, p, reaped_within now c disk m after l.table none_before),
        )
  ]
