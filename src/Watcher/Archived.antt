-- ===== src/Watcher/Archived.antt =====
-- Which rules the sweep of `sync_once` in src/mcm_engine/files/watcher.py archives.
use mcm_engine.Base.{
  ℕ, ◌≡◌, refl, sym, ap, ◌∙◌, String, Bool, true, false, not, ◌&&◌, ◌||◌, some, List, [], ◌∷◌, ◌==◌,
  string_eq, nat_eq, if◌then◌else◌, Equality, Option-cases, Bool-cases, inl, inr, subst, arith,
  contains, All, map, filter, length,
}
use mathlib.Core.Option.{some-injective}
use mcm_engine.Base.Dict.{Dict, get, has, put, get-put}
use mcm_engine.Entries.Rows.{RuleRow, Entry}
use mcm_engine.Rules.State.{Store}
use mcm_engine.Rules.Store.{soft_delete_rule}
use mcm_engine.Rules.Query.{IsTable}
use mcm_engine.Rules.Restore.{is_archived}
use mcm_engine.Watcher.Links.{path_of}
use mcm_engine.Watcher.Sync.{Setting, orphans, archive_all}
use mcm_engine.Watcher.Reaped.{rows, is_orphan, orphans-filter, Entries-get, listed}
use mcm_engine.Watcher.Swept.{IsOff, deleted, All-IsOff, rules-soft_delete_rule}
use mcm_engine.Watcher.Guard.{orphans-IsOff}

-- The entries of the first table whose rule is archived in the second one only.
abbrev pub newly_archived : Dict ℕ RuleRow → Dict ℕ RuleRow → Dict ℕ RuleRow
newly_archived d after = filter (λ entry. not entry.1.archived && is_archived after entry.0) d

unlisted_key :
    (p : RuleRow → Bool) (d : Dict ℕ RuleRow) (id : ℕ)
    → All (λ (entry : ℕ × RuleRow). entry.1.id ≡ entry.0) d
    → has d id ≡ false
    → contains (map (λ r. r.id) (filter p (rows d))) id ≡ false
unfolding get contains
unlisted_key p [] id k h = refl
unlisted_key p ((j, w) ∷ d) id (k, ks) h =
    let named : (w.id == id) ≡ (j == id) = ap (λ i. i == id) k in
    ground (arith, h, named, unlisted_key p d id ks)

-- A row that does not pass the filter is not listed.
unlisted :
    (p : RuleRow → Bool) (d : Dict ℕ RuleRow) (id : ℕ) (row : RuleRow)
    → IsTable d
    → get d id ≡ some row
    → p row ≡ false
    → contains (map (λ r. r.id) (filter p (rows d))) id ≡ false
unfolding get contains
unlisted p [] id row h g c = refl
unlisted p ((j, w) ∷ d) id row h g c =
    let rest : IsTable d = record { distinct = h.distinct.1; keyed = h.keyed.1 } in
    elim (Bool-cases (j == id)) [
      | inl q ↦
          let w_is : w ≡ row =
            some-injective w row (subst (λ b. (if b then some w else get d id) ≡ some row) q g) in
          let gone = subst (λ i. has d i ≡ false) ((nat_eq.same_iff j id).0 q) h.distinct.0 in
          rw (ap p w_is ∙ c) (unlisted_key p d id h.keyed.1 gone)
      | inr q ↦
          let tail = subst (λ b. (if b then some w else get d id) ≡ some row) q g in
          let named : (w.id == id) ≡ false = ap (λ i. i == id) h.keyed.0 ∙ q in
          ground (arith, named, unlisted p d id row rest tail c)
    ]

count-filter :
    (q : ℕ × RuleRow → Bool) (p : RuleRow → Bool) (d : Dict ℕ RuleRow)
    → All (λ (entry : ℕ × RuleRow). q entry ≡ p entry.1) d
    → length (filter q d) ≡ length (filter p (rows d))
count-filter q p [] h = refl
count-filter q p (entry ∷ d) (e, h) = ground (arith, e, count-filter q p d h)

All-filtered :
    (q : ℕ × RuleRow → Bool) (p : RuleRow → Bool) (d : Dict ℕ RuleRow)
    → All (λ (entry : ℕ × RuleRow). q entry ≡ p entry.1) d
    → All (λ (entry : ℕ × RuleRow). p entry.1 ≡ true) (filter q d)
All-filtered q p [] h = tt
All-filtered q p (entry ∷ d) (e, h) = elim (Bool-cases (q entry)) [
  | inl c ↦ rw c (sym e ∙ c, All-filtered q p d h)
  | inr c ↦ rw c (All-filtered q p d h)
]

All-weaken {ℓ κ λ'} :
    {A : Type ℓ} (P : A → Type κ) (Q : A → Type λ') (xs : List A)
    → ((a : A) → P a → Q a)
    → All P xs
    → All Q xs
All-weaken P Q [] f h = tt
All-weaken P Q (x ∷ xs) f (p, h) = (f x p, All-weaken P Q xs f h)

-- An orphan is a rule that is not archived before the sweep and is after it.
orphan_test :
    (c : Setting) (seen : List String) (row : RuleRow)
    → (not row.archived && (row.archived || is_orphan c seen row)) ≡ is_orphan c seen row
unfolding is_orphan
orphan_test c seen row = ground arith

orphan_is :
    (c : Setting) (seen : List String) (row : RuleRow)
    → is_orphan c seen row ≡ true
    → (c.is_managed_path (path_of row) ≡ true) × (contains seen (path_of row) ≡ false)
unfolding is_orphan
orphan_is c seen row h = (ground arith, ground arith)

is_archived_at :
    (d : Dict ℕ RuleRow) (id : ℕ) (row : RuleRow)
    → get d id ≡ some row
    → is_archived d id ≡ row.archived
unfolding is_archived
is_archived_at d id row g = rw (is_archived, g) refl

archived_put :
    (d : Dict ℕ RuleRow) (id j now : ℕ) (row : RuleRow)
    → is_archived (put d id (deleted now row)) j ≡ (id == j || is_archived d j)
unfolding is_archived
archived_put d id j now row = ground (arith, get-put d id j (deleted now row))

module _ {ℓ} {Digest : Type ℓ} ⦃e : Equality Digest⦄ (entry_hash : Entry → Digest) where
  is_archived-archive_all :
      (seen : List String) (now : ℕ) (gone : List RuleRow) (s : Store) (id : ℕ)
      → All (λ (r : RuleRow). IsOff seen s.rules r.id) gone
      → is_archived (archive_all entry_hash now gone s).rules id
        ≡ (is_archived s.rules id || contains (map (λ r. r.id) gone) id)
  unfolding archive_all contains
  is_archived-archive_all seen now [] s id off = ground arith
  is_archived-archive_all seen now (r ∷ gone) s id (off, offs) =
      elim (Option-cases (get s.rules r.id)) [
        | inl g ↦ absurd (cc (g, off))
        | inr (row, g) ↦
            let next = soft_delete_rule entry_hash r.id now s in
            let is_put = rules-soft_delete_rule entry_hash r.id now row s g in
            let offs' =
              subst (λ d. All (λ (r : RuleRow). IsOff seen d r.id) gone) (sym is_put)
                (All-IsOff seen s.rules r.id now row gone g offs) in
            let one : is_archived next.rules id ≡ (r.id == id || is_archived s.rules id) =
              ap (λ d. is_archived d id) is_put ∙ archived_put s.rules r.id id now row in
            ground (arith, one, is_archived-archive_all seen now gone next id offs')
      ]

  -- One entry of the table.
  newly-is_orphan :
      (c : Setting) (seen : List String) (now id : ℕ) (row : RuleRow) (s : Store)
      → IsTable s.rules
      → get s.rules id ≡ some row
      → (not row.archived && is_archived (archive_all entry_hash now (orphans c seen s) s).rules id)
        ≡ is_orphan c seen row
  newly-is_orphan c seen now id row s h g =
      let swept =
        is_archived-archive_all seen now (orphans c seen s) s id (orphans-IsOff c seen s h) in
      let same =
        ap (λ (rs : List RuleRow). contains (map (λ r. r.id) rs) id) (orphans-filter c seen s) in
      let named : contains (map (λ r. r.id) (filter (is_orphan c seen) (rows s.rules))) id
          ≡ is_orphan c seen row =
        elim (Bool-cases (is_orphan c seen row)) [
          | inl p ↦ listed (is_orphan c seen) s.rules id row h g p ∙ sym p
          | inr p ↦ unlisted (is_orphan c seen) s.rules id row h g p ∙ sym p
        ] in
      let before = is_archived_at s.rules id row g in
      ap (λ b. not row.archived && b) (swept ∙ (λ i. before i || (same ∙ named) i))
      ∙ orphan_test c seen row

  -- The entries that the sweep archives are the orphans.
  newly-orphans :
      (c : Setting) (seen : List String) (now : ℕ) (s : Store)
      → IsTable s.rules
      → All
          (λ (entry : ℕ × RuleRow).
            (not entry.1.archived
              && is_archived (archive_all entry_hash now (orphans c seen s) s).rules entry.0)
            ≡ is_orphan c seen entry.1)
          s.rules
  newly-orphans c seen now s h =
      All-weaken _ _ s.rules (λ entry q. newly-is_orphan c seen now entry.0 entry.1 s h q.1)
        (Entries-get s.rules s.rules (λ id row g. g) h)

  pub newly_archived-archive_all :
      (c : Setting) (seen : List String) (now : ℕ) (s : Store)
      → IsTable s.rules
      → let after = (archive_all entry_hash now (orphans c seen s) s).rules in
        (length (newly_archived s.rules after) ≡ length (orphans c seen s))
        × All
            (λ (entry : ℕ × RuleRow).
              (c.is_managed_path (path_of entry.1) ≡ true)
              × (contains seen (path_of entry.1) ≡ false))
            (newly_archived s.rules after)
  newly_archived-archive_all c seen now s h =
      let all = newly-orphans c seen now s h in
      (
        count-filter _ (is_orphan c seen) s.rules all
            ∙ ap (λ (rs : List RuleRow). length rs) (sym (orphans-filter c seen s)),
        All-weaken _ _ (newly_archived s.rules _) (λ entry p. orphan_is c seen entry.1 p)
            (All-filtered _ (is_orphan c seen) s.rules all),
      )

-- A table has no rule that is archived in itself only.
pub newly_archived-same : (d : Dict ℕ RuleRow) → IsTable d → newly_archived d d ≡ []
newly_archived-same d h = none_left d d (Entries-get d d (λ id row g. g) h)
  where
    none_left :
        (xs whole : Dict ℕ RuleRow)
        → All
            (λ (entry : ℕ × RuleRow). (entry.1.id ≡ entry.0) × (get whole entry.0 ≡ some entry.1))
            xs
        → newly_archived xs whole ≡ []
    none_left [] whole q = refl
    none_left ((id, row) ∷ xs) whole ((k, g), q) =
        let before = is_archived_at whole id row g in
        let own : (not row.archived && is_archived whole id) ≡ false = ground (arith, before) in
        rw own (none_left xs whole q)
