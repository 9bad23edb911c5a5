-- ===== src/Rules/Sync.antt =====
-- The mirror of src/mcm_engine/entries.py: after an operation on the row of one id, mirroring that id
-- brings the entries of kind "rule" back in step with the rows.
use mcm_engine.Base.{
  ℕ, false, Option, none, some, ◌==◌, ◌≡◌, refl, sym, ap, ◌∙◌, nat_eq, if◌then◌else◌, Equality,
  subst, Option-cases, Bool-cases, inl, inr, map_option,
}
use mcm_engine.Base.Dict.{get, get-put, get-remove}
use mcm_engine.Entries.Rows.{RuleRow, Entry}
use mcm_engine.Entries.Project.{rule_to_entry}
use mcm_engine.Rules.State.{Store}
use mcm_engine.Rules.Mirror.{seed_entry_ids, update_entry, mirror_row, mirror_entry}

unfoldable pub RowAt : ℕ → Option RuleRow → Type 0
RowAt id none = Unit
RowAt id (some row) = row.id ≡ id

unfoldable pub EntryAt : ℕ → Option Entry → Type 0
EntryAt id none = Unit
EntryAt id (some entry) = (entry.id ≡ id) × (entry.kind ≡ "rule")

module _ {ℓ} {Digest : Type ℓ} ⦃e : Equality Digest⦄ (entry_hash : Entry → Digest) where
  -- There is an entry where there is a row, and its digest is that of the projected row.
  abbrev pub Agrees : Option RuleRow → Option Entry → Type ℓ
  Agrees row entry =
      map_option entry_hash entry ≡ map_option (λ r. entry_hash (rule_to_entry r)) row

  unfoldable pub SyncedAt : ℕ → Option RuleRow → Option Entry → Type ℓ
  SyncedAt id row entry = RowAt id row × EntryAt id entry × Agrees row entry

  -- Rows and entries stand at their ids and agree.
  pub record IsSynced (s : Store) : Type ℓ where
    pub at_id : (id : ℕ) → SyncedAt id (get s.rules id) (get s.entries id)

  -- As between an operation on the row of `id` and its mirror.
  pub record IsPending (id : ℕ) (s : Store) : Type ℓ where
    pub row_here : RowAt id (get s.rules id)
    pub entry_here : EntryAt id (get s.entries id)
    pub elsewhere : (j : ℕ) → (id == j) ≡ false → SyncedAt j (get s.rules j) (get s.entries j)

  -- The entry that the mirror leaves, from the row and the entry that are there.
  unfoldable pub mirrored_value : Option RuleRow → Option Entry → Option Entry
  mirrored_value none entry = none
  mirrored_value (some row) none = some (rule_to_entry row)
  mirrored_value (some row) (some got) =
      if entry_hash got == entry_hash (rule_to_entry row)
      then some got
      else some (record (rule_to_entry row) { kind = got.kind; id = got.id })

  pub SyncedAt-mirrored_value :
      (id : ℕ) (row : Option RuleRow) (entry : Option Entry)
      → RowAt id row
      → EntryAt id entry
      → SyncedAt id row (mirrored_value row entry)
  unfolding SyncedAt mirrored_value RowAt EntryAt rule_to_entry
  SyncedAt-mirrored_value id none entry r w = (tt, tt, refl)
  SyncedAt-mirrored_value id (some row) none r w = (r, (r, refl), refl)
  SyncedAt-mirrored_value id (some row) (some got) r (i, k) =
      let want = rule_to_entry row in
      elim (Bool-cases (entry_hash got == entry_hash want)) [
        | inl c ↦ rw c (r, (i, k), ap some ((e.same_iff (entry_hash got) (entry_hash want)).0 c))
        | inr c ↦
            rw c
              (r, (i, k), λ t. some (entry_hash (record want { kind = k t; id = (i ∙ sym r) t })))
      ]

  pub rules-mirror_entry : (id : ℕ) (s : Store) → (mirror_entry entry_hash id s).rules ≡ s.rules
  unfolding mirror_entry mirror_row seed_entry_ids update_entry
  rules-mirror_entry id s = elim (Option-cases (get s.rules id)) [
    | inl p ↦ rw (mirror_entry, p) refl
    | inr (row, p) ↦
        rw (mirror_entry, p)
          (elim (Option-cases (get s.entries id)) [
            | inl q ↦ rw (mirror_row, q) refl
            | inr (got, q) ↦
                rw (mirror_row, q)
                  (elim (Bool-cases (entry_hash got == entry_hash (rule_to_entry row))) [
                    | inl c ↦ rw c refl
                    | inr c ↦ rw c refl
                  ])
          ])
  ]

  same_entry :
      (id j : ℕ) (s : Store)
      → get s.entries j ≡ (if id == j then get s.entries id else get s.entries j)
  same_entry id j s = elim (Bool-cases (id == j)) [
    | inl c ↦ rw c (ap (get s.entries) (sym ((nat_eq.same_iff id j).0 c)))
    | inr c ↦ rw c refl
  ]

  pub get-mirror_entry :
      (id j : ℕ) (s : Store)
      → RowAt id (get s.rules id)
      → get (mirror_entry entry_hash id s).entries j
        ≡ (if id == j then mirrored_value (get s.rules id) (get s.entries id) else get s.entries j)
  unfolding mirror_entry mirror_row seed_entry_ids update_entry mirrored_value RowAt rule_to_entry
  get-mirror_entry id j s r = elim (Option-cases (get s.rules id)) [
    | inl p ↦ rw (mirror_entry, p) (get-remove s.entries id j)
    | inr (row, p) ↦
        let want = rule_to_entry row in
        let here : row.id ≡ id = subst (RowAt id) p r in
        rw (mirror_entry, p)
          (elim (Option-cases (get s.entries id)) [
            | inl q ↦ rw (mirror_row, q, get-put s.entries row.id j want, here) refl
            | inr (got, q) ↦
                rw (mirror_row, q)
                  (elim (Bool-cases (entry_hash got == entry_hash want)) [
                    | inl c ↦
                        rw c
                          (same_entry id j s ∙ ap (λ o. if id == j then o else get s.entries j) q)
                    | inr c ↦
                        rw c (get-put s.entries id j (record want { kind = got.kind; id = got.id }))
                  ])
          ])
  ]

  pub IsSynced-mirror_entry :
      (id : ℕ) (s : Store) → IsPending id s → IsSynced (mirror_entry entry_hash id s)
  IsSynced-mirror_entry id s h = record {
    at_id = λ j.
        rw (rules-mirror_entry id s, get-mirror_entry id j s h.row_here)
          (elim (Bool-cases (id == j)) [
            | inl c ↦
                rw (c, sym ((nat_eq.same_iff id j).0 c))
                  (SyncedAt-mirrored_value id (get s.rules id) (get s.entries id) h.row_here
                    h.entry_here)
            | inr c ↦ rw c (h.elsewhere j c)
          ]);
  }
