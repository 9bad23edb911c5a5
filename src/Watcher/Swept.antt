-- ===== src/Watcher/Swept.antt =====
-- `soft_delete_rule` over the orphans, as `sync_once` of src/mcm_engine/files/watcher.py calls it.
use mcm_engine.Base.{
  ℕ, ◌≡◌, refl, sym, ap, ◌∙◌, String, true, false, none, some, List, [], ◌∷◌, ◌==◌, string_eq,
  nat_eq, if◌then◌else◌, or_else, Equality, Option-cases, Bool-cases, inl, inr, map_option, subst,
  arith, contains, All, map,
}
use mathlib.Core.Option.{some-injective}
use mcm_engine.Base.Dict.{Dict, get, put, get-put}
use mcm_engine.Entries.Rows.{RuleRow, Entry}
use mcm_engine.Rules.State.{Store, update_row}
use mcm_engine.Rules.Store.{soft_delete_rule}
use mcm_engine.Rules.Sync.{rules-mirror_entry}
use mcm_engine.Rules.Query.{first_row, has_file_path, IsTable, IsTable-put, first_row-other}
use mcm_engine.Watcher.Links.{path_of}
use mcm_engine.Watcher.Sync.{Setting, archive_all}
use mcm_engine.Watcher.Reaped.{is_orphan}

-- The row of the id is there, and its file is none of those seen.
abbrev pub IsOff : List String → Dict ℕ RuleRow → ℕ → Type 0
IsOff seen d id =
    map_option (λ (row : RuleRow). contains seen (path_of row)) (get d id) ≡ some false

pub record Swept (c : Setting) (seen : List String) (ids : List ℕ) (d after : Dict ℕ RuleRow)
    : Type 0 where
  pub table : IsTable after
  pub others :
      (path : String)
      → contains seen path ≡ true
      → first_row (has_file_path path) after ≡ first_row (has_file_path path) d
  pub kept :
      (id : ℕ) (row : RuleRow)
      → get d id ≡ some row
      → contains seen (path_of row) ≡ true
      → get after id ≡ some row
  pub gone :
      (id : ℕ) (row : RuleRow)
      → get after id ≡ some row
      → is_orphan c seen row ≡ true
      → (get d id ≡ some row) × (contains ids id ≡ false)

abbrev pub deleted : ℕ → RuleRow → RuleRow
deleted now row = record row { archived = true; archived_at = some now; updated_at = some now }

-- The row has none of the paths that are seen.
lacks :
    (seen : List String) (path : String) (row : RuleRow)
    → contains seen (path_of row) ≡ false
    → contains seen path ≡ true
    → has_file_path path row ≡ false
lacks seen path row h g = elim (Option-cases row.file_path) [
  | inl p ↦ subst (λ f. (elim f [ none ↦ false | some q ↦ q == path ]) ≡ false) (sym p) refl
  | inr (other, p) ↦
      subst (λ f. (elim f [ none ↦ false | some q ↦ q == path ]) ≡ false) (sym p)
        (elim (Bool-cases (other == path)) [
          | inl c ↦
              let same = (string_eq.same_iff other path).0 c in
              absurd (
                cc (
                  g,
                  subst (λ f. contains seen (or_else f "") ≡ false) p h,
                  ap (contains seen) same,
                ))
          | inr c ↦ c
        ])
]

put-Swept :
    (c : Setting) (seen : List String) (d : Dict ℕ RuleRow) (id now : ℕ) (row : RuleRow)
    → IsTable d
    → row.id ≡ id
    → get d id ≡ some row
    → contains seen (path_of row) ≡ false
    → Swept c seen (id ∷ []) d (put d id (deleted now row))
unfolding is_orphan contains
put-Swept c seen d id now row h i g off = record {
  table = IsTable-put d id (deleted now row) h i;
  others = λ path p.
      first_row-other (has_file_path path) d id row (deleted now row) g (lacks seen path row off p)
        (lacks seen path row off p);
  kept = λ j w q p. get-put d id j (deleted now row) ∙ elim (Bool-cases (id == j)) [
    | inl e ↦
        let same : row ≡ w =
          some-injective _ _ (sym g ∙ ap (get d) ((nat_eq.same_iff id j).0 e) ∙ q) in
        absurd (cc (off, p, ap (λ (r : RuleRow). contains seen (path_of r)) same))
    | inr e ↦ rw e q
  ];
  gone = λ j w q p. elim (Bool-cases (id == j)) [
    | inl e ↦
        let same : deleted now row ≡ w = some-injective _ _ (
          subst (λ b. (if b then some (deleted now row) else get d j) ≡ some w) e
            (sym (get-put d id j (deleted now row)) ∙ q)) in
        absurd (ground (arith, ap (λ (r : RuleRow). r.archived) same, p))
    | inr e ↦ (
      subst (λ b. (if b then some (deleted now row) else get d j) ≡ some w) e
          (sym (get-put d id j (deleted now row)) ∙ q),
      ground (arith, e),
    )
  ];
}

IsOff-put :
    (seen : List String) (d : Dict ℕ RuleRow) (id now j : ℕ) (row : RuleRow)
    → get d id ≡ some row
    → IsOff seen d j
    → IsOff seen (put d id (deleted now row)) j
IsOff-put seen d id now j row g h =
    ap (map_option (λ (row : RuleRow). contains seen (path_of row)))
      (get-put d id j (deleted now row))
    ∙ elim (Bool-cases (id == j)) [
      | inl e ↦
          let here : IsOff seen d id = subst (IsOff seen d) (sym ((nat_eq.same_iff id j).0 e)) h in
          rw e (
            subst (λ o. map_option (λ (row : RuleRow). contains seen (path_of row)) o ≡ some false)
              g here)
      | inr e ↦ rw e h
    ]

pub keyed-get :
    (d : Dict ℕ RuleRow) (id : ℕ) (row : RuleRow)
    → All (λ (entry : ℕ × RuleRow). entry.1.id ≡ entry.0) d
    → get d id ≡ some row
    → row.id ≡ id
unfolding get
keyed-get [] id row h g = absurd (ground arith)
keyed-get ((j, w) ∷ d) id row (k, h) g = elim (Bool-cases (j == id)) [
  | inl c ↦
      let same : w ≡ row =
        some-injective w row (subst (λ b. (if b then some w else get d id) ≡ some row) c g) in
      ap (λ (r : RuleRow). r.id) (sym same) ∙ k ∙ (nat_eq.same_iff j id).0 c
  | inr c ↦ keyed-get d id row h (subst (λ b. (if b then some w else get d id) ≡ some row) c g)
]

pub All-IsOff :
    (seen : List String) (d : Dict ℕ RuleRow) (id now : ℕ) (row : RuleRow) (gone : List RuleRow)
    → get d id ≡ some row
    → All (λ (r : RuleRow). IsOff seen d r.id) gone
    → All (λ (r : RuleRow). IsOff seen (put d id (deleted now row)) r.id) gone
All-IsOff seen d id now row [] g h = tt
All-IsOff seen d id now row (r ∷ gone) g (off, h) =
    (IsOff-put seen d id now r.id row g off, All-IsOff seen d id now row gone g h)

Swept-join :
    (c : Setting) (seen : List String) (id : ℕ) (ids : List ℕ) (d next after : Dict ℕ RuleRow)
    → Swept c seen (id ∷ []) d next
    → Swept c seen ids next after
    → Swept c seen (id ∷ ids) d after
unfolding contains
Swept-join c seen id ids d next after a b = record {
  table = b.table;
  others = λ path p. b.others path p ∙ a.others path p;
  kept = λ j row g p. b.kept j row (a.kept j row g p) p;
  gone = λ j row g p.
      let (g', m) = b.gone j row g p in
      let (g'', m') = a.gone j row g' p in (g'', ground (arith, m, m'));
}

module _ {ℓ} {Digest : Type ℓ} ⦃e : Equality Digest⦄ (entry_hash : Entry → Digest) where
  pub rules-soft_delete_rule :
      (id now : ℕ) (row : RuleRow) (s : Store)
      → get s.rules id ≡ some row
      → (soft_delete_rule entry_hash id now s).rules ≡ put s.rules id (deleted now row)
  unfolding soft_delete_rule update_row
  rules-soft_delete_rule id now row s g =
      rules-mirror_entry entry_hash id _ ∙ rw (update_row, g) refl

  pub archive_all-Swept :
      (c : Setting) (seen : List String) (now : ℕ) (gone : List RuleRow) (s : Store)
      → IsTable s.rules
      → All (λ (r : RuleRow). IsOff seen s.rules r.id) gone
      → Swept c seen (map (λ r. r.id) gone) s.rules (archive_all entry_hash now gone s).rules
  unfolding archive_all contains
  archive_all-Swept c seen now [] s h off = record {
    table = h;
    others = λ path p. refl;
    kept = λ id row g p. g;
    gone = λ id row g p. (g, refl);
  }
  archive_all-Swept c seen now (r ∷ gone) s h (off, offs) = elim (Option-cases (get s.rules r.id)) [
    | inl g ↦ absurd (cc (g, off))
    | inr (row, g) ↦
        let is_off : contains seen (path_of row) ≡ false = some-injective _ _ (
          subst (λ o. map_option (λ (row : RuleRow). contains seen (path_of row)) o ≡ some false) g
            off) in
        let first =
          put-Swept c seen s.rules r.id now row h (keyed-get s.rules r.id row h.keyed g) g is_off in
        let next = soft_delete_rule entry_hash r.id now s in
        let is_put = sym (rules-soft_delete_rule r.id now row s g) in
        let step : Swept c seen (r.id ∷ []) s.rules next.rules =
          subst (Swept c seen (r.id ∷ []) s.rules) is_put first in
        Swept-join c seen r.id (map (λ r. r.id) gone) s.rules next.rules _ step (
          archive_all-Swept c seen now gone next step.table (
            subst (λ d. All (λ (r : RuleRow). IsOff seen d r.id) gone) is_put
              (All-IsOff seen s.rules r.id now row gone g offs)))
  ]
