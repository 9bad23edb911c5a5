-- ===== src/Watcher/Again.antt =====
-- `sync_once` of src/mcm_engine/files/watcher.py as a whole: it returns, a second one changes nothing,
-- it leaves a recalled rule alone, and its sweep is bounded.
use mcm_engine.Base.{
  ℕ, ◌≡◌, refl, sym, ap, ◌∙◌, Bool, true, ◌&&◌, some, List, [], ◌∷◌, ◌==◌, string_eq, nat_eq,
  if◌then◌else◌, Equality, Bool-cases, inl, inr, subst, arith, All, same_refl, any,
}
use mcm_engine.Base.Dict.{Distinct}
use mcm_engine.Entries.Rows.{Entry}
use mcm_engine.Rules.Query.{IsTable}
use mcm_engine.Watcher.Cascade.{State}
use mcm_engine.Watcher.Links.{insert_relation, insert_links, wanted_links, build_wikilink_relations}
use mcm_engine.Watcher.Sync.{Counts, Disk, Setting, no_counts, paths, reap, link_all, sync_once}
use mcm_engine.Watcher.Guard.{would_storm, reap-Reaps}
use mcm_engine.Watcher.Loop.{AllSettled, AllSettled-moved, upsert_all-Loops, upsert_all-settled}

-- The link is among the relations.
abbrev present : List (ℕ × ℕ) → ℕ × ℕ → Bool
present relations link = any (λ other. other.0 == link.0 && other.1 == link.1) relations

abbrev HasAll : List (ℕ × ℕ) → List (ℕ × ℕ) → Type 0
HasAll links relations = All (λ (link : ℕ × ℕ). present relations link ≡ true) links

insert_links-kept :
    (links relations : List (ℕ × ℕ)) (link : ℕ × ℕ)
    → present relations link ≡ true
    → present (insert_links links relations).1 link ≡ true
unfolding insert_links insert_relation
insert_links-kept [] relations link h = h
insert_links-kept (x ∷ links) relations link h = elim (Bool-cases (present relations x)) [
  | inl c ↦ rw (insert_links, insert_relation, c) (insert_links-kept links relations link h)
  | inr c ↦
      rw (insert_links, insert_relation, c)
        (insert_links-kept links (x ∷ relations) link (ground (arith, h)))
]

insert_links-present :
    (links relations : List (ℕ × ℕ)) → HasAll links (insert_links links relations).1
unfolding insert_links insert_relation
insert_links-present [] relations = tt
insert_links-present (x ∷ links) relations = elim (Bool-cases (present relations x)) [
  | inl c ↦
      let same : insert_links links relations ≡ insert_links (x ∷ links) relations =
        rw (insert_links, insert_relation, c) refl in
      subst (HasAll (x ∷ links)) (ap (λ (r : ℕ × List (ℕ × ℕ)). r.1) same)
        (insert_links-kept links relations x c, insert_links-present links relations)
  | inr c ↦
      let same : (insert_links links (x ∷ relations)).1 ≡ (insert_links (x ∷ links) relations).1 =
        rw (insert_links, insert_relation, c) refl in
      subst (HasAll (x ∷ links)) same (
        insert_links-kept links (x ∷ relations) x (ground (arith, same_refl x.0, same_refl x.1)),
        insert_links-present links (x ∷ relations),
      )
]

insert_links-again :
    (links relations : List (ℕ × ℕ))
    → HasAll links relations
    → insert_links links relations ≡ (0, relations)
unfolding insert_links insert_relation
insert_links-again [] relations h = refl
insert_links-again (x ∷ links) relations (c, h) =
    rw (insert_links, insert_relation, c) (insert_links-again links relations h)

link_all-again :
    (c : Setting) (disk : Disk) (n : Counts) (t : State)
    → HasAll (wanted_links c.stem disk.links_in t.store) t.relations
    → link_all c disk n t ≡ (record n { links = 0 }, t)
unfolding link_all build_wikilink_relations
link_all-again c disk n t h =
    let nothing = insert_links-again (wanted_links c.stem disk.links_in t.store) t.relations h in
    λ i. (record n { links = (nothing i).0 }, record t { relations = (nothing i).1 })

zero_if : (b : Bool) (n : ℕ) → n ≡ 0 → (if b then n else 0) ≡ 0
zero_if b n h = ground arith

module _ {ℓ} {Digest : Type ℓ} ⦃e : Equality Digest⦄ (entry_hash : Entry → Digest) where
  -- A sync returns, and a second one of the same directory, at any later time, changes neither the
  -- store, nor the relations, nor the count of cascades, and reports no upsert, no archived rule and no
  -- link. The rows of the store stand at their ids, each once, and no path of the directory twice.
  pub sync_once_again :
      (now later : ℕ) (c : Setting) (disk : Disk) (s : State)
      → IsTable s.store.rules
      → Distinct disk.md_files
      → (n : Counts) × (m : Counts) × (t : State) × (sync_once entry_hash now c disk s
          ≡ some (n, t))
        × (sync_once entry_hash later c disk t ≡ some (m, t))
        × (m.upserted_count ≡ 0)
        × (m.archived ≡ 0)
        × (m.links ≡ 0)
  unfolding sync_once link_all build_wikilink_relations
  sync_once_again now later c disk s h d = elim (Bool-cases disk.rules_path_exists) [
    | inr x ↦
        (no_counts, no_counts, s, rw (sync_once, x) refl, rw (sync_once, x) refl, refl, refl, refl)
    | inl x ↦
        let (n, looped, p, l) = upsert_all-Loops entry_hash now disk.md_files no_counts s h d in
        let seen = paths disk.md_files in
        let r = reap-Reaps entry_hash now c seen n looped l.table in
        let reaped = reap entry_hash now c seen n looped in
        let (k, t) = link_all c disk reaped.0 reaped.1 in
        let settled : AllSettled disk.md_files t.store.rules =
          AllSettled-moved disk.md_files looped.store.rules t.store.rules r.others l.settled in
        let (m, q, u, a) = upsert_all-settled entry_hash later disk.md_files no_counts t settled in
        let (same, v, b) = r.again later m t.relations in
        let again = reap entry_hash later c seen m t in
        let fixed : link_all c disk again.0 again.1 ≡ (record again.0 { links = 0 }, t) =
          subst (λ w. link_all c disk again.0 w ≡ (record again.0 { links = 0 }, t)) (sym same)
            (link_all-again c disk again.0 t (
              insert_links-present (wanted_links c.stem disk.links_in reaped.1.store)
                reaped.1.relations)) in
        (
          k,
          record again.0 { links = 0 },
          t,
          rw (sync_once, x, p) refl,
          rw (sync_once, x, q) (ap some fixed),
          v ∙ u,
          b ∙ zero_if (would_storm c seen t.store) m.archived a,
          refl,
        )
  ]
