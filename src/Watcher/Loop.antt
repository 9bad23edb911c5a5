-- ===== src/Watcher/Loop.antt =====
-- The loop of `sync_once` in src/mcm_engine/files/watcher.py over the files of the directory.
use mcm_engine.Base.{
  ℕ, ◌≡◌, refl, sym, ap, ◌∙◌, String, true, false, Option, none, some, [], ◌∷◌, ◌==◌, string_eq,
  nat_eq, Equality, Option-cases, inl, inr, arith, contains, All, same_refl, map_option,
}
use mathlib.Core.Option.{some-injective}
use mcm_engine.Base.Dict.{Dict, get, has, Distinct}
use mcm_engine.Entries.Rows.{RuleRow, Entry}
use mcm_engine.Rules.Query.{first_row, has_file_path, IsTable}
use mcm_engine.Watcher.Cascade.{Parsed, State, Action, upserted, unchanged, cascade_upsert}
use mcm_engine.Watcher.Sync.{Counts, count_action, upsert_all, paths}
use mcm_engine.Watcher.Settled.{is_current, Settled}
use mcm_engine.Watcher.Upsert.{cascade_upsert-Upserts, cascade_upsert-settled}

-- A file that has a title has its rule, and there is nothing to do for it.
abbrev pub FileSettled : String → Option Parsed → Dict ℕ RuleRow → Type 0
FileSettled path none rules = Unit
FileSettled path (some parsed) rules = Settled path parsed rules

abbrev pub AllSettled : Dict String (Option Parsed) → Dict ℕ RuleRow → Type 0
AllSettled files rules =
    All (λ (file : String × Option Parsed). FileSettled file.0 file.1 rules) files

FileSettled-moved :
    (path : String) (file : Option Parsed) (d after : Dict ℕ RuleRow)
    → first_row (has_file_path path) after ≡ first_row (has_file_path path) d
    → FileSettled path file d
    → FileSettled path file after
FileSettled-moved path none d after p h = tt
FileSettled-moved path (some parsed) d after p h =
    ap (map_option (λ (entry : ℕ × RuleRow). is_current parsed entry.1)) p ∙ h

pub AllSettled-moved :
    (files : Dict String (Option Parsed)) (d after : Dict ℕ RuleRow)
    → ((path : String)
        → contains (paths files) path ≡ true
        → first_row (has_file_path path) after ≡ first_row (has_file_path path) d)
    → AllSettled files d
    → AllSettled files after
unfolding contains
AllSettled-moved [] d after same h = tt
AllSettled-moved ((path, file) ∷ files) d after same (f, h) = (
  FileSettled-moved path file d after (same path (ground (arith, same_refl path))) f,
  AllSettled-moved files d after (λ other c. same other (ground (arith, c))) h,
)

-- What the loop leaves of the rules.
pub record Loops (files : Dict String (Option Parsed)) (d after : Dict ℕ RuleRow) : Type 0 where
  pub table : IsTable after
  pub settled : AllSettled files after
  pub others :
      (other : String)
      → has files other ≡ false
      → first_row (has_file_path other) after ≡ first_row (has_file_path other) d
  pub frozen :
      (id : ℕ) (row : RuleRow)
      → get d id ≡ some row
      → (row.status == "recalled") ≡ true
      → get after id ≡ some row

module _ {ℓ} {Digest : Type ℓ} ⦃e : Equality Digest⦄ (entry_hash : Entry → Digest) where
  -- The upsert of any file.
  cascade_upsert-Loops :
      (now : ℕ) (path : String) (file : Option Parsed) (s : State)
      → IsTable s.store.rules
      → (action : Action) × (t : State) × (cascade_upsert entry_hash now path (some file) s
          ≡ some (action, t))
        × Loops ((path, file) ∷ []) s.store.rules t.store.rules
  unfolding cascade_upsert get
  cascade_upsert-Loops now path none s h = (
    unchanged,
    s,
    refl,
    record { table = h; settled = (tt, tt); others = λ other o. refl; frozen = λ id row g p. g },
  )
  cascade_upsert-Loops now path (some parsed) s h =
      let (action, t, p, u) = cascade_upsert-Upserts entry_hash now path parsed s h in
      (
        action,
        t,
        p,
        record {
          table = u.table;
          settled = (u.settled, tt);
          others = λ other o. u.others other (ground (arith, o));
          frozen = u.frozen;
        },
      )

  pub upsert_all-Loops :
      (now : ℕ) (files : Dict String (Option Parsed)) (n : Counts) (s : State)
      → IsTable s.store.rules
      → Distinct files
      → (m : Counts) × (t : State) × (upsert_all entry_hash now files n s ≡ some (m, t))
        × Loops files s.store.rules t.store.rules
  unfolding upsert_all get
  upsert_all-Loops now [] n s h d = (
    n,
    s,
    refl,
    record { table = h; settled = tt; others = λ other o. refl; frozen = λ id row g p. g },
  )
  upsert_all-Loops now ((path, file) ∷ files) n s h (fresh, d) =
      let (action, next, p, u) = cascade_upsert-Loops now path file s h in
      let (m, t, q, l) = upsert_all-Loops now files (count_action action n) next u.table d in
      (
        m,
        t,
        rw (upsert_all, p) q,
        record {
          table = l.table;
          settled = (
            FileSettled-moved path file next.store.rules t.store.rules (l.others path fresh)
                u.settled.0,
            l.settled,
          );
          others =
              λ other o. l.others other (ground (arith, o)) ∙ u.others other (ground (arith, o));
          frozen = λ id row g r. l.frozen id row (u.frozen id row g r) r;
        },
      )

  cascade_upsert-again :
      (now : ℕ) (path : String) (file : Option Parsed) (s : State)
      → FileSettled path file s.store.rules
      → cascade_upsert entry_hash now path (some file) s ≡ some (unchanged, s)
  unfolding cascade_upsert
  cascade_upsert-again now path none s h = refl
  cascade_upsert-again now path (some parsed) s h =
      cascade_upsert-settled entry_hash now path parsed s h

  -- With nothing to do for any file, the loop does nothing.
  pub upsert_all-settled :
      (now : ℕ) (files : Dict String (Option Parsed)) (n : Counts) (s : State)
      → AllSettled files s.store.rules
      → (m : Counts) × (upsert_all entry_hash now files n s ≡ some (m, s))
        × (m.upserted_count ≡ n.upserted_count)
        × (m.archived ≡ n.archived)
  unfolding upsert_all count_action
  upsert_all-settled now [] n s h = (n, refl, refl, refl)
  upsert_all-settled now ((path, file) ∷ files) n s (f, h) =
      let (m, p, u, a) = upsert_all-settled now files (count_action unchanged n) s h in
      (m, rw (upsert_all, cascade_upsert-again now path file s f) p, u, a)

  archived-count_action :
      (action : Action) (n : Counts) → (count_action action n).archived ≡ n.archived
  unfolding count_action
  archived-count_action upserted n = refl
  archived-count_action unchanged n = refl

  pub archived-upsert_all :
      (now : ℕ) (files : Dict String (Option Parsed)) (n m : Counts) (s t : State)
      → upsert_all entry_hash now files n s ≡ some (m, t)
      → m.archived ≡ n.archived
  unfolding upsert_all
  archived-upsert_all now [] n m s t h =
      ap (λ (r : Counts × State). r.0.archived) (sym (some-injective _ _ h))
  archived-upsert_all now ((path, file) ∷ files) n m s t h =
      elim (Option-cases (cascade_upsert entry_hash now path (some file) s)) [
        | inl p ↦ absurd (ground (arith, rw (upsert_all, p) at h))
        | inr ((action, next), p) ↦
            archived-upsert_all now files (count_action action n) m next t (rw (upsert_all, p) at h)
            ∙ archived-count_action action n
      ]
