-- ===== src/Database/Plain.antt =====
-- What a transaction of src/mcm_engine/db.py means: its block as a function on the contents, for a block
-- that swallows no exception. Nested transactions mean nothing more than their blocks.
use mcm_engine.Base.{
  ◌<◌, ◌≡◌, refl, sym, Bool, true, false, Option, none, some, is_some, or_else, arith, ap, ◌∙◌,
  nat_eq, Option-cases, subst, inl, inr,
}
use mcm_engine.Database.Connection.{
  Db, Reply, done, CommitReply, commit_done, commit_now, execute_write, commit, begin_transaction,
  end_transaction, rollback,
}
use mcm_engine.Database.Block.{
  Block, pass, write, commit_write, seq, transaction, attempt, raise, run, leave,
}
use mcm_engine.Database.Atomic.{Inside, run-Inside}

module _ {ℓ} {S : Type ℓ} where
  -- No `try` in the block.
  abbrev pub IsPlain : Block S → Type 0
  IsPlain (seq a b) = IsPlain a × IsPlain b
  IsPlain (transaction reply b) = IsPlain b
  IsPlain (attempt b) = ⊥
  IsPlain _ = Unit

  written : Reply S → Option S
  written (done s) = some s
  written _ = none

  -- The block on the contents, with `none` where it raises.
  unfoldable pub spec : Block S → S → Option S
  unfolding written
  spec pass s = some s
  spec (write first again) s = written (first s)
  spec (commit_write reply) s = some s
  spec (seq a b) s = elim (spec a s) [ none ↦ none | some t ↦ spec b t ]
  spec (transaction reply b) s = spec b s
  spec (attempt b) s = some (or_else (spec b s) s)
  spec raise s = none

  -- Inside of a transaction: whether the block raises, and what it leaves if it does not.
  abbrev pub Follows : Option S → Db S × Bool → Type ℓ
  Follows o r = (r.1 ≡ is_some o) × (or_else o r.0.working ≡ r.0.working)

  write-Follows :
      (first again : S → Reply S) (db : Db S)
      → 0 < db.tx_depth
      → Follows (written (first db.working)) (execute_write first again db)
  unfolding execute_write written
  write-Follows first again db h = (ground arith, ground arith)

  nested-Follows :
      (reply : CommitReply) (o : Option S) (r : Db S × Bool)
      → 1 < r.0.tx_depth
      → Follows o r
      → Follows o (leave reply r)
  unfolding leave end_transaction
  nested-Follows reply o (after, true) h (p, q) = (ground arith, ground arith)
  nested-Follows reply o (after, false) h (p, q) = (ground arith, ground arith)

  run-Follows :
      (b : Block S) (db : Db S)
      → IsPlain b
      → 0 < db.tx_depth
      → Follows (spec b db.working) (run b db)
  unfolding run spec begin_transaction commit Inside
  run-Follows pass db n h = (refl, refl)
  run-Follows (write first again) db n h = write-Follows first again db h
  run-Follows (commit_write reply) db n h = (ground arith, ground arith)
  run-Follows (seq a b) db (na, nb) h =
      let (p, q) = run-Follows a db na h in
      let d = (run-Inside a db h).0 in
      let (p', q') = run-Follows b (run a db).0 nb (omega (arith, d)) in
      let after = (run a db).0.working in
      elim (Option-cases (spec a db.working)) [
        | inl o ↦
            let raised : (run a db).1 ≡ false = p ∙ ap is_some o in
            rw (spec, o, run, raised) (refl, refl)
        | inr (t, o) ↦
            let returned : (run a db).1 ≡ true = p ∙ ap is_some o in
            let left : t ≡ after = ap (λ c. or_else c after) (sym o) ∙ q in
            rw (spec, o, run, returned, left) (p', q')
      ]
  run-Follows (transaction reply b) db n h =
      nested-Follows reply (spec b db.working) (run b (begin_transaction db))
        (omega (arith, (run-Inside b (begin_transaction db) (omega arith)).0))
        (run-Follows b (begin_transaction db) n (omega arith))
  run-Follows (attempt b) db n h = elim n [ ]
  run-Follows raise db n h = (refl, refl)

  finish_outermost :
      (o : Option S) (db : Db S) (r : Db S × Bool)
      → db.tx_depth ≡ 0
      → r.0.tx_depth ≡ 1
      → r.0.committed ≡ db.committed
      → Follows o r
      → ((leave commit_done r).1 ≡ is_some o)
        × ((leave commit_done r).0.committed ≡ or_else o db.committed)
        × ((leave commit_done r).0.working ≡ or_else o db.committed)
  unfolding leave end_transaction commit_now rollback
  finish_outermost none db (after, true) h d c (p, q) = absurd (ground arith)
  finish_outermost none db (after, false) h d c (p, q) = (ground arith, ground arith, ground arith)
  finish_outermost (some t) db (after, true) h d c (p, q) =
      (ground arith, ground arith, ground arith)
  finish_outermost (some t) db (after, false) h d c (p, q) = absurd (ground arith)

  -- An outermost transaction whose commit SQLite accepts, over a block that swallows no exception, does
  -- what the block means: it returns where the block does, with its result in the file and on the
  -- connection, and else it raises with the file and the connection as the file was before. The depth
  -- is 0 before, and nothing is pending.
  pub transaction_refines :
      (b : Block S) (db : Db S)
      → IsPlain b
      → db.tx_depth ≡ 0
      → db.working ≡ db.committed
      → ((run (transaction commit_done b) db).1 ≡ is_some (spec b db.committed))
        × ((run (transaction commit_done b) db).0.committed
            ≡ or_else (spec b db.committed) db.committed)
        × ((run (transaction commit_done b) db).0.working
            ≡ or_else (spec b db.committed) db.committed)
  unfolding run begin_transaction Inside
  transaction_refines b db n h w =
      let inner = begin_transaction db in
      let (d, c) = run-Inside b inner (omega arith) in
      let (p, q) = run-Follows b inner n (omega arith) in
      finish_outermost (spec b db.committed) db (run b inner) h (omega (arith, d)) c
        (subst (λ s. Follows (spec b s) (run b inner)) w (p, q))
