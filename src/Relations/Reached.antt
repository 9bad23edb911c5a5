-- ===== src/Relations/Reached.antt =====
-- `trace_chain` of src/mcm_engine/tools/relations.py comes to its end, and lists what it should.
use mathlib.Core.List.{Memᴰ}
use mathlib.Core.List.Memᴰ
use mathlib.Core.Option.{some-injective}
use mcm_engine.Base.{
  ℕ, zero, suc, ◌≤◌, ◌<◌, ◌≡◌, refl, sym, ap, ◌∙◌, ◌⊎◌, true, false, some, List, [], ◌∷◌,
  if◌then◌else◌, arith, Bool-cases, inl, inr, subst, length, leb,
}
use mcm_engine.Base.Dict.{Distinct, get}
use mcm_engine.Relations.Table.{Node, node_eq, RelationRow}
use mcm_engine.Relations.Trace.{
  Filter, Walk, edges_of, scan, walk, start, trace, depth_cap, trace_fuel, max_trace_nodes,
}
use mcm_engine.Relations.Step.{Reaches, here, onward}
use mcm_engine.Relations.Visit.{depths, work, depth_at}
use mcm_engine.Relations.Walked.{Inv, start-Inv, next, next-Inv, next-work}

List-cases {ℓ} : {A : Type ℓ} (xs : List A) → (xs ≡ []) ⊎ ((x : A) × (ys : List A) × (xs ≡ x ∷ ys))
List-cases [] = inl refl
List-cases (x ∷ xs) = inr (x, xs, refl)

module _ (rows : List RelationRow) (f : Filter) (cap : ℕ) (root : Node) where
  pub Ended : ℕ → Walk → Type 0
  Ended fuel s =
      (t : Walk) × (walk rows f cap fuel s ≡ some t)
      × Inv rows f cap root t
      × ((t.truncated ≡ true) ⊎ (t.queue ≡ []))

  walk_pop :
      (fuel : ℕ) (u : Node) (d : ℕ) (rest : List (Node × ℕ)) (s : Walk)
      → s.queue ≡ (u, d) ∷ rest
      → s.truncated ≡ false
      → walk rows f cap (suc fuel) s ≡ walk rows f cap fuel (next rows f cap root u d rest s)
  unfolding walk
  walk_pop fuel u d rest s q c =
      ap (λ (y : Walk). walk rows f cap (suc fuel) y)
        (λ i. record s { queue = q i; truncated = c i })
      ∙ ap
          (λ b.
            let p = record s { queue = rest; truncated = b } in
            walk rows f cap fuel (if leb cap d then p else scan d (edges_of rows f u) p))
          (sym c)

  walk_empty :
      (fuel : ℕ) (s : Walk)
      → s.queue ≡ []
      → s.truncated ≡ false
      → walk rows f cap (suc fuel) s ≡ some s
  unfolding walk
  walk_empty fuel s q c =
      let p : s ≡ record s { queue = []; truncated = false } =
        λ i. record s { queue = q i; truncated = c i } in
      ap (walk rows f cap (suc fuel)) p ∙ ap some (sym p)

  walk_stopped : (fuel : ℕ) (s : Walk) → s.truncated ≡ true → walk rows f cap (suc fuel) s ≡ some s
  unfolding walk
  walk_stopped fuel s c =
      let p : s ≡ record s { truncated = true } = λ i. record s { truncated = c i } in
      ap (walk rows f cap (suc fuel)) p ∙ ap some (sym p)

  walk-Ended : (fuel : ℕ) (s : Walk) → Inv rows f cap root s → work s < fuel → Ended fuel s
  unfolding Ended
  walk-Ended zero s inv low = absurd (omega (arith, low))
  walk-Ended (suc fuel) s inv low = elim (Bool-cases s.truncated) [
    | inl c ↦ (s, walk_stopped fuel s c, inv, inl c)
    | inr c ↦ elim (List-cases s.queue) [
      | inl q ↦ (s, walk_empty fuel s q c, inv, inr q)
      | inr ((u, d), rest, q) ↦
          let (t, e, inv', done) =
            walk-Ended fuel (next rows f cap root u d rest s)
              (next-Inv rows f cap root u d rest s q c inv)
              (omega (arith, low, next-work rows f cap root u d rest s q c inv)) in
          (t, walk_pop fuel u d rest s q c ∙ e, inv', done)
    ]
  ]

  -- Nothing is left to look at, so each walk within the cap is matched by a line.
  covered :
      (t : Walk)
      → Inv rows f cap root t
      → t.truncated ≡ false
      → t.queue ≡ []
      → (n : ℕ) (w : Node) → Reaches rows f root n w
      → n ≤ cap
      → (x : ℕ) × (depth_at rows f root t w ≡ some x) × (x ≤ n)
  covered t inv go q _ _ (here w e) near =
      (0, subst (λ v. depth_at rows f root t v ≡ some 0) e inv.origin, omega arith)
  covered t inv go q _ _ (onward n v w r step) near =
      let (x, h, b) = covered t inv go q n v r (omega (arith, near)) in
      elim (inv.closed v x h go) [
        | inl m ↦ absurd (Memᴰ.not-nil (subst (Memᴰ (v, x)) q m))
        | inr (inl far) ↦ absurd (omega (arith, far, b, near))
        | inr (inr done) ↦ let (y, h', b') = done w step in (y, h', omega (arith, b, b'))
      ]

module _ (rows : List RelationRow) (f : Filter) (max_depth : ℕ) (root : Node) where
  low_cap : 1 ≤ depth_cap max_depth
  unfolding depth_cap
  low_cap = ground arith

  trace-Ended : Ended rows f (depth_cap max_depth) root trace_fuel (start root)
  unfolding start
  trace-Ended =
      walk-Ended rows f (depth_cap max_depth) root trace_fuel (start root)
        (start-Inv rows f (depth_cap max_depth) root) (omega arith)

  -- For every table, filter, depth and start, the walk of trace_chain comes to its end on its fuel with
  -- at most max_trace_nodes lines. No entry has two lines and the start has none, and the depth of a line
  -- is at most the depth cap and is the number of steps of a walk from the start to the line's entry.
  pub trace_returns :
      (t : Walk) × (trace rows f max_depth root ≡ some t)
      × (length t.lines ≤ max_trace_nodes)
      × Distinct (depths root t.lines)
      × ((w : Node) (x : ℕ)
          → get (depths root t.lines) w ≡ some x
          → (x ≤ depth_cap max_depth) × Reaches rows f root x w)
  unfolding trace Ended
  trace_returns =
      let (t, e, inv, _) = trace-Ended in
      (t, e, omega (arith, inv.fits.counted, inv.fits.full), inv.distinct, inv.sound)

  -- When trace_chain has walked and was not truncated, each entry that n steps lead to from the start, n
  -- at most the depth cap, is the start or has a line, and its depth is at most n.
  pub trace_complete :
      (t : Walk)
      → trace rows f max_depth root ≡ some t
      → t.truncated ≡ false
      → (n : ℕ) (w : Node) → Reaches rows f root n w
      → n ≤ depth_cap max_depth
      → (x : ℕ) × (get (depths root t.lines) w ≡ some x) × (x ≤ n)
  unfolding trace Ended
  trace_complete t out go n w r near =
      let (t', e, inv, done) = trace-Ended in
      let same : t' ≡ t = some-injective t' t (sym e ∙ out) in
      let live : t'.truncated ≡ false = ap (λ (y : Walk). y.truncated) same ∙ go in
      elim done [
        | inl stop ↦ absurd (ground (arith, stop, live))
        | inr q ↦
            let (x, h, b) = covered rows f (depth_cap max_depth) root t' inv live q n w r near in
            (x, ap (λ (y : Walk). get (depths root y.lines) w) (sym same) ∙ h, b)
      ]
