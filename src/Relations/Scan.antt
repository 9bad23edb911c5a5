-- ===== src/Relations/Scan.antt =====
-- The loop of `trace_chain` in src/mcm_engine/tools/relations.py over the edges of one entry.
use mathlib.Core.List.{Memᴰ}
use mathlib.Core.List.Memᴰ
use mcm_engine.Base.{
  ℕ, suc, ◌-◌, ◌≡◌, refl, sym, ap, ◌∙◌, true, false, some, List, [], ◌∷◌, nat_eq, if◌then◌else◌,
  arith, Bool-cases, Option-cases, inl, inr, subst, length, contains, is_some, leb,
}
use mcm_engine.Base.Dict.{Dict, get, has, get-cons_here}
use mcm_engine.Relations.Table.{Node, node_eq, RelationRow}
use mcm_engine.Relations.Trace.{Edge, Filter, Walk, max_trace_nodes, visit, scan}
use mcm_engine.Relations.Step.{IsStep}
use mcm_engine.Relations.Visit.{
  depths, Linked, depth_at, Extends, Extends-refl, Extends-trans, visit-Extends,
}

has-some : (d : Dict Node ℕ) (w : Node) → has d w ≡ true → (x : ℕ) × (get d w ≡ some x)
has-some d w h = elim (Option-cases (get d w)) [
  | inl gone ↦ absurd (ground (arith, h, ap is_some gone))
  | inr there ↦ there
]

module _ (rows : List RelationRow) (f : Filter) (root : Node) where
  scan_stop :
      (d : ℕ) (edge : Edge) (es : List Edge) (s : Walk)
      → s.truncated ≡ true
      → scan d (edge ∷ es) s ≡ s
  unfolding scan
  scan_stop d edge es s c =
      subst
        (λ b.
          (if b
            then s
            else if contains s.seen edge.neighbor
            then scan d es s
            else scan d es (visit d edge s))
          ≡ s)
        (sym c) refl

  scan_skip :
      (d : ℕ) (edge : Edge) (es : List Edge) (s : Walk)
      → s.truncated ≡ false
      → contains s.seen edge.neighbor ≡ true
      → scan d (edge ∷ es) s ≡ scan d es s
  unfolding scan
  scan_skip d edge es s c k = ground (arith, c, k)

  scan-visit :
      (d : ℕ) (edge : Edge) (es : List Edge) (s : Walk)
      → s.truncated ≡ false
      → contains s.seen edge.neighbor ≡ false
      → scan d (edge ∷ es) s ≡ scan d es (visit d edge s)
  unfolding scan
  scan-visit d edge es s c k = ground (arith, c, k)

  visit_line :
      (d : ℕ) (edge : Edge) (s : Walk)
      → (visit d edge s).lines ≡ record { depth = suc d; edge = edge } ∷ s.lines
  unfolding visit
  visit_line d edge s =
      elim (Bool-cases (leb max_trace_nodes (length (edge.neighbor ∷ s.seen) - 1))) [
        | inl c ↦ rw (visit, c) refl
        | inr c ↦ rw (visit, c) refl
      ]

  depth_at-visit :
      (d : ℕ) (edge : Edge) (s : Walk)
      → depth_at rows f root (visit d edge s) edge.neighbor ≡ some (suc d)
  unfolding depths
  depth_at-visit d edge s =
      ap (λ ls. get (depths root ls) edge.neighbor) (visit_line d edge s)
      ∙ get-cons_here (depths root s.lines) edge.neighbor (suc d)

  pub scan-Extends :
      (u : Node) (d : ℕ) (edges : List Edge) (s : Walk)
      → ((edge : Edge) → Memᴰ edge edges → IsStep rows f u edge.neighbor)
      → Linked root s
      → Extends rows f root u d s (scan d edges s)
  unfolding scan
  scan-Extends u d [] s step link = Extends-refl rows f root u d s
  scan-Extends u d (edge ∷ edges) s step link =
      let rest = λ (e : Edge) (m : Memᴰ e edges). step e (Memᴰ.tail m) in
      elim (Bool-cases s.truncated) [
        | inl c ↦
            subst (Extends rows f root u d s) (sym (scan_stop d edge edges s c))
              (Extends-refl rows f root u d s)
        | inr c ↦ elim (Bool-cases (contains s.seen edge.neighbor)) [
          | inl k ↦
              subst (Extends rows f root u d s) (sym (scan_skip d edge edges s c k))
                (scan-Extends u d edges s rest link)
          | inr k ↦
              let one =
                visit-Extends rows f root u d edge s c (step edge (Memᴰ.head refl)) k link in
              subst (Extends rows f root u d s) (sym (scan-visit d edge edges s c k)) (
                Extends-trans rows f root u d s (visit d edge s) (scan d edges (visit d edge s)) one
                  (scan-Extends u d edges (visit d edge s) rest (one.linked link)))
        ]
      ]

  pub scan_covers :
      (u : Node) (d : ℕ) (edges : List Edge) (s : Walk)
      → ((edge : Edge) → Memᴰ edge edges → IsStep rows f u edge.neighbor)
      → Linked root s
      → (scan d edges s).truncated ≡ false
      → (edge : Edge) → Memᴰ edge edges
      → (x : ℕ) × (depth_at rows f root (scan d edges s) edge.neighbor ≡ some x)
  scan_covers u d [] s step link go edge m = absurd (Memᴰ.not-nil m)
  scan_covers u d (e ∷ es) s step link go edge m =
      let rest = λ (e' : Edge) (m' : Memᴰ e' es). step e' (Memᴰ.tail m') in
      let Found = λ (t : Walk). (x : ℕ) × (depth_at rows f root t edge.neighbor ≡ some x) in
      let live =
        λ (t : Walk) (q : scan d (e ∷ es) s ≡ t). sym (ap (λ (y : Walk). y.truncated) q) ∙ go in
      elim (Bool-cases s.truncated) [
        | inl c ↦ absurd (ground (arith, c, live s (scan_stop d e es s c)))
        | inr c ↦ elim (Bool-cases (contains s.seen e.neighbor)) [
          | inl k ↦
              let q = scan_skip d e es s c k in
              subst Found (sym q) (elim (Memᴰ.cases_cons m) [
                | inr n ↦ scan_covers u d es s rest link (live _ q) edge n
                | inl same ↦
                    let (x, there) =
                      has-some (depths root s.lines) e.neighbor (sym (link e.neighbor) ∙ k) in
                    (
                      x,
                      (scan-Extends u d es s rest link).kept edge.neighbor x
                          (ap (λ (y : Edge). depth_at rows f root s y.neighbor) same ∙ there),
                    )
              ])
          | inr k ↦
              let q = scan-visit d e es s c k in
              let one = visit-Extends rows f root u d e s c (step e (Memᴰ.head refl)) k link in
              let s' = visit d e s in
              subst Found (sym q) (elim (Memᴰ.cases_cons m) [
                | inr n ↦ scan_covers u d es s' rest (one.linked link) (live _ q) edge n
                | inl same ↦ (
                  suc d,
                  (scan-Extends u d es s' rest (one.linked link)).kept edge.neighbor (suc d) (
                      ap (λ (y : Edge). depth_at rows f root s' y.neighbor) same
                      ∙ depth_at-visit d e s),
                )
              ])
        ]
      ]
