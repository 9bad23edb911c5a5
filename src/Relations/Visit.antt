-- ===== src/Relations/Visit.antt =====
-- What one round of `trace_chain` in src/mcm_engine/tools/relations.py does to the walk.
use mathlib.Core.List.{Memᴰ}
use mathlib.Core.List.Memᴰ
use mcm_engine.Base.{
  ℕ, suc, ◌+◌, ◌-◌, ◌≤◌, ◌≡◌, refl, sym, ap, ◌∙◌, ◌⊎◌, true, false, Option, some, List, [], ◌∷◌,
  ◌++◌, nat_eq, arith, Bool-cases, inl, inr, subst, length, length-append, contains, leb,
}
use mcm_engine.Base.Dict.{Dict, Distinct, get, has, get-cons_here, get-cons_kept, get-cons_cases}
use mcm_engine.Relations.Table.{Node, node_eq, RelationRow}
use mcm_engine.Relations.Trace.{Edge, Filter, TraceLine, Walk, max_trace_nodes, visit}
use mcm_engine.Relations.Step.{IsStep}

-- The entries of the walk, with their numbers of steps.
unfoldable pub depths : Node → List TraceLine → Dict Node ℕ
depths root [] = (root, 0) ∷ []
depths root (line ∷ lines) = (line.edge.neighbor, line.depth) ∷ depths root lines

-- The queue's depths never fall.
abbrev pub Sorted : List (Node × ℕ) → Type 0
Sorted [] = Unit
Sorted (q ∷ qs) = ((r : Node × ℕ) → Memᴰ r qs → q.1 ≤ r.1) × Sorted qs

abbrev pub Linked : Node → Walk → Type 0
Linked root s = (w : Node) → contains s.seen w ≡ has (depths root s.lines) w

-- The walk has room while it is not truncated.
pub record Fits (s : Walk) : Type 0 where
  pub counted : length s.seen ≡ suc (length s.lines)
  pub room : s.truncated ≡ false → length s.seen ≤ 200
  pub full : length s.seen ≤ 201
  pub cut : s.truncated ≡ true → length s.seen ≡ 201

-- What falls with each round.
abbrev pub work : Walk → ℕ
work s = length s.queue + (201 - length s.seen)

Sorted-append :
    (qs : List (Node × ℕ)) (q : Node × ℕ)
    → Sorted qs
    → ((r : Node × ℕ) → Memᴰ r qs → r.1 ≤ q.1)
    → Sorted (qs ++ q ∷ [])
Sorted-append [] q s h = (λ r m. absurd (Memᴰ.not-nil m), tt)
Sorted-append (r ∷ qs) q (b, s) h = (
  λ x m. elim (Memᴰ.append_cases qs m) [
    | inl k ↦ b x k
    | inr k ↦
        subst (λ (y : Node × ℕ). r.1 ≤ y.1) (sym (Memᴰ.eq_of_singleton k)) (h r (Memᴰ.head refl))
  ],
  Sorted-append qs q s (λ x m. h x (Memᴰ.tail m)),
)

linked_cons :
    (d : Dict Node ℕ) (seen : List Node) (v w : Node) (x : ℕ)
    → contains seen w ≡ has d w
    → contains (v ∷ seen) w ≡ has ((v, x) ∷ d) w
unfolding contains get
linked_cons d seen v w x h = ground (arith, h)

module _ (rows : List RelationRow) (f : Filter) (root : Node) where
  abbrev pub depth_at : Walk → Node → Option ℕ
  depth_at s w = get (depths root s.lines) w

  -- From one state to a later one, while the edges of `u`, which is `d` steps in, are looked at.
  pub record Extends (u : Node) (d : ℕ) (s t : Walk) : Type 0 where
    pub kept : (w : Node) (x : ℕ) → depth_at s w ≡ some x → depth_at t w ≡ some x
    pub fresh :
        (w : Node) (x : ℕ)
        → depth_at t w ≡ some x
        → (depth_at s w ≡ some x)
          ⊎ ((x ≡ suc d) × IsStep rows f u w × ((t.truncated ≡ true) ⊎ Memᴰ (w, x) t.queue))
    pub queued : (q : Node × ℕ) → Memᴰ q s.queue → Memᴰ q t.queue
    pub stopped : s.truncated ≡ true → t.truncated ≡ true
    pub linked : Linked root s → Linked root t
    pub fits : Fits s → Fits t
    pub distinct : Linked root s → Distinct (depths root s.lines) → Distinct (depths root t.lines)
    pub new_queue :
        (q : Node × ℕ)
        → Memᴰ q t.queue
        → Memᴰ q s.queue ⊎ ((q.1 ≡ suc d) × (depth_at t q.0 ≡ some q.1))
    pub sorted : Sorted s.queue → ((q : Node × ℕ) → Memᴰ q s.queue → q.1 ≤ suc d) → Sorted t.queue
    pub falls : work t ≤ work s

  pub Extends-refl : (u : Node) (d : ℕ) (s : Walk) → Extends u d s s
  Extends-refl u d s = record {
    kept = λ w x h. h;
    fresh = λ w x h. inl h;
    queued = λ q m. m;
    stopped = λ h. h;
    linked = λ h. h;
    fits = λ h. h;
    distinct = λ l h. h;
    new_queue = λ q m. inl m;
    sorted = λ h b. h;
    falls = omega arith;
  }

  pub Extends-trans :
      (u : Node) (d : ℕ) (s m t : Walk) → Extends u d s m → Extends u d m t → Extends u d s t
  Extends-trans u d s m t a b = record {
    kept = λ w x h. b.kept w x (a.kept w x h);
    fresh = λ w x h. elim (b.fresh w x h) [
      | inr p ↦ inr p
      | inl h' ↦ elim (a.fresh w x h') [
        | inl p ↦ inl p
        | inr (e, step, inl stop) ↦ inr (e, step, inl (b.stopped stop))
        | inr (e, step, inr q) ↦ inr (e, step, inr (b.queued (w, x) q))
      ]
    ];
    queued = λ q p. b.queued q (a.queued q p);
    stopped = λ h. b.stopped (a.stopped h);
    linked = λ h. b.linked (a.linked h);
    fits = λ h. b.fits (a.fits h);
    distinct = λ l h. b.distinct (a.linked l) (a.distinct l h);
    new_queue = λ q p. elim (b.new_queue q p) [
      | inr k ↦ inr k
      | inl k ↦ elim (a.new_queue q k) [ inl k' ↦ inl k' | inr (e, g) ↦ inr (e, b.kept q.0 q.1 g) ]
    ];
    sorted = λ h k.
        b.sorted (a.sorted h k)
          (λ q p. elim (a.new_queue q p) [ inl p' ↦ k q p' | inr (e, g) ↦ omega (arith, e) ]);
    falls = omega (arith, a.falls, b.falls);
  }

  pub visit-Extends :
      (u : Node) (d : ℕ) (edge : Edge) (s : Walk)
      → s.truncated ≡ false
      → IsStep rows f u edge.neighbor
      → contains s.seen edge.neighbor ≡ false
      → Linked root s
      → Extends u d s (visit d edge s)
  unfolding visit depths
  visit-Extends u d edge s go step unseen link =
      let v = edge.neighbor in
      let off : has (depths root s.lines) v ≡ false = sym (link v) ∙ unseen in
      let kept : (w : Node) (x : ℕ)
          → depth_at s w ≡ some x
          → get ((v, suc d) ∷ depths root s.lines) w ≡ some x =
        λ w x h. get-cons_kept (depths root s.lines) v w (suc d) x off h in
      let linked : Linked root s
          → (w : Node) → contains (v ∷ s.seen) w ≡ has ((v, suc d) ∷ depths root s.lines) w =
        λ h w. linked_cons (depths root s.lines) s.seen v w (suc d) (h w) in
      elim (Bool-cases (leb max_trace_nodes (length (v ∷ s.seen) - 1))) [
        | inl c ↦
            rw (visit, c)
              (record {
                kept = kept;
                fresh = λ w x h. elim (get-cons_cases (depths root s.lines) v w (suc d) x h) [
                  | inl k ↦ inl k
                  | inr (e, e') ↦ inr (sym e', subst (IsStep rows f u) e step, inl refl)
                ];
                queued = λ q m. m;
                stopped = λ h. refl;
                linked = linked;
                distinct = λ l h. (off, h);
                fits = λ h. record {
                  counted = ap suc h.counted;
                  room = λ n. ground arith;
                  full = omega (arith, h.room go);
                  cut = λ n. ground (arith, c, h.room go);
                };
                new_queue = λ q m. inl m;
                sorted = λ h b. h;
                falls = omega arith;
              })
        | inr c ↦
            rw (visit, c)
              (record {
                kept = kept;
                fresh = λ w x h. elim (get-cons_cases (depths root s.lines) v w (suc d) x h) [
                  | inl k ↦ inl k
                  | inr (e, e') ↦ inr (
                    sym e',
                    subst (IsStep rows f u) e step,
                    inr (Memᴰ.append_right s.queue (Memᴰ.head (λ i. (sym e i, sym e' i)))),
                  )
                ];
                queued = λ q m. Memᴰ.append_left _ m;
                stopped = λ h. h;
                linked = linked;
                distinct = λ l h. (off, h);
                fits = λ h. record {
                  counted = ap suc h.counted;
                  room = λ n. ground (arith, c);
                  full = ground (arith, c);
                  cut = λ n. absurd (ground (arith, go, n));
                };
                new_queue = λ q m. elim (Memᴰ.append_cases s.queue m) [
                  | inl k ↦ inl k
                  | inr k ↦
                      let e = Memᴰ.eq_of_singleton k in
                      inr (
                        ap (λ (y : Node × ℕ). y.1) e,
                        subst
                            (λ (y : Node × ℕ).
                              get ((v, suc d) ∷ depths root s.lines) y.0 ≡ some y.1)
                            (sym e) (get-cons_here (depths root s.lines) v (suc d)),
                      )
                ];
                sorted = λ h b. Sorted-append s.queue (v, suc d) h b;
                falls = ground (arith, c, length-append s.queue ((v, suc d) ∷ []));
              })
      ]
