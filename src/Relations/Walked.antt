-- ===== src/Relations/Walked.antt =====
-- The whole walk of `trace_chain` in src/mcm_engine/tools/relations.py: what holds at each round.
use mathlib.Core.List.{Memᴰ}
use mathlib.Core.List.Memᴰ
use mcm_engine.Base.{
  ℕ, suc, ◌≤◌, ◌<◌, ◌≡◌, refl, sym, ap, ◌⊎◌, false, some, List, [], ◌∷◌, if◌then◌else◌, arith,
  Bool-cases, inl, inr, subst, length, contains, is_some, leb,
}
use mcm_engine.Base.Dict.{Distinct, get, has, get-cons_here, get-cons_cases}
use mcm_engine.Relations.Table.{Node, node_eq, RelationRow}
use mcm_engine.Relations.Trace.{Edge, Filter, Walk, edges_of, scan, start}
use mcm_engine.Relations.Step.{IsStep, Reaches, here, onward, edges_of-IsStep, IsStep-edges_of}
use mcm_engine.Relations.Scan.{scan-Extends, scan_covers}
use mcm_engine.Relations.Visit.{depths, Sorted, Linked, Fits, work, depth_at, Extends}

linked_root : (root w : Node) → contains (root ∷ []) w ≡ has {V = ℕ} ((root, 0) ∷ []) w
unfolding contains get
linked_root root w = ground arith

module _ (rows : List RelationRow) (f : Filter) (cap : ℕ) (root : Node) where
  abbrev pub AtDepth : Walk → Node → ℕ → Type 0
  AtDepth s w x = depth_at rows f root s w ≡ some x

  -- Each step from the entry leads to an entry at most one step further in.
  abbrev pub Closed : Walk → Node → ℕ → Type 0
  Closed s w x = (v : Node) → IsStep rows f w v → (y : ℕ) × AtDepth s v y × (y ≤ suc x)

  pub record Inv (s : Walk) : Type 0 where
    pub linked : Linked root s
    pub fits : Fits s
    pub distinct : Distinct (depths root s.lines)
    pub origin : AtDepth s root 0
    pub sound : (w : Node) (x : ℕ) → AtDepth s w x → (x ≤ cap) × Reaches rows f root x w
    pub listed : (q : Node × ℕ) → Memᴰ q s.queue → AtDepth s q.0 q.1
    pub sorted : Sorted s.queue
    pub near : (q : Node × ℕ) → Memᴰ q s.queue → (w : Node) (x : ℕ) → AtDepth s w x → x ≤ suc q.1
    pub closed :
        (w : Node) (x : ℕ)
        → AtDepth s w x
        → s.truncated ≡ false
        → Memᴰ (w, x) s.queue ⊎ (cap ≤ x) ⊎ Closed s w x

  at_start : (w : Node) (x : ℕ) → AtDepth (start root) w x → (root ≡ w) × (0 ≡ x)
  unfolding start depths get
  at_start w x h = elim (get-cons_cases [] root w 0 x h) [
    | inl k ↦ absurd (ground (arith, ap is_some k))
    | inr same ↦ same
  ]

  pub start-Inv : Inv (start root)
  unfolding start depths get contains
  start-Inv =
      let lone = λ (q : Node × ℕ) (m : Memᴰ q ((root, 0) ∷ [])). sym (Memᴰ.eq_of_singleton m) in
      record {
        linked = linked_root root;
        fits = record {
          counted = refl;
          room = λ h. omega arith;
          full = omega arith;
          cut = λ h. absurd (ground (arith, h));
        };
        distinct = (refl, tt);
        origin = get-cons_here [] root 0;
        sound = λ w x h.
            let (e, z) = at_start w x h in
            (omega (arith, z), subst (λ n. Reaches rows f root n w) z (here w e));
        listed = λ q m.
            subst (λ (y : Node × ℕ). AtDepth (start root) y.0 y.1) (lone q m)
              (get-cons_here [] root 0);
        sorted = (λ r m. absurd (Memᴰ.not-nil m), tt);
        near = λ q m w x h. omega (arith, (at_start w x h).1);
        closed =
            λ w x h go. let (e, z) = at_start w x h in inl (Memᴰ.head (λ i. (sym e i, sym z i)));
      }

  module _ (u : Node) (d : ℕ) (rest : List (Node × ℕ)) (s : Walk) where
    abbrev pub popped : Walk
    popped = record s { queue = rest }

    abbrev pub scanned : Walk
    scanned = scan d (edges_of rows f u) popped

    abbrev pub next : Walk
    next = if leb cap d then popped else scanned

    module _ (at_head : s.queue ≡ (u, d) ∷ rest) (going : s.truncated ≡ false) (inv : Inv s) where
      in_queue : (q : Node × ℕ) → Memᴰ q ((u, d) ∷ rest) → Memᴰ q s.queue
      in_queue q m = subst (Memᴰ q) (sym at_head) m

      from_queue : (q : Node × ℕ) → Memᴰ q s.queue → (q ≡ (u, d)) ⊎ Memᴰ q rest
      from_queue q m = Memᴰ.cases_cons (subst (Memᴰ q) at_head m)

      head-Sorted : Sorted ((u, d) ∷ rest)
      head-Sorted = subst Sorted at_head inv.sorted

      head_near : (w : Node) (x : ℕ) → AtDepth s w x → x ≤ suc d
      head_near w x h = inv.near (u, d) (in_queue (u, d) (Memᴰ.head refl)) w x h

      -- The edges of an entry at the cap are not looked at.
      pop-Inv : cap ≤ d → Inv popped
      pop-Inv far = record {
        linked = inv.linked;
        fits = record {
          counted = inv.fits.counted;
          room = inv.fits.room;
          full = inv.fits.full;
          cut = inv.fits.cut;
        };
        distinct = inv.distinct;
        origin = inv.origin;
        sound = inv.sound;
        listed = λ q m. inv.listed q (in_queue q (Memᴰ.tail m));
        sorted = head-Sorted.1;
        near = λ q m w x h. inv.near q (in_queue q (Memᴰ.tail m)) w x h;
        closed = λ w x h go. elim (inv.closed w x h go) [
          | inr k ↦ inr k
          | inl m ↦ elim (from_queue (w, x) m) [
            | inl e ↦ inr (inl (subst (λ n. cap ≤ n) (sym (ap (λ (y : Node × ℕ). y.1) e)) far))
            | inr k ↦ inl k
          ]
        ];
      }

      steps : (edge : Edge) → Memᴰ edge (edges_of rows f u) → IsStep rows f u edge.neighbor
      steps edge m = edges_of-IsStep rows f u edge m

      ext : Extends rows f root u d popped scanned
      ext = scan-Extends rows f root u d (edges_of rows f u) popped steps inv.linked

      head_reached : Reaches rows f root d u
      head_reached = (inv.sound u d (inv.listed (u, d) (in_queue (u, d) (Memᴰ.head refl)))).1

      -- What was reached lies before the cap, so a new line does not lie behind it.
      scan_sound :
          d < cap → (w : Node) (x : ℕ) → AtDepth scanned w x → (x ≤ cap) × Reaches rows f root x w
      scan_sound near_end w x h = elim (ext.fresh w x h) [
        | inl old ↦ inv.sound w x old
        | inr (e, step, _) ↦ (
          omega (arith, e, near_end),
          subst (λ n. Reaches rows f root n w) (sym e) (onward d u w head_reached step),
        )
      ]

      scan-near : (w : Node) (x : ℕ) → AtDepth scanned w x → x ≤ suc d
      scan-near w x h = elim (ext.fresh w x h) [
        | inl old ↦ head_near w x old
        | inr (e, _, _) ↦ omega (arith, e)
      ]

      scan-head : scanned.truncated ≡ false → Closed scanned u d
      scan-head go v step =
          let (edge, m, e) = IsStep-edges_of rows f u v step in
          let (y, h) =
            scan_covers rows f root u d (edges_of rows f u) popped steps inv.linked go edge m in
          let h' = subst (λ n. AtDepth scanned n y) e h in (y, h', scan-near v y h')

      scan-Closed :
          (w : Node) (x : ℕ)
          → AtDepth scanned w x
          → scanned.truncated ≡ false
          → Memᴰ (w, x) scanned.queue ⊎ (cap ≤ x) ⊎ Closed scanned w x
      scan-Closed w x h go = elim (ext.fresh w x h) [
        | inr (e, step, inl stop) ↦ absurd (ground (arith, stop, go))
        | inr (e, step, inr m) ↦ inl m
        | inl old ↦ elim (inv.closed w x old going) [
          | inr (inl far) ↦ inr (inl far)
          | inr (inr done) ↦
              inr (inr (λ v step. let (y, h', b) = done v step in (y, ext.kept v y h', b)))
          | inl m ↦ elim (from_queue (w, x) m) [
            | inr k ↦ inl (ext.queued (w, x) k)
            | inl e ↦
                inr (inr (subst (λ (q : Node × ℕ). Closed scanned q.0 q.1) (sym e) (scan-head go)))
          ]
        ]
      ]

      scan-Inv : d < cap → Inv scanned
      scan-Inv near_end = record {
        linked = ext.linked inv.linked;
        fits = ext.fits (record {
          counted = inv.fits.counted;
          room = inv.fits.room;
          full = inv.fits.full;
          cut = inv.fits.cut;
        });
        distinct = ext.distinct inv.linked inv.distinct;
        origin = ext.kept root 0 inv.origin;
        sound = scan_sound near_end;
        listed = λ q m. elim (ext.new_queue q m) [
          | inl k ↦ ext.kept q.0 q.1 (inv.listed q (in_queue q (Memᴰ.tail k)))
          | inr (e, h) ↦ h
        ];
        sorted =
            ext.sorted head-Sorted.1
              (λ q m. head_near q.0 q.1 (inv.listed q (in_queue q (Memᴰ.tail m))));
        near = λ q m w x h. elim (ext.new_queue q m) [
          | inl k ↦ omega (arith, scan-near w x h, head-Sorted.0 q k)
          | inr (e, _) ↦ omega (arith, scan-near w x h, e)
        ];
        closed = scan-Closed;
      }

      pub next-Inv : Inv next
      next-Inv = elim (Bool-cases (leb cap d)) [
        | inl c ↦ rw c (pop-Inv (ground (arith, c)))
        | inr c ↦ rw c (scan-Inv (ground (arith, c)))
      ]

      pub next-work : work next < work s
      next-work =
          let shorter = ap (λ (q : List (Node × ℕ)). length q) at_head in
          elim (Bool-cases (leb cap d)) [
            | inl c ↦ rw c (omega (arith, shorter))
            | inr c ↦ rw c (omega (arith, shorter, ext.falls))
          ]
