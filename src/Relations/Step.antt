-- ===== src/Relations/Step.antt =====
-- The graph that `trace_chain` of src/mcm_engine/tools/relations.py walks: a step is a row of the table,
-- taken in a direction that is asked for.
use mathlib.Core.List.{Memᴰ}
use mathlib.Core.List.Memᴰ
use mcm_engine.Base.{
  ℕ, suc, Bool, true, false, ◌≡◌, refl, sym, ap, ◌∙◌, ◌⊎◌, List, [], ◌∷◌, ◌==◌, string_eq, filter,
  map, if◌then◌else◌, Bool-cases, inl, inr, subst,
}
use mcm_engine.Relations.Table.{
  Node, node_eq, RelationRow, list_outgoing_relations, list_incoming_relations,
}
use mcm_engine.Relations.Trace.{Edge, Filter, is_wanted, out_edge, in_edge, edges_of}

module _ {ℓ} {A : Type ℓ} where
  pub Memᴰ-filter :
      (p : A → Bool) (xs : List A) (a : A) → Memᴰ a (filter p xs) → Memᴰ a xs × (p a ≡ true)
  Memᴰ-filter p [] a m = absurd (Memᴰ.not-nil m)
  Memᴰ-filter p (x ∷ xs) a m = elim (Bool-cases (p x)) [
    | inl c ↦
        elim (Memᴰ.cases_cons
          (subst (λ b. Memᴰ a (if b then x ∷ filter p xs else filter p xs)) c m)) [
            | inl e ↦ (Memᴰ.head e, ap p e ∙ c)
            | inr n ↦ let (k, q) = Memᴰ-filter p xs a n in (Memᴰ.tail k, q)
          ]
    | inr c ↦
        let (k, q) =
          Memᴰ-filter p xs a
            (subst (λ b. Memᴰ a (if b then x ∷ filter p xs else filter p xs)) c m) in
        (Memᴰ.tail k, q)
  ]

  pub filter-Memᴰ :
      (p : A → Bool) (xs : List A) (a : A) → Memᴰ a xs → p a ≡ true → Memᴰ a (filter p xs)
  filter-Memᴰ p [] a m q = absurd (Memᴰ.not-nil m)
  filter-Memᴰ p (x ∷ xs) a m q = elim (Memᴰ.cases_cons m) [
    | inl e ↦ rw (sym (ap p e) ∙ q) (Memᴰ.head e)
    | inr n ↦ elim (Bool-cases (p x)) [
      | inl c ↦ rw c (Memᴰ.tail (filter-Memᴰ p xs a n q))
      | inr c ↦ rw c (filter-Memᴰ p xs a n q)
    ]
  ]

  pub Memᴰ-map {κ} :
      {B : Type κ} (f : A → B) (xs : List A) (b : B)
      → Memᴰ b (map f xs)
      → (a : A) × Memᴰ a xs × (b ≡ f a)
  Memᴰ-map f [] b m = absurd (Memᴰ.not-nil m)
  Memᴰ-map f (x ∷ xs) b m = elim (Memᴰ.cases_cons m) [
    | inl e ↦ (x, Memᴰ.head refl, e)
    | inr n ↦ let (a, k, e) = Memᴰ-map f xs b n in (a, Memᴰ.tail k, e)
  ]

module _ (rows : List RelationRow) (f : Filter) where
  -- The row leads from the one entry to the other, in a direction that is asked for.
  abbrev pub Leads : RelationRow → Node → Node → Type 0
  Leads row u w =
      ((f.want_out ≡ true) × (row.source ≡ u) × (row.target ≡ w))
      ⊎ ((f.want_in ≡ true) × (row.target ≡ u) × (row.source ≡ w))

  abbrev pub IsStep : Node → Node → Type 0
  IsStep u w = (row : RelationRow) × Memᴰ row rows × (is_wanted f row ≡ true) × Leads row u w

  -- A walk of that many steps.
  pub data Reaches (from : Node) : ℕ → Node → Type 0 where
    here : (w : Node) → from ≡ w → Reaches from 0 w
    onward : (n : ℕ) (v w : Node) → Reaches from n v → IsStep v w → Reaches from (suc n) w

  out_edges : Node → List Edge
  out_edges u = map out_edge (filter (is_wanted f) (list_outgoing_relations u rows))

  in_edges : Node → List Edge
  in_edges u = map in_edge (filter (is_wanted f) (list_incoming_relations u rows))

  listed_out :
      (u : Node) (edge : Edge)
      → f.want_out ≡ true
      → Memᴰ edge (out_edges u)
      → IsStep u edge.neighbor
  unfolding out_edges list_outgoing_relations
  listed_out u edge want m =
      let (row, k, e) = Memᴰ-map out_edge _ edge m in
      let (k', wanted) = Memᴰ-filter (is_wanted f) _ row k in
      let (k'', own) = Memᴰ-filter (λ r. r.source == u) rows row k' in
      (
        row,
        k'',
        wanted,
        inl (want, (node_eq.same_iff row.source u).0 own, sym (ap (λ (x : Edge). x.neighbor) e)),
      )

  listed_in :
      (u : Node) (edge : Edge) → f.want_in ≡ true → Memᴰ edge (in_edges u) → IsStep u edge.neighbor
  unfolding in_edges list_incoming_relations
  listed_in u edge want m =
      let (row, k, e) = Memᴰ-map in_edge _ edge m in
      let (k', wanted) = Memᴰ-filter (is_wanted f) _ row k in
      let (k'', own) = Memᴰ-filter (λ r. r.target == u) rows row k' in
      (
        row,
        k'',
        wanted,
        inr (want, (node_eq.same_iff row.target u).0 own, sym (ap (λ (x : Edge). x.neighbor) e)),
      )

  if_listed :
      (b : Bool) (edge : Edge) (es : List Edge)
      → Memᴰ edge (if b then es else [])
      → (b ≡ true) × Memᴰ edge es
  if_listed true edge es m = (refl, m)
  if_listed false edge es m = absurd (Memᴰ.not-nil m)

  -- What the walk lists at an entry are steps from it, and each step from it is listed.
  pub edges_of-IsStep :
      (u : Node) (edge : Edge) → Memᴰ edge (edges_of rows f u) → IsStep u edge.neighbor
  unfolding edges_of out_edges in_edges
  edges_of-IsStep u edge m = elim (Memᴰ.append_cases (if f.want_out then out_edges u else []) m) [
    | inl k ↦ let (want, n) = if_listed f.want_out edge (out_edges u) k in listed_out u edge want n
    | inr k ↦ let (want, n) = if_listed f.want_in edge (in_edges u) k in listed_in u edge want n
  ]

  pub IsStep-edges_of :
      (u w : Node)
      → IsStep u w
      → (edge : Edge) × Memᴰ edge (edges_of rows f u) × (edge.neighbor ≡ w)
  unfolding edges_of out_edges in_edges list_outgoing_relations list_incoming_relations
  IsStep-edges_of u w (row, m, wanted, inl (want, own, end)) =
      let k = filter-Memᴰ (λ r. r.source == u) rows row m ((node_eq.same_iff row.source u).1 own) in
      let k' = Memᴰ.map out_edge (filter-Memᴰ (is_wanted f) _ row k wanted) in
      (
        out_edge row,
        Memᴰ.append_left (if f.want_in then in_edges u else [])
            (subst (λ b. Memᴰ (out_edge row) (if b then out_edges u else [])) (sym want) k'),
        end,
      )
  IsStep-edges_of u w (row, m, wanted, inr (want, own, end)) =
      let k = filter-Memᴰ (λ r. r.target == u) rows row m ((node_eq.same_iff row.target u).1 own) in
      let k' = Memᴰ.map in_edge (filter-Memᴰ (is_wanted f) _ row k wanted) in
      (
        in_edge row,
        Memᴰ.append_right (if f.want_out then out_edges u else [])
            (subst (λ b. Memᴰ (in_edge row) (if b then in_edges u else [])) (sym want) k'),
        end,
      )
