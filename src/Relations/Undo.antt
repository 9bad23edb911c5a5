-- ===== src/Relations/Undo.antt =====
-- `link_knowledge` and `unlink_knowledge` of src/mcm_engine/tools/relations.py undo each other.
use mcm_engine.Base.{
  ℕ, String, Bool, true, false, not, ◌&&◌, ◌≡◌, refl, ap, Option, some, List, [], ◌∷◌, ◌++◌, ◌==◌,
  string_eq, nat_eq, if◌then◌else◌, any, filter, length, contains, arith, Bool-cases, Option-cases,
  inl, inr, subst,
}
use mcm_engine.Relations.Table.{
  Node, node_eq, RelationRow, is_same_link, row_id, insert_relation_row, delete_relation,
}
use mcm_engine.Relations.Tools.{
  parse_type, valid_relations, LinkAnswer, link_nodes, linked, unlinked, no_such_link, link_row,
  link_knowledge, unlink_knowledge,
}

filter_append {ℓ} :
    {A : Type ℓ} (p : A → Bool) (xs ys : List A) → filter p (xs ++ ys) ≡ filter p xs ++ filter p ys
filter_append p [] ys = refl
filter_append p (x ∷ xs) ys = ground (arith, filter_append p xs ys)

append_nil {ℓ} : {A : Type ℓ} (xs : List A) → xs ++ [] ≡ xs
append_nil [] = refl
append_nil (x ∷ xs) = ap (λ ys. x ∷ ys) (append_nil xs)

module _ {ℓ} {A : Type ℓ} (p : A → Bool) where
  -- A filter for what no row has, and for all but it.
  filter_none : (xs : List A) → any p xs ≡ false → filter p xs ≡ []
  filter_none [] h = refl
  filter_none (x ∷ xs) h = ground (arith, h, filter_none xs)

  filter_rest : (xs : List A) → any p xs ≡ false → filter (λ x. not (p x)) xs ≡ xs
  filter_rest [] h = refl
  filter_rest (x ∷ xs) h =
      let off : p x ≡ false = ground (arith, h) in
      rw off (ap (λ ys. x ∷ ys) (filter_rest xs (ground (arith, h))))

  deleted_one :
      (xs : List A) (x : A) → any p xs ≡ false → p x ≡ true → length (filter p (xs ++ x ∷ [])) ≡ 1
  deleted_one xs x h k = rw (filter_append p xs (x ∷ []), filter_none xs h, k) refl

  kept_rest :
      (xs : List A) (x : A)
      → any p xs ≡ false
      → p x ≡ true
      → filter (λ y. not (p y)) (xs ++ x ∷ []) ≡ xs
  kept_rest xs x h k =
      rw (filter_append (λ y. not (p y)) xs (x ∷ []), filter_rest xs h, k) (append_nil xs)

-- An insertion that answers with an id is taken back by the deletion of its link.
delete-insert :
    (row : RelationRow) (rows : List RelationRow) (id : ℕ) (after : List RelationRow)
    → insert_relation_row row rows ≡ (some id, after)
    → delete_relation row.source row.target row.relation after ≡ (1, rows)
unfolding insert_relation_row delete_relation
delete-insert row rows id after h =
    let same = is_same_link row.source row.target row.relation in
    let taken = λ (other : RelationRow). other.id == row_id row rows in
    let own : row.source == row.source && row.target == row.target && row.relation == row.relation
        ≡ true =
      rw
        (
          (node_eq.same_iff row.source row.source).1 refl,
          (node_eq.same_iff row.target row.target).1 refl,
        )
        ((string_eq.same_iff row.relation row.relation).1 refl) in
    elim (Bool-cases (any same rows)) [
      | inl c ↦
          absurd
            (cc (ap (λ (x : Option ℕ × List RelationRow). x.0) (rw (insert_relation_row, c) at h)))
      | inr c ↦ elim (Bool-cases (any taken rows)) [
        | inl k ↦ absurd (
            cc
              (ap (λ (x : Option ℕ × List RelationRow). x.0) (rw (insert_relation_row, c, k) at h)))
        | inr k ↦
            let placed : RelationRow = record row { id = row_id row rows } in
            let after_is : rows ++ placed ∷ [] ≡ after =
              ap (λ (x : Option ℕ × List RelationRow). x.1) (rw (insert_relation_row, c, k) at h) in
            subst (λ end. delete_relation row.source row.target row.relation end ≡ (1, rows))
              after_is
              (λ i. (deleted_one same rows placed c own i, kept_rest same rows placed c own i))
      ]
    ]

abbrev answer : LinkAnswer × List RelationRow → LinkAnswer
answer x = x.0

module _ (entry_exists : Node → Bool) where
  link_nodes-inserted :
      (source target : Node) (relation note : String) (rows after : List RelationRow)
      → link_nodes entry_exists source target relation note rows ≡ (linked, after)
      → (id : ℕ) × (insert_relation_row (link_row entry_exists source target relation note) rows
          ≡ (some id, after))
  unfolding link_nodes
  link_nodes-inserted source target relation note rows after h =
      elim (Bool-cases (entry_exists source)) [
        | inr a ↦ absurd (cc (ap answer (rw (link_nodes, a) at h)))
        | inl a ↦ elim (Bool-cases (entry_exists target)) [
          | inr b ↦ absurd (cc (ap answer (rw (link_nodes, a, b) at h)))
          | inl b ↦
              let out =
                insert_relation_row (link_row entry_exists source target relation note) rows in
              elim (Option-cases out.0) [
                | inl c ↦ absurd (cc (ap answer (rw (link_nodes, a, b, c) at h)))
                | inr (id, c) ↦
                    let kept =
                      ap (λ (x : LinkAnswer × List RelationRow). x.1)
                        (rw (link_nodes, a, b, c) at h) in
                    (id, λ i. (c i, kept i))
              ]
        ]
      ]

  -- When link_knowledge answers that it has linked the two entries, unlink_knowledge with the same
  -- arguments answers that it has unlinked them, and the table is the one before the link.
  pub unlink_knowledge-link_knowledge :
      (source_type : String) (source_id : ℕ) (target_type : String) (target_id : ℕ)
      (relation note : String) (rows after : List RelationRow)
      → link_knowledge entry_exists source_type source_id target_type target_id relation note rows
        ≡ (linked, after)
      → unlink_knowledge source_type source_id target_type target_id relation after
        ≡ (unlinked, rows)
  unfolding link_knowledge unlink_knowledge
  unlink_knowledge-link_knowledge source_type source_id target_type target_id relation note rows
        after h =
      elim (Option-cases (parse_type source_type)) [
        | inl a ↦ absurd (cc (ap answer (rw (link_knowledge, a) at h)))
        | inr (source, a) ↦ elim (Option-cases (parse_type target_type)) [
          | inl b ↦ absurd (cc (ap answer (rw (link_knowledge, a, b) at h)))
          | inr (target, b) ↦ elim (Bool-cases (contains valid_relations relation)) [
            | inr c ↦ absurd (cc (ap answer (rw (link_knowledge, a, b, c) at h)))
            | inl c ↦
                let (id, e) =
                  link_nodes-inserted (source, source_id) (target, target_id) relation note rows
                    after (rw (link_knowledge, a, b, c) at h) in
                let gone : delete_relation (source, source_id) (target, target_id) relation after
                    ≡ (1, rows) =
                  delete-insert
                    (link_row entry_exists (source, source_id) (target, target_id) relation note)
                    rows id after e in
                rw (unlink_knowledge, a, b, c)
                  (ap
                    (λ (x : ℕ × List RelationRow).
                      (if x.0 == 0 then no_such_link else unlinked, x.1))
                    gone)
          ]
        ]
      ]
