-- ===== src/Rules/Chains.antt =====
-- The chains of superseded rules: src/mcm_engine/tools/rules.py refuses what would leave one without
-- an end, and this is what such a chain is.
use mcm_engine.Base.{
  ℕ, Bool, true, false, Option, none, some, ◌==◌, ◌≡◌, refl, sym, ◌∙◌, nat_eq, string_eq,
  if◌then◌else◌, subst, Option-cases, Bool-cases, inl, inr, map_option, is_some,
}
use mcm_engine.Base.Dict.{get, get-put}
use mcm_engine.Entries.Rows.{RuleRow}
use mcm_engine.Rules.State.{Store, update_row}

abbrev pub row_state : RuleRow → Bool × Option ℕ
row_state row = (row.status == "superseded", row.superseded_by)

-- Whether the rule is superseded, and by which one; `none` where there is no such rule.
unfoldable pub state_of : Store → ℕ → Option (Bool × Option ℕ)
state_of s id = map_option row_state (get s.rules id)

-- The successors, from one to the next, reach a rule that is not superseded.
pub data EndsLive (s : Store) : ℕ → Type 0 where
  live : (id : ℕ) (w : Option ℕ) → state_of s id ≡ some (false, w) → EndsLive s id
  via : (id next : ℕ) → state_of s id ≡ some (true, some next) → EndsLive s next → EndsLive s id

pub record IsLinked (s : Store) : Type 0 where
  pub ends : (id : ℕ) → is_some (state_of s id) ≡ true → EndsLive s id

-- What a change at one id leaves of a chain, when the chain from that id still ends.
EndsLive-at :
    (s t : Store) (at : ℕ)
    → EndsLive t at
    → ((id : ℕ) → (at == id) ≡ false → state_of t id ≡ state_of s id)
    → (id : ℕ) → EndsLive s id
    → EndsLive t id
EndsLive-at s t at r same _ (live id v q) = elim (Bool-cases (at == id)) [
  | inl c ↦ subst (EndsLive t) ((nat_eq.same_iff at id).0 c) r
  | inr c ↦ live id v (same id c ∙ q)
]
EndsLive-at s t at r same _ (via id next q h) = elim (Bool-cases (at == id)) [
  | inl c ↦ subst (EndsLive t) ((nat_eq.same_iff at id).0 c) r
  | inr c ↦ via id next (same id c ∙ q) (EndsLive-at s t at r same next h)
]

pub IsLinked-at :
    (s t : Store) (at : ℕ)
    → EndsLive t at
    → ((id : ℕ) → (at == id) ≡ false → state_of t id ≡ state_of s id)
    → IsLinked s
    → IsLinked t
IsLinked-at s t at r same h = record {
  ends = λ id there. elim (Bool-cases (at == id)) [
    | inl c ↦ subst (EndsLive t) ((nat_eq.same_iff at id).0 c) r
    | inr c ↦
        EndsLive-at s t at r same id (h.ends id (subst (λ o. is_some o ≡ true) (same id c) there))
  ];
}

pub state_of-update_row :
    (id j : ℕ) (change : RuleRow → RuleRow) (s : Store)
    → state_of (update_row id change s) j ≡ (
        if id == j
        then map_option (λ row. row_state (change row)) (get s.rules id)
        else state_of s j)
unfolding state_of update_row
state_of-update_row id j change s = elim (Option-cases (get s.rules id)) [
  | inl p ↦
      rw (update_row, p)
        (elim (Bool-cases (id == j)) [
          | inl c ↦ rw (c, sym ((nat_eq.same_iff id j).0 c), p) refl
          | inr c ↦ rw c refl
        ])
  | inr (row, p) ↦
      rw (update_row, p, get-put s.rules id j (change row))
        (elim (Bool-cases (id == j)) [ inl c ↦ rw c refl | inr c ↦ rw c refl ])
]

-- A change of a row that keeps its status and its successor.
abbrev pub KeepsState : (RuleRow → RuleRow) → Type 0
KeepsState change =
    (row : RuleRow)
    → ((change row).status ≡ row.status) × ((change row).superseded_by ≡ row.superseded_by)

map-kept :
    (change : RuleRow → RuleRow) (o : Option RuleRow)
    → KeepsState change
    → map_option (λ row. row_state (change row)) o ≡ map_option row_state o
map-kept change none k = refl
map-kept change (some row) k = λ i. some ((k row).0 i == "superseded", (k row).1 i)

pub state_of-kept :
    (id j : ℕ) (change : RuleRow → RuleRow) (s : Store)
    → KeepsState change
    → state_of (update_row id change s) j ≡ state_of s j
unfolding state_of
state_of-kept id j change s k = state_of-update_row id j change s ∙ elim (Bool-cases (id == j)) [
  | inl c ↦ rw (c, sym ((nat_eq.same_iff id j).0 c)) (map-kept change (get s.rules id) k)
  | inr c ↦ rw c refl
]

EndsLive-same :
    (s t : Store)
    → ((id : ℕ) → state_of t id ≡ state_of s id)
    → (id : ℕ) → EndsLive s id
    → EndsLive t id
EndsLive-same s t same _ (live id v q) = live id v (same id ∙ q)
EndsLive-same s t same _ (via id next q h) =
    via id next (same id ∙ q) (EndsLive-same s t same next h)

pub IsLinked-same :
    (s t : Store) → ((id : ℕ) → state_of t id ≡ state_of s id) → IsLinked s → IsLinked t
IsLinked-same s t same h = record {
  ends = λ id there.
      EndsLive-same s t same id (h.ends id (subst (λ o. is_some o ≡ true) (same id) there));
}
