-- ===== src/Rules/Listing.antt =====
-- `list_rules` of src/mcm_engine/adapters/sqlite/storage.py: the rules that a session is shown, the most
-- important first.
use mcm_engine.Base.{
  ℕ, ◌≤◌, ◌<◌, ◌⊎◌, ap, ◌≡◌, refl, Bool, true, false, not, ◌&&◌, ◌||◌, Option, none, some, List, [],
  ◌∷◌, ◌==◌, string_eq, nat_eq, if◌then◌else◌, ltb, leb, filter, take, map, All, arith, Bool-cases,
  inl, inr, zero, suc, length, ◌∙◌,
}
use mcm_engine.Entries.Rows.{RuleRow}
use mcm_engine.Rules.State.{Store}

-- The WHERE clause. A null status does not arise.
unfoldable pub is_listed : Bool → ℕ → RuleRow → Bool
is_listed include_archived min_importance row =
    leb min_importance row.importance
    && (not (row.status == "recalled") && (include_archived || not row.archived))

-- `ORDER BY importance DESC, id ASC`
unfoldable pub is_before : RuleRow → RuleRow → Bool
is_before a b = ltb b.importance a.importance || (a.importance == b.importance && leb a.id b.id)

unfoldable pub insert_row : RuleRow → List RuleRow → List RuleRow
insert_row row [] = row ∷ []
insert_row row (next ∷ rows) =
    let rest = insert_row row rows in if is_before row next then row ∷ next ∷ rows else next ∷ rest

unfoldable pub sort_rows : List RuleRow → List RuleRow
unfolding insert_row
sort_rows [] = []
sort_rows (row ∷ rows) = insert_row row (sort_rows rows)

unfoldable pub limited : Option ℕ → List RuleRow → List RuleRow
limited none rows = rows
limited (some n) rows = take n rows

unfoldable pub list_rules : Bool → ℕ → Option ℕ → Store → List RuleRow
unfolding limited sort_rows is_listed
list_rules include_archived min_importance limit s = limited limit (
    sort_rows (
      filter (is_listed include_archived min_importance)
        (map (λ (entry : ℕ × RuleRow). entry.1) s.rules)))

abbrev pub Before : RuleRow → RuleRow → Type 0
Before a b = is_before a b ≡ true

-- Each row comes before all that follow it.
abbrev pub Ordered : List RuleRow → Type 0
Ordered [] = Unit
Ordered (row ∷ rows) = All (Before row) rows × Ordered rows

before_total : (a b : RuleRow) → is_before a b ≡ false → is_before b a ≡ true
unfolding is_before
before_total a b h = ground arith

before_trans :
    (a b c : RuleRow) → is_before a b ≡ true → is_before b c ≡ true → is_before a c ≡ true
unfolding is_before
before_trans a b c p q = ground arith

All-insert_row :
    (P : RuleRow → Type 0) (row : RuleRow) (rows : List RuleRow)
    → P row
    → All P rows
    → All P (insert_row row rows)
unfolding insert_row
All-insert_row P row [] p h = (p, tt)
All-insert_row P row (next ∷ rows) p (q, h) = elim (Bool-cases (is_before row next)) [
  | inl c ↦ rw c (p, (q, h))
  | inr c ↦ rw c (q, All-insert_row P row rows p h)
]

All-sort_rows : (P : RuleRow → Type 0) (rows : List RuleRow) → All P rows → All P (sort_rows rows)
unfolding sort_rows
All-sort_rows P [] h = tt
All-sort_rows P (row ∷ rows) (p, h) =
    All-insert_row P row (sort_rows rows) p (All-sort_rows P rows h)

All-map {ℓ} :
    {A : Type ℓ} (P Q : A → Type 0) (xs : List A) → ((a : A) → P a → Q a) → All P xs → All Q xs
All-map P Q [] f h = tt
All-map P Q (x ∷ xs) f (p, h) = (f x p, All-map P Q xs f h)

Ordered-insert_row :
    (row : RuleRow) (rows : List RuleRow) → Ordered rows → Ordered (insert_row row rows)
unfolding insert_row
Ordered-insert_row row [] h = (tt, tt)
Ordered-insert_row row (next ∷ rows) (b, h) = elim (Bool-cases (is_before row next)) [
  | inl c ↦
      let later = All-map (Before next) (Before row) rows (λ r q. before_trans row next r c q) b in
      rw c ((c, later), (b, h))
  | inr c ↦ rw c (
    All-insert_row (Before next) row rows (before_total row next c) b,
    Ordered-insert_row row rows h,
  )
]

Ordered-sort_rows : (rows : List RuleRow) → Ordered (sort_rows rows)
unfolding sort_rows
Ordered-sort_rows [] = tt
Ordered-sort_rows (row ∷ rows) = Ordered-insert_row row (sort_rows rows) (Ordered-sort_rows rows)

All-take : (P : RuleRow → Type 0) (n : ℕ) (rows : List RuleRow) → All P rows → All P (take n rows)
All-take P zero rows h = tt
All-take P (suc n) [] h = tt
All-take P (suc n) (row ∷ rows) (p, h) = (p, All-take P n rows h)

Ordered-take : (n : ℕ) (rows : List RuleRow) → Ordered rows → Ordered (take n rows)
Ordered-take zero rows h = tt
Ordered-take (suc n) [] h = tt
Ordered-take (suc n) (row ∷ rows) (b, h) = (All-take (Before row) n rows b, Ordered-take n rows h)

All-filter : (p : RuleRow → Bool) (rows : List RuleRow) → All (λ row. p row ≡ true) (filter p rows)
All-filter p [] = tt
All-filter p (row ∷ rows) = elim (Bool-cases (p row)) [
  | inl c ↦ rw c (c, All-filter p rows)
  | inr c ↦ rw c (All-filter p rows)
]

count-insert_row :
    (p : RuleRow → Bool) (row : RuleRow) (rows : List RuleRow)
    → length (filter p (insert_row row rows)) ≡ length (filter p (row ∷ rows))
unfolding insert_row
count-insert_row p row [] = refl
count-insert_row p row (next ∷ rows) = elim (Bool-cases (is_before row next)) [
  | inl c ↦ rw c refl
  | inr c ↦ rw c (ground (arith, count-insert_row p row rows))
]

count-sort_rows :
    (p : RuleRow → Bool) (rows : List RuleRow)
    → length (filter p (sort_rows rows)) ≡ length (filter p rows)
unfolding sort_rows
count-sort_rows p [] = refl
count-sort_rows p (row ∷ rows) =
    count-insert_row p row (sort_rows rows) ∙ ground (arith, count-sort_rows p rows)

limited_sound :
    (P : RuleRow → Type 0) (limit : Option ℕ) (rows : List RuleRow)
    → Ordered rows
    → All P rows
    → Ordered (limited limit rows) × All P (limited limit rows)
unfolding limited
limited_sound P none rows a b = (a, b)
limited_sound P (some n) rows a b = (Ordered-take n rows a, All-take P n rows b)

-- Which rules a listing is of: important enough, not recalled, and not archived unless archived ones
-- are asked for.
abbrev pub IsWanted : Bool → ℕ → RuleRow → Type 0
IsWanted include_archived min_importance row =
    (min_importance ≤ row.importance)
    × ((row.status == "recalled") ≡ false)
    × ((include_archived ≡ true) ⊎ (row.archived ≡ false))

-- The more important rule first, and the older one of two as important as each other.
abbrev pub Precedes : RuleRow → RuleRow → Type 0
Precedes a b = (b.importance < a.importance) ⊎ ((a.importance ≡ b.importance) × (a.id ≤ b.id))

abbrev pub InOrder : List RuleRow → Type 0
InOrder [] = Unit
InOrder (row ∷ rows) = All (Precedes row) rows × InOrder rows

is_listed-IsWanted :
    (include_archived : Bool) (min_importance : ℕ) (row : RuleRow)
    → is_listed include_archived min_importance row ≡ true
    → IsWanted include_archived min_importance row
unfolding is_listed
is_listed-IsWanted include_archived min_importance row h = ground (arith, h)

IsWanted-is_listed :
    (include_archived : Bool) (min_importance : ℕ) (row : RuleRow)
    → IsWanted include_archived min_importance row
    → is_listed include_archived min_importance row ≡ true
unfolding is_listed
IsWanted-is_listed include_archived min_importance row h = ground (arith, h.0, h.1, h.2)

is_before-Precedes : (a b : RuleRow) → is_before a b ≡ true → Precedes a b
unfolding is_before
is_before-Precedes a b h = ground (arith, h)

Ordered-InOrder : (rows : List RuleRow) → Ordered rows → InOrder rows
Ordered-InOrder [] h = tt
Ordered-InOrder (row ∷ rows) (b, h) =
    (All-map (Before row) (Precedes row) rows (is_before-Precedes row) b, Ordered-InOrder rows h)

-- A filter for what another one lets through.
filter_within :
    (p q : RuleRow → Bool) (rows : List RuleRow)
    → ((row : RuleRow) → p row ≡ true → q row ≡ true)
    → filter p (filter q rows) ≡ filter p rows
filter_within p q [] h = refl
filter_within p q (row ∷ rows) h = ground (arith, filter_within p q rows h, h row)

-- Whatever the limit, of two rules that are listed the more important one comes first, and the one with
-- the lower id where they are as important as each other; each of them has at least the importance
-- asked for, is not recalled, and is not archived unless archived ones are asked for.
pub list_rules_sound :
    (include_archived : Bool) (min_importance : ℕ) (limit : Option ℕ) (s : Store)
    → InOrder (list_rules include_archived min_importance limit s)
      × All
          (IsWanted include_archived min_importance)
          (list_rules include_archived min_importance limit s)
unfolding list_rules
list_rules_sound include_archived min_importance limit s =
    let listed = is_listed include_archived min_importance in
    let rows = filter listed (map (λ (entry : ℕ × RuleRow). entry.1) s.rules) in
    let (ordered, all) =
      limited_sound (λ row. listed row ≡ true) limit (sort_rows rows) (Ordered-sort_rows rows)
        (All-sort_rows (λ row. listed row ≡ true) rows (All-filter listed _)) in
    (
      Ordered-InOrder (limited limit (sort_rows rows)) ordered,
      All-map (λ row. listed row ≡ true) (IsWanted include_archived min_importance)
          (limited limit (sort_rows rows)) (is_listed-IsWanted include_archived min_importance) all,
    )

-- Without a limit no wanted rule is left out and none is repeated: of any kind of rules that all have at
-- least the importance asked for, are not recalled, and are not archived unless archived ones are asked
-- for, the list has as many as the table.
pub list_rules_complete :
    (include_archived : Bool) (min_importance : ℕ) (p : RuleRow → Bool) (s : Store)
    → ((row : RuleRow) → p row ≡ true → IsWanted include_archived min_importance row)
    → length (filter p (list_rules include_archived min_importance none s))
      ≡ length (filter p (map (λ (entry : ℕ × RuleRow). entry.1) s.rules))
unfolding list_rules limited
list_rules_complete include_archived min_importance p s wanted =
    count-sort_rows p _
    ∙ ap length (
        filter_within p (is_listed include_archived min_importance) _
          (λ row h. IsWanted-is_listed include_archived min_importance row (wanted row h)))
