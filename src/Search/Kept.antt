-- ===== src/Search/Kept.antt =====
-- What the scorers of src/mcm_engine/tools/search.py read of an entry is what they read of its row.
use mcm_engine.Base.{
  ℕ, ◌+◌, String, Bool, false, ◌&&◌, Option, none, some, List, [], ◌∷◌, ◌==◌, ◌≡◌, refl, sym, ap,
  ◌∙◌, string_eq, nat_eq, if◌then◌else◌, or_text, arith, Bool-cases, inl, inr,
}
use mcm_engine.Entries.Rows.{Reference}
use mcm_engine.Entries.Fields.{nonempty, nonempty_list}
use mcm_engine.Search.Policy.{Piece, when_text, when_refs}
use mcm_engine.Search.Score.{
  Sources, Snapshot, is_elsewhere, is_author, weigh, graded, scope_term, project_match,
}

pub when_text-nonempty :
    (o : Option String) (f : String → List Piece) → when_text (nonempty o) f ≡ when_text o f
unfolding when_text nonempty
when_text-nonempty none f = refl
when_text-nonempty (some s) f = elim (Bool-cases (s == "")) [
  | inl c ↦ rw c refl
  | inr c ↦ rw (c, c) refl
]

-- A field of the facets shows as the row's.
pub field_text :
    {o' : Option String} (o : Option String) (f : String → List Piece)
    → o' ≡ nonempty o
    → when_text o' f ≡ when_text o f
field_text o f q = ap (λ x. when_text x f) q ∙ when_text-nonempty o f

pub when_refs-nonempty_list :
    (o : Option (List Reference)) → when_refs (nonempty_list o) ≡ when_refs o
unfolding when_refs nonempty_list
when_refs-nonempty_list none = refl
when_refs-nonempty_list (some []) = refl
when_refs-nonempty_list (some (r ∷ rs)) = refl

pub is_author-nonempty :
    (o : Option String) (actor : String) → is_author (nonempty o) actor ≡ is_author o actor
unfolding is_author nonempty
is_author-nonempty none actor = refl
is_author-nonempty (some s) actor = elim (Bool-cases (s == "")) [
  | inl c ↦ rw c refl
  | inr c ↦ rw (c, c) refl
]

pub weigh-nonempty :
    (weight : String → ℕ) (o : Option String) (outcomes : List (String × Bool))
    → weigh weight (nonempty o) outcomes ≡ weigh weight o outcomes
unfolding weigh
weigh-nonempty weight o [] = refl
weigh-nonempty weight o ((actor, passed) ∷ outcomes) = λ i.
    let rest = weigh-nonempty weight o outcomes i in
    if is_author-nonempty o actor i
    then rest
    else if passed
    then (weight actor + rest.0, rest.1)
    else (rest.0, weight actor + rest.1)

pub graded-nonempty :
    (src : Sources) (snap : Snapshot) (id : ℕ) (o : Option String)
    → graded src snap id (nonempty o) ≡ graded src snap id o
unfolding graded
graded-nonempty src snap id o =
    ap (λ w. if snap.correct_count == 0 && snap.incorrect_count == 0 then (0, 0) else w)
      (weigh-nonempty src.actor_weight o (src.list_rule_outcomes id))

-- A status that is empty stands for "active", which no test asks for.
pub status_test :
    (status name : String)
    → ("" == name) ≡ false
    → ("active" == name) ≡ false
    → (or_text status "active" == name) ≡ (status == name)
unfolding or_text
status_test status name h k = elim (Bool-cases (status == "")) [
  | inl c ↦ rw c (k ∙ sym h ∙ ap (λ s. s == name) (sym ((string_eq.same_iff status "").0 c)))
  | inr c ↦ rw c refl
]

pub scope_lem : (s : String) → scope_term (some (or_text s "conditional")) ≡ scope_term (some s)
unfolding or_text
scope_lem s = elim (Bool-cases (s == "")) [
  | inl c ↦ rw ((string_eq.same_iff s "").0 c) refl
  | inr c ↦ rw c refl
]

pub elsewhere_none : (requested : String) → is_elsewhere none requested ≡ false
unfolding project_match
elsewhere_none requested = ground arith
