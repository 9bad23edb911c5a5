-- ===== src/Entries/Fields.antt =====
-- How each kind of field comes back from the dictionary of facets.
use mcm_engine.Base.{
  ℕ, String, Bool, true, false, not, ◌&&◌, Option, none, some, List, [], ◌∷◌, ◌≡◌, refl, arith,
  ◌==◌, nat_eq, string_eq, if◌then◌else◌, or_text, Bool-cases, inl, inr,
}
use mcm_engine.Base.Dict.{get}
use mcm_engine.Entries.Rows.{RuleRow, Facet, Reference, text, number, flag, links, moment}
use mcm_engine.Entries.Facets.{
  lookup, kept, truthy, as_text, as_links, as_moment, as_number, as_flag, get-keep, get-put_if,
}
use mcm_engine.Entries.Restore.{text_or}
use mcm_engine.Entries.Project.{as_facet, rule_fields, rule_facets}

unfoldable pub nonempty : Option String → Option String
nonempty none = none
nonempty (some s) = if s == "" then none else some s

unfoldable pub nonempty_list : Option (List Reference) → Option (List Reference)
nonempty_list (some (r ∷ rs)) = some (r ∷ rs)
nonempty_list _ = none

-- One field that no later one shadows.
unfoldable pub only : Option Facet → Option Facet
only none = none
only (some value) = some value

pub text_field : (o : Option String) → as_text (only (kept (as_facet text o))) ≡ nonempty o
unfolding as_text only kept nonempty truthy
text_field none = refl
text_field (some s) = ground arith

pub links_field :
    (o : Option (List Reference)) → as_links (only (kept (as_facet links o))) ≡ nonempty_list o
unfolding as_links only kept nonempty_list truthy
links_field none = refl
links_field (some []) = refl
links_field (some (r ∷ rs)) = refl

pub moment_field : (o : Option ℕ) → as_moment (only (kept (as_facet moment o))) ≡ o
unfolding as_moment only kept truthy
moment_field none = refl
moment_field (some t) = refl

pub or_empty : (s : String) → or_text s "" ≡ s
unfolding or_text
or_empty s = ground (arith, string_eq.same_iff s "")

pub severity_field :
    (s : String)
    → text_or (as_text (only (kept (if s == "normal" then none else some (text s))))) "normal"
      ≡ or_text s "normal"
unfolding as_text only kept truthy or_text
severity_field s = elim (Bool-cases (s == "normal")) [
  | inl p ↦ rw ((string_eq.same_iff s "normal").0 p) refl
  | inr p ↦ rw p (elim (Bool-cases (s == "")) [ inl q ↦ rw q refl | inr q ↦ rw (q, q) refl ])
]

-- What the dictionary of a rule's facets has at a key.
unfoldable pub rule_read : RuleRow → String → Option Facet
rule_read r k =
    if "scope" == k && not (r.scope == "conditional")
    then some (text r.scope)
    else if "importance" == k && not (r.importance == 0)
    then some (number r.importance)
    else if "incorrect_count" == k && not (r.incorrect_count == 0)
    then some (number r.incorrect_count)
    else if "correct_count" == k && not (r.correct_count == 0)
    then some (number r.correct_count)
    else if "archived" == k && r.archived
    then some (flag true)
    else lookup (rule_fields r) k

pub get-rule_facets : (r : RuleRow) (k : String) → get (rule_facets r) k ≡ rule_read r k
unfolding rule_facets rule_read
get-rule_facets r k = rw (get-put_if, get-put_if, get-put_if, get-put_if, get-put_if, get-keep) refl

pub count_field : (n : ℕ) → as_number (if true && not (n == 0) then some (number n) else none) ≡ n
unfolding as_number
count_field n = ground arith

pub flag_field : (b : Bool) → as_flag (if true && b then some (flag true) else none) ≡ b
unfolding as_flag
flag_field true = refl
flag_field false = refl

pub scope_field :
    (s : String)
    → text_or
        (as_text (if true && not (s == "conditional") then some (text s) else none))
        "conditional"
      ≡ or_text s "conditional"
unfolding as_text or_text
scope_field s = elim (Bool-cases (s == "conditional")) [
  | inl p ↦ rw ((string_eq.same_iff s "conditional").0 p) refl
  | inr p ↦ rw p refl
]
