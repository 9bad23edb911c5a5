-- ===== src/Entries/Facets.antt =====
-- The dictionaries of facets in src/mcm_engine/entries.py: how they are built, and how a key is read
-- back.
use mcm_engine.Base.{
  ℕ, String, Bool, true, false, not, ◌&&◌, Option, none, some, List, [], ◌∷◌, ◌≡◌, refl, arith,
  ◌==◌, nat_eq, string_eq, if◌then◌else◌,
}
use mcm_engine.Base.Dict.{Dict, get, put, get-put}
use mcm_engine.Entries.Rows.{Facet, text, number, flag, links, moment, Reference}

-- Python's truth value.
unfoldable pub truthy : Facet → Bool
truthy (text s) = not (s == "")
truthy (number n) = not (n == 0)
truthy (flag b) = b
truthy (links []) = false
truthy (links (r ∷ rs)) = true
truthy (moment t) = true

-- The value that `if v` lets through.
unfoldable pub kept : Option Facet → Option Facet
unfolding truthy
kept none = none
kept (some v) = if truthy v then some v else none

-- `{k: v for k, v in fields.items() if v}`
unfoldable pub keep : List (String × Option Facet) → Dict String Facet
unfolding kept
keep [] = []
keep ((k, v) ∷ fields) =
    let rest = keep fields in elim (kept v) [ none ↦ rest | some value ↦ (k, value) ∷ rest ]

-- `if b: facets[k] = v`
unfoldable pub put_if : Bool → String → Facet → Dict String Facet → Dict String Facet
put_if b k v d = if b then put d k v else d

-- A key of the dictionary, read from the fields it was built from.
unfoldable pub lookup : List (String × Option Facet) → String → Option Facet
lookup [] k = none
lookup ((j, v) ∷ fields) k =
    let later = lookup fields k in
    if j == k then elim (kept v) [ none ↦ later | some value ↦ some value ] else later

pub get-keep :
    (fields : List (String × Option Facet)) (k : String) → get (keep fields) k ≡ lookup fields k
unfolding keep get lookup
get-keep [] k = refl
get-keep ((j, v) ∷ fields) k = ground (arith, get-keep fields k)

pub get-put_if :
    (b : Bool) (j k : String) (v : Facet) (d : Dict String Facet)
    → get (put_if b j v d) k ≡ (if j == k && b then some v else get d k)
unfolding put_if
get-put_if true j k v d = ground (arith, get-put d j k v)
get-put_if false j k v d = ground arith

-- `facets.get(k)` at the type that the rows have there. A facet of another type is taken as absent.
unfoldable pub as_text : Option Facet → Option String
as_text (some (text s)) = some s
as_text _ = none

unfoldable pub as_links : Option Facet → Option (List Reference)
as_links (some (links rs)) = some rs
as_links _ = none

-- `_parse_dt`
unfoldable pub as_moment : Option Facet → Option ℕ
as_moment (some (moment t)) = some t
as_moment _ = none

-- `int(facets.get(k, 0))`
unfoldable pub as_number : Option Facet → ℕ
as_number (some (number n)) = n
as_number _ = 0

-- `bool(facets.get(k, False))`
unfoldable pub as_flag : Option Facet → Bool
unfolding truthy
as_flag none = false
as_flag (some v) = truthy v
