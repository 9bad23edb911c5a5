-- ===== src/Search/Policy.antt =====
-- The policies of the kinds in src/mcm_engine/policies.py: what a search withholds, which terms the rank
-- has, and the text of a hit. A text is the list of its pieces.
use mcm_engine.Base.{
  ℕ, String, Bool, true, false, not, ◌&&◌, ◌||◌, Option, none, some, List, [], ◌∷◌, ◌++◌, ◌==◌,
  string_eq, nat_eq, if◌then◌else◌,
}
use mcm_engine.Base.Dict.{get}
use mcm_engine.Entries.Rows.{Entry, Reference}
use mcm_engine.Entries.Facets.{as_text, as_links, as_number, as_flag}
use mcm_engine.Entries.Restore.{text_or}

pub record KindPolicy : Type 0 where
  pub tracks_hits : Bool
  pub composite_rank : Bool
  pub governed : Bool

-- `none` is a kind that POLICIES does not have.
unfoldable pub policy_for : String → Option KindPolicy
policy_for kind =
    if kind == "knowledge"
    then some (record { tracks_hits = true; composite_rank = true; governed = false })
    else if kind == "negative"
    then some (record { tracks_hits = false; composite_rank = false; governed = false })
    else if kind == "error"
    then some (record { tracks_hits = false; composite_rank = false; governed = false })
    else if kind == "rule"
    then some (record { tracks_hits = true; composite_rank = true; governed = true })
    else none

-- Recall is terminal; archived and superseded are revealed by `include_archived`.
unfoldable pub hidden : Entry → Bool → Bool
unfolding as_flag get
hidden e include_archived =
    let reveals = not include_archived in
    (e.kind == "rule" && (e.status == "recalled" || as_flag (get e.facets "archived") && reveals))
    || ((e.kind == "rule" || e.kind == "knowledge") && e.status == "superseded" && reveals)

-- The terms of `compose_rank` that only a rule has.
unfoldable pub rank_inputs : Entry → Option ℕ × Option String
unfolding as_number as_text get
rank_inputs e =
    if e.kind == "rule"
    then (
      some (as_number (get e.facets "importance")),
      some (text_or (as_text (get e.facets "scope")) "conditional"),
    )
    else (none, none)

-- A piece of the text of a hit.
pub data Piece : Type 0 where
  plain : String → Piece
  number : ℕ → Piece
  -- in capitals
  upper : String → Piece
  -- a field of the entry of that kind and id, which summary mode cuts off
  capped : String → String → ℕ → Piece
  refs : List Reference → Piece
  -- the match that the backend highlights
  snippet : String → Piece

-- `if field: ...`
unfoldable pub when_text : Option String → (String → List Piece) → List Piece
when_text none f = []
when_text (some s) f = if s == "" then [] else f s

unfoldable pub when_refs : Option (List Reference) → List Piece
when_refs (some (r ∷ rs)) = plain "\n" ∷ refs (r ∷ rs) ∷ []
when_refs _ = []

-- A line of its own.
abbrev pub line : String → String → List Piece
line name value = plain name ∷ plain value ∷ []

abbrev pub capped_line : String → String → ℕ → String → List Piece
capped_line name kind id value = plain name ∷ capped value kind id ∷ []

unfoldable pub render_hit : Entry → Bool → List Piece → List Piece
unfolding when_text when_refs as_text as_links get
render_hit e full tags =
    let field : String → Option String = λ k. as_text (get e.facets k) in
    if e.kind == "knowledge"
    then (plain "[KNOWLEDGE/"
        ∷ upper (text_or e.subkind "finding")
        ∷ plain " #"
        ∷ number e.id
        ∷ plain "]"
        ∷ [])
      ++ tags
      ++ (plain " " ∷ plain e.title ∷ plain ": " ∷ plain (text_or e.summary "") ∷ [])
      ++ (if full
          then when_text e.body (line "\n  Detail: ")
            ++ when_text e.tags (line "\n  Tags: ")
            ++ when_refs (as_links (get e.facets "references"))
          else when_text e.tags (line "\n  Tags: "))
    else if e.kind == "rule"
    then (plain "[RULE #" ∷ number e.id ∷ plain "]" ∷ [])
      ++ tags
      ++ (plain " " ∷ plain e.title ∷ [])
      ++ when_text (field "category") (λ c. plain " (" ∷ plain c ∷ plain ")" ∷ [])
      ++ when_text e.summary (line "\n  ")
      ++ (if full then when_text (field "file_path") (line "\n  File: ") else [])
    else if e.kind == "negative"
    then (plain "[NEGATIVE #" ∷ number e.id ∷ plain "]" ∷ [])
      ++ tags
      ++ (plain " " ∷ plain e.title ∷ plain ": " ∷ plain (text_or e.summary "") ∷ [])
      ++ when_text (field "why_failed") (capped_line "\n  Why: " "negative" e.id)
      ++ when_text (field "correct_approach") (capped_line "\n  Fix: " "negative" e.id)
    else (plain "[ERROR #" ∷ number e.id ∷ plain "]" ∷ [])
      ++ tags
      ++ (plain " " ∷ plain e.title ∷ [])
      ++ when_text (field "root_cause") (capped_line "\n  Root cause: " "error" e.id)
      ++ when_text (field "fix") (capped_line "\n  Fix: " "error" e.id)
