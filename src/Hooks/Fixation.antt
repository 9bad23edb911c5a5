-- ===== src/Hooks/Fixation.antt =====
-- The fixation breaker of src/mcm_engine/hooks/mcp_enforcement.py: it counts consecutive edits of one
-- file. The threshold, which the source reads from the environment, is an argument.
use mcm_engine.Base.{
  ℕ, zero, suc, ◌+◌, ◌*◌, ◌/◌, ◌%◌, ◌≤◌, ◌<◌, ◌≡◌, ◌≢◌, refl, String, not, false, sym, subst, ◌&&◌,
  Option, none, some, arith, ◌==◌, nat_eq, string_eq, if◌then◌else◌, leb, or_text, ◌||◌, ap, ◌∙◌,
  Option-cases, inl, inr,
}
use native.Mathlib.Decide.{dec_lt}
use native.Mathlib.Nat.{
  div-eq_of_lt, mod-eq_of_lt, div_self, mod_self, div-add-mod, mul-add-div, mod-lt, suc-mod,
  zero-div,
}
use mcm_engine.Hooks.State.{SessionState}
use mcm_engine.Hooks.Classify.{normalize_builtin_tool, is_mutator}

-- The parts of an event's `tool_input` that are read here; `""` where a key is absent.
pub record ToolInput : Type 0 where
  pub file_path : String
  pub path : String
  pub notebook_path : String

-- `_mutator_path`
unfoldable pub mutator_path : String → ToolInput → Option String
mutator_path tool_name input =
    let target = or_text input.file_path (or_text input.path input.notebook_path) in
    if not (is_mutator (normalize_builtin_tool tool_name)) || target == ""
    then none
    else some target

unfoldable pub next_run : String → SessionState → ℕ
next_run path s = elim s.fixation_locus [
  | none ↦ 1
  | some locus ↦ if path == locus then s.fixation_run + 1 else 1
]

-- One edit of `path`: the length of the run if the advice is given, and the state.
unfoldable pub note_edit : ℕ → String → SessionState → Option ℕ × SessionState
note_edit threshold path s =
    let run = next_run path s in
    let counted = record s { fixation_locus = some path; fixation_run = run } in
    if leb threshold run && run % threshold == 0
    then (some run, record counted { fixation_events = s.fixation_events + 1 })
    else (none, counted)

-- `_fixation_check`
unfoldable pub fixation_check : ℕ → String → ToolInput → SessionState → Option ℕ × SessionState
fixation_check threshold tool_name input s =
    if threshold == 0 then (none, s) else elim (mutator_path tool_name input) [
      | none ↦ (none, s)
      | some path ↦ note_edit threshold path s
    ]

-- `n` calls in a row with the same tool and input.
unfoldable pub edits : ℕ → String → ToolInput → ℕ → SessionState → SessionState
edits threshold tool_name input zero s = s
edits threshold tool_name input (suc n) s =
    (fixation_check threshold tool_name input (edits threshold tool_name input n s)).1

-- A quotient goes up exactly at the multiples.
div-edge : (r t : ℕ) → r < t → suc r / t ≡ (if suc r % t == 0 then 1 else 0)
div-edge r t h = elim (dec_lt (suc r) t) [
  | yes p ↦ rw (div-eq_of_lt p, mod-eq_of_lt p) (ground arith)
  | no p ↦
      let e : t ≡ suc r = omega arith in
      rw (e, div_self {n = suc r} (omega arith), mod_self (suc r)) refl
]

div-suc : (k t : ℕ) → 0 < t → suc k / t ≡ (if suc k % t == 0 then k / t + 1 else k / t)
div-suc k t h =
    let split : suc k ≡ t * (k / t) + suc (k % t) = omega (arith, div-add-mod k t) in
    let quotient : suc k / t ≡ k / t + suc (k % t) / t =
      ap (λ n. n / t) split ∙ mul-add-div h (k / t) (suc (k % t)) in
    ground (arith, quotient, div-edge (k % t) t (mod-lt k h), suc-mod k t)

multiple-le : (n t : ℕ) → 0 < n → n % t ≡ 0 → t ≤ n
multiple-le n t h e = elim (dec_lt n t) [
  | yes p ↦ absurd (ground (arith, mod-eq_of_lt p))
  | no p ↦ omega arith
]

note_edit_counts :
    (threshold : ℕ) (path : String) (s : SessionState)
    → 0 < threshold
    → 0 < next_run path s
    → ((note_edit threshold path s).0
        ≡ (if next_run path s % threshold == 0 then some (next_run path s) else none))
      × ((note_edit threshold path s).1.fixation_locus ≡ some path)
      × ((note_edit threshold path s).1.fixation_run ≡ next_run path s)
      × ((note_edit threshold path s).1.fixation_events
          ≡ (if next_run path s % threshold == 0 then s.fixation_events + 1 else s.fixation_events))
unfolding note_edit
note_edit_counts threshold path s h p = (
  ground (arith, multiple-le (next_run path s) threshold p),
  ground arith,
  ground arith,
  ground (arith, multiple-le (next_run path s) threshold p),
)

first_run : (path : String) (s : SessionState) → s.fixation_locus ≢ some path → next_run path s ≡ 1
unfolding next_run
first_run path s l = elim (Option-cases s.fixation_locus) [
  | inl e ↦ ground arith
  | inr (locus, e) ↦ ground (arith, string_eq.same_iff path locus)
]

later_run :
    (path : String) (s : SessionState)
    → s.fixation_locus ≡ some path
    → next_run path s ≡ s.fixation_run + 1
unfolding next_run
later_run path s e = ground (arith, string_eq.same_iff path path)

-- A call that edits `path` is counted as an edit of it.
fixation_check-note_edit :
    (threshold : ℕ) (tool_name : String) (input : ToolInput) (path : String) (s : SessionState)
    → 0 < threshold
    → mutator_path tool_name input ≡ some path
    → fixation_check threshold tool_name input s ≡ note_edit threshold path s
unfolding fixation_check
fixation_check-note_edit threshold tool_name input path s h m =
    let positive : (threshold == 0) ≡ false = ground (arith, h) in
    rw (fixation_check, positive, m) refl

-- What the edit of that number in a row gives, from that many events on.
abbrev IsEdit : ℕ → ℕ → String → ℕ → Option ℕ × SessionState → Type 0
IsEdit threshold number path events result =
    (result.0 ≡ (if number % threshold == 0 then some number else none))
    × (result.1.fixation_locus ≡ some path)
    × (result.1.fixation_run ≡ number)
    × (result.1.fixation_events ≡ events + number / threshold)

-- Where the threshold is positive and the file was not the last one edited: of consecutive edits of the
-- file, each one whose number is a multiple of the threshold is given the advice, with that number, and no
-- other one is; after any number of them the run is that number, and one event was counted for each
-- advice.
pub edits_counted :
    (threshold n : ℕ) (tool_name : String) (input : ToolInput) (path : String) (s : SessionState)
    → 0 < threshold
    → mutator_path tool_name input ≡ some path
    → s.fixation_locus ≢ some path
    → let before = edits threshold tool_name input n s in
      let after = edits threshold tool_name input (suc n) s in
      ((fixation_check threshold tool_name input before).0
        ≡ (if suc n % threshold == 0 then some (suc n) else none))
      × (after.fixation_locus ≡ some path)
      × (after.fixation_run ≡ suc n)
      × (after.fixation_events ≡ s.fixation_events + suc n / threshold)
unfolding edits
edits_counted threshold zero tool_name input path s h m l =
    let run = first_run path s l in
    let (advice, locus, length, events) =
      note_edit_counts threshold path s h (omega (arith, run)) in
    let q : 1 / threshold ≡ (if 1 % threshold == 0 then 0 / threshold + 1 else 0 / threshold) =
      div-suc 0 threshold h in
    subst (IsEdit threshold 1 path s.fixation_events)
      (sym (fixation_check-note_edit threshold tool_name input path s h m))
      (
        subst (λ k. (note_edit threshold path s).0 ≡ (if k % threshold == 0 then some k else none))
            run advice,
        locus,
        cc (length, run),
        ground (arith, events, run, q, zero-div threshold),
      )
edits_counted threshold (suc n) tool_name input path s h m l =
    let s' = edits threshold tool_name input (suc n) s in
    let (given, locus, length, events) = edits_counted threshold n tool_name input path s h m l in
    let run : next_run path s' ≡ suc (suc n) = later_run path s' locus ∙ omega (arith, length) in
    let (advice, locus', length', events') =
      note_edit_counts threshold path s' h (omega (arith, run)) in
    subst (IsEdit threshold (suc (suc n)) path s.fixation_events)
      (sym (fixation_check-note_edit threshold tool_name input path s' h m))
      (
        subst (λ k. (note_edit threshold path s').0 ≡ (if k % threshold == 0 then some k else none))
            run advice,
        locus',
        cc (length', run),
        ground (arith, events, events', run, div-suc (suc n) threshold h),
      )
