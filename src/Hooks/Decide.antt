-- ===== src/Hooks/Decide.antt =====
-- `_decide` of src/mcm_engine/hooks/mcp_enforcement.py: what the hook says at one tool call.
use mcm_engine.Base.{
  ℕ, ◌+◌, ◌-◌, ◌%◌, ◌≤◌, ◌≡◌, refl, String, Bool, true, false, not, ◌&&◌, none, some, arith, ◌==◌,
  nat_eq, if◌then◌else◌, ltb, leb, Bool-cases, Option-cases, inl, inr,
}
use mcm_engine.Hooks.State.{SessionState, new_state}
use mcm_engine.Hooks.Classify.{is_compliance_mcp_tool, normalize_builtin_tool, is_mutator}

abbrev pub warn_threshold : ℕ
warn_threshold = 8

abbrev pub block_threshold : ℕ
block_threshold = 20

-- The message, with the numbers that its text shows.
pub data Notice : Type 0 where
  silent : Notice
  gap : ℕ → Notice
  gap_again : ℕ → Notice
  stop : ℕ → ℕ → Notice
  reminder : ℕ → Notice

pub record Decision : Type 0 where
  pub exit_code : ℕ
  pub notice : Notice
  pub state : SessionState

-- A look-first read.
unfoldable pub reset_streak : ℕ → SessionState → SessionState
reset_streak now s = record s {
  builtin_calls = 0;
  mutator_calls = 0;
  fixation_locus = none;
  fixation_run = 0;
  warn_emitted = false;
  gap_emitted = false;
  last_reset_at = now;
}

unfoldable pub count_builtin : Bool → SessionState → SessionState
count_builtin mutator s = record s {
  builtin_calls = s.builtin_calls + 1;
  mutator_calls = if mutator then s.mutator_calls + 1 else s.mutator_calls;
}

-- The branch at the consultation gap.
unfoldable pub at_gap : SessionState → Decision
at_gap s =
    if s.gap_emitted
    then record { exit_code = 0; notice = gap_again s.mutator_calls; state = s }
    else record {
      exit_code = 0;
      notice = gap s.mutator_calls;
      state = record s { gap_emitted = true };
    }

-- The branch past the warning threshold.
unfoldable pub at_warn : SessionState → Decision
at_warn s =
    let since_cross = s.builtin_calls - warn_threshold in
    if not s.warn_emitted
    then record {
      exit_code = 0;
      notice = stop s.builtin_calls s.mutator_calls;
      state = record s { warn_emitted = true };
    }
    else if ltb 0 since_cross && since_cross % warn_threshold == 0
    then record { exit_code = 0; notice = reminder s.builtin_calls; state = s }
    else record { exit_code = 0; notice = silent; state = s }

unfoldable pub decide_counted : Bool → SessionState → Decision
unfolding at_gap at_warn
decide_counted mutator s =
    if mutator && leb block_threshold s.mutator_calls
    then at_gap s
    else if leb warn_threshold s.builtin_calls
    then at_warn s
    else record { exit_code = 0; notice = silent; state = s }

unfoldable pub decide : String → ℕ → SessionState → Decision
unfolding reset_streak count_builtin
decide tool_name now s =
    let normalized = normalize_builtin_tool tool_name in
    if is_compliance_mcp_tool tool_name
    then record { exit_code = 0; notice = silent; state = reset_streak now s }
    else elim normalized [
      | none ↦ record { exit_code = 0; notice = silent; state = s }
      | some name ↦
          let mutator = is_mutator (some name) in decide_counted mutator (count_builtin mutator s)
    ]

-- The two flags say of the counters that the threshold was crossed, and edits are built-in calls.
pub record IsStreak (s : SessionState) : Type 0 where
  pub edits : s.mutator_calls ≤ s.builtin_calls
  pub warned : s.warn_emitted ≡ leb warn_threshold s.builtin_calls
  pub gapped : s.gap_emitted ≡ leb block_threshold s.mutator_calls

pub IsStreak-new_state : (now : ℕ) → IsStreak (new_state now)
IsStreak-new_state now = record { edits = omega arith; warned = refl; gapped = refl }

-- What is said at the call that brings the counters to `total` and `mutators`, with no flag.
unfoldable pub notice_at : Bool → ℕ → ℕ → Notice
notice_at mutator total mutators =
    if mutator && mutators == block_threshold
    then gap mutators
    else if mutator && ltb block_threshold mutators
    then gap_again mutators
    else if total == warn_threshold
    then stop total mutators
    else if ltb warn_threshold total && total % warn_threshold == 0
    then reminder total
    else silent

-- One counted call, at its counters.
counted_once :
    (mutator : Bool) (s : SessionState)
    → IsStreak s
    → IsStreak (decide_counted mutator (count_builtin mutator s)).state
      × ((decide_counted mutator (count_builtin mutator s)).exit_code ≡ 0)
      × ((decide_counted mutator (count_builtin mutator s)).notice
          ≡ notice_at mutator
              (s.builtin_calls + 1)
              (if mutator then s.mutator_calls + 1 else s.mutator_calls))
unfolding decide_counted count_builtin notice_at
counted_once true s h = (
  record { edits = ground arith; warned = ground arith; gapped = ground arith },
  ground arith,
  ground arith,
)
counted_once false s h = (
  record { edits = ground arith; warned = ground arith; gapped = ground arith },
  ground arith,
  ground arith,
)

-- What a call by the name is expected to say.
unfoldable pub expected : String → SessionState → Notice
expected tool_name s =
    if is_compliance_mcp_tool tool_name then silent else elim (normalize_builtin_tool tool_name) [
      | none ↦ silent
      | some name ↦
          let mutator = is_mutator (some name) in
          notice_at mutator (s.builtin_calls + 1)
            (if mutator then s.mutator_calls + 1 else s.mutator_calls)
    ]

-- Every call keeps the flags in step with the counters, where they are.
pub decide-IsStreak :
    (tool_name : String) (now : ℕ) (s : SessionState)
    → IsStreak s
    → IsStreak (decide tool_name now s).state
unfolding decide
decide-IsStreak tool_name now s h = elim (Bool-cases (is_compliance_mcp_tool tool_name)) [
  | inl c ↦ rw c (record { edits = omega arith; warned = refl; gapped = refl })
  | inr c ↦ rw c (elim (Option-cases (normalize_builtin_tool tool_name)) [
    | inl n ↦ rw n h
    | inr (name, n) ↦ rw n (counted_once (is_mutator (some name)) s h).0
  ])
]

-- In a state whose flags are in step with its counters, the full directive is given once, at the call
-- that crosses the threshold of calls, with a short reminder at each further multiple of it, unless that
-- call is an edit at or past the threshold of edits; the full consultation gap is given once, at the
-- edit that crosses the threshold of edits, with a short one at each later edit. Nothing else is said,
-- a read of the knowledge base and a tool that is not counted say nothing, and no call is ever denied.
pub decide_once :
    (tool_name : String) (now : ℕ) (s : SessionState)
    → IsStreak s
    → ((decide tool_name now s).exit_code ≡ 0)
      × ((decide tool_name now s).notice ≡ expected tool_name s)
unfolding decide expected
decide_once tool_name now s h = elim (Bool-cases (is_compliance_mcp_tool tool_name)) [
  | inl c ↦ rw c (refl, refl)
  | inr c ↦ rw c (elim (Option-cases (normalize_builtin_tool tool_name)) [
    | inl n ↦ rw n (refl, refl)
    | inr (name, n) ↦
        let (v, code, said) = counted_once (is_mutator (some name)) s h in rw n (code, said)
  ])
]
