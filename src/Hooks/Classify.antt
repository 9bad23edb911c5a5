-- ===== src/Hooks/Classify.antt =====
-- Which tools the hook counts and which ones reset it: the classification in
-- src/mcm_engine/hooks/mcp_enforcement.py. A tool name has no line break.
use Prim.Native.String.{◌++◌}
use mcm_engine.Base.{
  String, Bool, true, false, ◌||◌, Option, none, some, List, [], ◌∷◌, ◌==◌, string_eq,
  if◌then◌else◌, contains, any, lower, strip_prefix, ends_with, ◌≡◌, refl,
}

abbrev pub counted_builtin_tools : List String
counted_builtin_tools = "edit" ∷ "write" ∷ "notebookedit" ∷ "bash" ∷ "apply_patch" ∷ []

abbrev pub blocking_builtin_tools : List String
blocking_builtin_tools = "edit" ∷ "write" ∷ "notebookedit" ∷ "apply_patch" ∷ []

abbrev pub compliance_tool_names : List String
compliance_tool_names =
    "search" ∷ "report_error" ∷ "sync_rules" ∷ "session_start" ∷ "get_resume_context" ∷ "read_rule"
    ∷ []

-- The group behind the lazy server name in `^mcp__(.+?)__(.+)$`: the server name has a character at
-- least and ends at the first `__` that something follows.
after_server : String → Option String
after_server String.[] = none
after_server (String.◌∷◌ c s) =
    let later = after_server s in
    elim (strip_prefix "__" s) [
      | none ↦ later
      | some tool ↦ if tool == "" then later else some tool
    ]

unfoldable pub mcp_suffix : String → Option String
unfolding after_server
mcp_suffix tool_name = elim (strip_prefix "mcp__" tool_name) [
  | none ↦ none
  | some rest ↦ after_server rest
]

unfoldable pub is_compliance_mcp_tool : String → Bool
is_compliance_mcp_tool tool_name =
    elim (mcp_suffix tool_name) [
      | none ↦ false
      | some suffix ↦ contains compliance_tool_names suffix
    ]
    || any (λ name. tool_name == name || ends_with tool_name ("_" ++ name)) compliance_tool_names

unfoldable pub normalize_builtin_tool : String → Option String
normalize_builtin_tool tool_name =
    if contains counted_builtin_tools (lower tool_name) then some (lower tool_name) else none

-- `normalized in BLOCKING_BUILTIN_TOOLS`
unfoldable pub is_mutator : Option String → Bool
is_mutator none = false
is_mutator (some normalized) = contains blocking_builtin_tools normalized

-- `_agent_key`; `""` where the event names no agent.
unfoldable pub agent_key : String → String → String
agent_key session_id agent_id =
    if agent_id == "" then session_id else session_id ++ (":" ++ agent_id)

classified :
    (is_compliance_mcp_tool "mcp__kb__team__search" ≡ true)
    × (is_compliance_mcp_tool "kb_read_rule" ≡ true)
    × (is_compliance_mcp_tool "mcp__kb__add_rule" ≡ false)
    × (normalize_builtin_tool "NotebookEdit" ≡ some "notebookedit")
    × (normalize_builtin_tool "Read" ≡ none)
unfolding is_compliance_mcp_tool mcp_suffix strip_prefix ends_with contains normalize_builtin_tool
    lower
classified = (refl, refl, refl, refl, refl)
