-- ===== src/Watcher/Fired.antt =====
-- The debounced events of src/mcm_engine/files/watcher.py: the last one of a path counts, and what its
-- timer leaves.
use mcm_engine.Base.{
  ◌≡◌, refl, ap, ◌∙◌, String, Bool, true, Option, none, some, List, [], ◌∷◌, ◌==◌, string_eq,
  nat_eq, if◌then◌else◌, Bool-cases, inl, inr, arith, map_option, or_else,
}
use mcm_engine.Base.Dict.{Dict, get, remove, get-put, get-remove}
use mcm_engine.Entries.Rows.{RuleRow}
use mcm_engine.Rules.Query.{find_rule_by_file_path}
use mcm_engine.Watcher.Cascade.{Parsed, State}
use mcm_engine.Watcher.Schedule.{
  Op, upsert, delete, Event, created, modified, deleted, moved, schedule, schedule_rule, on_event,
  on_events,
}
use mcm_engine.Watcher.Settled.{Settled}

-- What an event asks for a path: the target of a move comes after its source.
unfoldable pub asked : Event → String → Option Op
asked (created other) path = if other == path then some upsert else none
asked (modified other) path = if other == path then some upsert else none
asked (deleted other) path = if other == path then some delete else none
asked (moved other dest) path =
    if dest == path then some upsert else if other == path then some delete else none

-- The last request for the path.
unfoldable pub last_asked : List Event → String → Option Op
unfolding asked
last_asked [] path = none
last_asked (event ∷ events) path =
    let later = last_asked events path in elim later [ none ↦ asked event path | some op ↦ some op ]

get-schedule :
    (path other : String) (op : Op) (timers : Dict String Op)
    → get (schedule path op timers) other ≡ (if path == other then some op else get timers other)
unfolding schedule
get-schedule path other op timers =
    get-put (remove timers path) path other op ∙ ground (arith, get-remove timers path other)

get-schedule_rule :
    (is_rule : String → Bool) (path other : String) (op : Op) (timers : Dict String Op)
    → is_rule other ≡ true
    → get (schedule_rule is_rule path op timers) other
      ≡ (if path == other then some op else get timers other)
unfolding schedule_rule
get-schedule_rule is_rule path other op timers h = elim (Bool-cases (is_rule path)) [
  | inl c ↦ rw c (get-schedule path other op timers)
  | inr c ↦ rw c (elim (Bool-cases (path == other)) [
    | inl q ↦ absurd (cc (c, h, ap is_rule ((string_eq.same_iff path other).0 q)))
    | inr q ↦ rw q refl
  ])
]

choose : Option Op → Option Op → Option Op
choose none before = before
choose (some op) before = some op

get-on_event :
    (is_rule : String → Bool) (event : Event) (path : String) (timers : Dict String Op)
    → is_rule path ≡ true
    → get (on_event is_rule event timers) path ≡ choose (asked event path) (get timers path)
unfolding on_event asked choose
get-on_event is_rule (created other) path timers h =
    get-schedule_rule is_rule other path upsert timers h ∙ ground arith
get-on_event is_rule (modified other) path timers h =
    get-schedule_rule is_rule other path upsert timers h ∙ ground arith
get-on_event is_rule (deleted other) path timers h =
    get-schedule_rule is_rule other path delete timers h ∙ ground arith
get-on_event is_rule (moved other dest) path timers h =
    get-schedule_rule is_rule dest path upsert (schedule_rule is_rule other delete timers) h
    ∙ ground (arith, get-schedule_rule is_rule other path delete timers h)

-- After any events, the timer of a rule's path does what the last event of the path asks for, and
-- without one what it did before.
pub on_events_last :
    (is_rule : String → Bool) (events : List Event) (path : String) (timers : Dict String Op)
    → is_rule path ≡ true
    → get (on_events is_rule events timers) path
      ≡ (elim (last_asked events path) [ none ↦ get timers path | some op ↦ some op ])
unfolding on_events last_asked choose
on_events_last is_rule [] path timers h = refl
on_events_last is_rule (event ∷ events) path timers h =
    on_events_last is_rule events path (on_event is_rule event timers) h
    ∙ ground (arith, get-on_event is_rule event path timers h)

-- The rules agree with the file, or with its absence, after a deletion's timer.
abbrev pub AgreesWith : String → Option (Option Parsed) → State → State → Type 0
AgreesWith path none s t =
    or_else (map_option (λ (row : RuleRow). row.archived) (find_rule_by_file_path path t.store))
      true
    ≡ true
AgreesWith path (some none) s t = t ≡ s
AgreesWith path (some (some parsed)) s t = Settled path parsed t.store.rules
