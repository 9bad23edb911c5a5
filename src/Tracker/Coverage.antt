-- ===== src/Tracker/Coverage.antt =====
-- The retrieval ledger of a session: `record_coverage`, `reconcile_coverage` and `is_covered`
-- (src/mcm_engine/tracker.py). A topic stays covered over a compaction, and stops being resident.
use mcm_engine.Base.{
  ℕ, ◌≡◌, String, Bool, true, false, Option, none, some, List, [], ◌∷◌, map, arith, ◌==◌, string_eq,
  if◌then◌else◌,
}
use mcm_engine.Base.Dict.{Dict, get, put, get-put}
use mcm_engine.Tracker.State.{CoverageEntry, SessionTracker}
use mcm_engine.Tracker.Calls.{topic_key}

unfoldable pub record_coverage :
    String → String → List ℕ → Bool → ℕ → SessionTracker → SessionTracker
record_coverage topic query result_ids resident now s =
    let key = topic_key topic in
    if key == "" then s else record s {
      coverage = put s.coverage key (record {
        topic = key;
        query = query;
        result_ids = result_ids;
        searched_at = now;
        resident = resident;
      });
    }

unfoldable pub reconcile_coverage : Bool → SessionTracker → SessionTracker
reconcile_coverage resident s = record s {
  coverage = map (λ e. (e.0, record (e.1) { resident = resident })) s.coverage;
}

-- The answer that an entry gives.
unfoldable pub covers : Bool → Option CoverageEntry → Bool
covers require_resident none = false
covers require_resident (some entry) = if require_resident then entry.resident else true

unfoldable pub is_covered : String → Bool → SessionTracker → Bool
unfolding covers
is_covered topic require_resident s = covers require_resident (get s.coverage (topic_key topic))

-- A retrieval covers its own topic, in whatever case and spacing it is written, as resident as it was
-- recorded, and changes the answer for no other topic; an empty topic changes nothing.
pub is_covered-record_coverage :
    (topic query : String) (ids : List ℕ) (resident : Bool) (now : ℕ) (s : SessionTracker)
    (other : String) (require_resident : Bool)
    → is_covered other require_resident (record_coverage topic query ids resident now s) ≡ (
        if topic_key topic == ""
        then is_covered other require_resident s
        else if topic_key topic == topic_key other
        then (if require_resident then resident else true)
        else is_covered other require_resident s)
unfolding is_covered record_coverage
is_covered-record_coverage topic query ids resident now s other require_resident = ground (
  arith,
  get-put s.coverage (topic_key topic) (topic_key other) (record {
    topic = topic_key topic;
    query = query;
    result_ids = ids;
    searched_at = now;
    resident = resident;
  }),
)

get-reconcile :
    (resident : Bool) (d : Dict String CoverageEntry) (k : String) (require_resident : Bool)
    → covers require_resident (get (map (λ e. (e.0, record (e.1) { resident = resident })) d) k) ≡ (
        if require_resident
        then (if resident then covers false (get d k) else false)
        else covers false (get d k))
unfolding get covers
get-reconcile resident [] k require_resident = ground arith
get-reconcile resident ((j, entry) ∷ d) k require_resident =
    ground (arith, get-reconcile resident d k require_resident)

-- At a compaction boundary nothing stays resident, and every topic that was searched stays searched.
pub is_covered-reconcile_coverage :
    (topic : String) (require_resident : Bool) (s : SessionTracker)
    → is_covered topic require_resident (reconcile_coverage false s)
      ≡ (if require_resident then false else is_covered topic false s)
unfolding is_covered reconcile_coverage
is_covered-reconcile_coverage topic require_resident s =
    ground (arith, get-reconcile false s.coverage (topic_key topic) require_resident)
