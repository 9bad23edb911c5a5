-- ===== src/Hooks/Coverage.antt =====
-- src/mcm_engine/hooks/coverage.py: the hook's own ledger of what was looked up, under one agent's
-- entry. Times are seconds; where the clock has gone back, the age of an entry is taken as 0, as the
-- source's negative age passes every test that 0 passes.
use mcm_engine.Base.{
  ℕ, ◌-◌, ◌≤◌, ◌<◌, ◌≡◌, refl, String, Bool, true, false, not, ◌&&◌, none, some, [], ◌∷◌, arith,
  ◌==◌, nat_eq, string_eq, if◌then◌else◌, ltb, leb, lower, strip, same_refl,
}
use mcm_engine.Base.Dict.{Dict, get, put, get-put, Distinct}
use mcm_engine.Hooks.State.{SessionState}

-- `_key`
unfoldable pub coverage_key : String → String
unfolding lower strip
coverage_key topic = strip (lower topic)

abbrev pub coverage_ttl_seconds : ℕ
coverage_ttl_seconds = 86400

unfoldable pub record_topic : String → ℕ → SessionState → SessionState
record_topic topic now s =
    if coverage_key topic == ""
    then s
    else record s { covered_topics = put s.covered_topics (coverage_key topic) now }

unfoldable pub note_compaction : ℕ → SessionState → SessionState
note_compaction now s = record s { last_compaction_at = now }

-- The two tests that an entry of the ledger has to pass.
unfoldable pub is_live : ℕ → ℕ → Bool → ℕ → ℕ → Bool
is_live now ttl require_resident boundary seen =
    if ltb ttl (now - seen)
    then false
    else if require_resident && not (boundary == 0) && leb seen boundary
    then false
    else true

unfoldable pub is_covered : String → ℕ → ℕ → Bool → SessionState → Bool
unfolding is_live
is_covered topic now ttl require_resident s = elim (get s.covered_topics (coverage_key topic)) [
  | none ↦ false
  | some seen ↦ is_live now ttl require_resident s.last_compaction_at seen
]

unfoldable pub drop_stale : ℕ → ℕ → Dict String ℕ → Dict String ℕ
drop_stale now ttl [] = []
drop_stale now ttl ((key, seen) ∷ topics) =
    let rest = drop_stale now ttl topics in
    if ltb ttl (now - seen) then rest else (key, seen) ∷ rest

unfoldable pub prune_topics : ℕ → ℕ → SessionState → SessionState
unfolding drop_stale
prune_topics now ttl s = record s { covered_topics = drop_stale now ttl s.covered_topics }

-- A topic that is looked up is covered, for as long as the lookup is not stale and no compaction was
-- noted at or after it; every other topic is answered as before.
pub is_covered-record_topic :
    (topic other : String) (at now ttl : ℕ) (require_resident : Bool) (s : SessionState)
    → is_covered other now ttl require_resident (record_topic topic at s) ≡ (
        if not (coverage_key topic == "") && coverage_key topic == coverage_key other
        then is_live now ttl require_resident s.last_compaction_at at
        else is_covered other now ttl require_resident s)
unfolding is_covered record_topic
is_covered-record_topic topic other at now ttl require_resident s =
    ground (arith, get-put s.covered_topics (coverage_key topic) (coverage_key other) at)

-- A topic that is not blank, looked up at or before a compaction that was noted at a positive time, is
-- not resident after it, until it is looked up again, and then it is, while the lookup is not stale.
pub compaction_evicts :
    (topic : String) (at boundary again now ttl : ℕ) (s : SessionState)
    → (coverage_key topic == "") ≡ false
    → 0 < boundary
    → at ≤ boundary
    → boundary < again
    → now - again ≤ ttl
    → (is_covered topic now ttl true (note_compaction boundary (record_topic topic at s)) ≡ false)
      × (is_covered topic now ttl true
            (record_topic topic again (note_compaction boundary (record_topic topic at s)))
          ≡ true)
unfolding is_covered record_topic note_compaction
compaction_evicts topic at boundary again now ttl s k a b c d =
    let key = coverage_key topic in
    (
      rw k (ground (arith, get-put s.covered_topics key key at, same_refl key)),
      rw k (ground (arith, get-put (put s.covered_topics key at) key key again, same_refl key)),
    )

get-drop_stale :
    (now ttl : ℕ) (d : Dict String ℕ) (key : String)
    → Distinct d
    → get (drop_stale now ttl d) key ≡ elim (get d key) [
      | none ↦ none
      | some seen ↦ if ltb ttl (now - seen) then none else some seen
    ]
unfolding get drop_stale
get-drop_stale now ttl [] key h = refl
get-drop_stale now ttl ((j, seen) ∷ d) key (a, h) =
    ground (arith, get-drop_stale now ttl d key h, string_eq.same_iff j key)

-- Dropping the stale topics of a ledger that has no topic twice changes no answer, neither now nor
-- later.
pub is_covered-prune_topics :
    (topic : String) (now later ttl : ℕ) (require_resident : Bool) (s : SessionState)
    → Distinct s.covered_topics
    → now ≤ later
    → is_covered topic later ttl require_resident (prune_topics now ttl s)
      ≡ is_covered topic later ttl require_resident s
unfolding is_covered prune_topics
is_covered-prune_topics topic now later ttl require_resident s d h =
    ground (arith, get-drop_stale now ttl s.covered_topics (coverage_key topic) d)
