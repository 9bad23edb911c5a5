-- ===== src/Tracker/Ignored.antt =====
-- How one call of `record_call` (src/mcm_engine/tracker.py) changes the pending nudges and the counts
-- of ignored nudges, read at one nudge.
use mcm_engine.Base.{
  ℕ, ◌+◌, ◌≤◌, ◌≡◌, ◌≢◌, refl, String, true, false, not, none, some, List, [], ◌∷◌, arith,
  if◌then◌else◌, or_else, contains, contains-filter, leb, string_eq,
}
use mcm_engine.Base.Dict.{
  Dict, get, put, remove, has, get-put, get-remove, Distinct, put-Distinct, remove-Distinct,
}
use mcm_engine.Tracker.State.{NudgeConfig, NudgeType, nudge_eq}
use mcm_engine.Tracker.Calls.{
  returned, escalated, resolving_tools, is_advisory, resolved_by, still_pending, clear_ignored,
  accrue_ignored, escalation,
}

pub contains-resolved_by :
    (tool : String) (pending : List NudgeType) (n : NudgeType)
    → contains (resolved_by tool pending) n
      ≡ (if contains (resolving_tools n) tool then contains pending n else false)
unfolding resolved_by
contains-resolved_by tool pending n =
    contains-filter (λ m. contains (resolving_tools m) tool) pending n

pub contains-still_pending :
    (resolved pending : List NudgeType) (n : NudgeType)
    → contains (still_pending resolved pending) n
      ≡ (if contains resolved n then false else contains pending n)
unfolding still_pending
contains-still_pending resolved pending n =
    ground (arith, contains-filter (λ m. not (contains resolved m)) pending n)

pub get-clear_ignored :
    (resolved : List NudgeType) (counts : Dict NudgeType ℕ) (n : NudgeType)
    → get (clear_ignored resolved counts) n ≡ (if contains resolved n then none else get counts n)
unfolding clear_ignored contains
get-clear_ignored [] counts n = refl
get-clear_ignored (m ∷ ms) counts n =
    ground (arith, get-clear_ignored ms (remove counts m) n, get-remove counts m n)

-- The count of a nudge that is left goes up.
pub get-accrue_ignored :
    (ns : List NudgeType) (counts : Dict NudgeType ℕ) (n : NudgeType)
    → or_else (get counts n) 0 + (if contains ns n then 1 else 0)
      ≤ or_else (get (accrue_ignored ns counts) n) 0
unfolding accrue_ignored contains
get-accrue_ignored [] counts n = omega arith
get-accrue_ignored (m ∷ ms) counts n = ground (
  arith,
  get-accrue_ignored ms (put counts m (or_else (get counts m) 0 + 1)) n,
  get-put counts m n (or_else (get counts m) 0 + 1),
  nudge_eq.same_iff m n,
)

-- A nudge that is counted afterwards was counted before or is among those left.
pub has-accrue_ignored :
    (ns : List NudgeType) (counts : Dict NudgeType ℕ) (n : NudgeType)
    → has (accrue_ignored ns counts) n ≡ (if contains ns n then true else has counts n)
unfolding accrue_ignored contains
has-accrue_ignored [] counts n = refl
has-accrue_ignored (m ∷ ms) counts n = ground (
  arith,
  has-accrue_ignored ms (put counts m (or_else (get counts m) 0 + 1)) n,
  get-put counts m n (or_else (get counts m) 0 + 1),
)

-- The loop over the counts raises if a count that is not advisory has reached the threshold.
pub escalation_fires :
    (config : NudgeConfig) (counts : Dict NudgeType ℕ) (n : NudgeType)
    → is_advisory config n ≡ false
    → leb config.nudge_escalation_threshold (or_else (get counts n) 0) ≡ true
    → has counts n ≡ true
    → escalation config counts ≢ returned
unfolding escalation get
escalation_fires config [] n a b h = cc
escalation_fires config ((m, k) ∷ counts) n a b h =
    ground (arith, escalation_fires config counts n, nudge_eq.same_iff m n)

-- What it raises for is a counted nudge, not advisory, at or past the threshold.
pub escalation_sound :
    (config : NudgeConfig) (counts : Dict NudgeType ℕ) (n : NudgeType) (k : ℕ) (ts : List String)
    → escalation config counts ≡ escalated n k ts
    → (is_advisory config n ≡ false)
      × (config.nudge_escalation_threshold ≤ k)
      × (ts ≡ resolving_tools n)
      × (has counts n ≡ true)
unfolding escalation get
escalation_sound config [] n k ts h = cc
escalation_sound config ((m, c) ∷ counts) n k ts h =
    ground (arith, escalation_sound config counts n k ts, nudge_eq.same_iff m n)

-- Each nudge is counted once, as in every dictionary.
pub clear_ignored-Distinct :
    (ns : List NudgeType) (counts : Dict NudgeType ℕ)
    → Distinct counts
    → Distinct (clear_ignored ns counts)
unfolding clear_ignored
clear_ignored-Distinct [] counts h = h
clear_ignored-Distinct (n ∷ ns) counts h =
    clear_ignored-Distinct ns (remove counts n) (remove-Distinct counts n h)

pub accrue_ignored-Distinct :
    (ns : List NudgeType) (counts : Dict NudgeType ℕ)
    → Distinct counts
    → Distinct (accrue_ignored ns counts)
unfolding accrue_ignored
accrue_ignored-Distinct [] counts h = h
accrue_ignored-Distinct (n ∷ ns) counts h =
    accrue_ignored-Distinct ns (put counts n (or_else (get counts n) 0 + 1))
      (put-Distinct counts n (or_else (get counts n) 0 + 1) h)

-- The count that is raised for is the nudge's own.
pub escalation_own :
    (config : NudgeConfig) (counts : Dict NudgeType ℕ) (n : NudgeType) (k : ℕ) (ts : List String)
    → Distinct counts
    → escalation config counts ≡ escalated n k ts
    → get counts n ≡ some k
unfolding escalation get
escalation_own config [] n k ts d h = cc
escalation_own config ((m, c) ∷ counts) n k ts (a, d) h =
    ground (arith, a, escalation_own config counts n k ts d, nudge_eq.same_iff m n)
