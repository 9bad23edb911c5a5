-- ===== src/Tracker/Scoped.antt =====
-- `ScopedTracker` (src/mcm_engine/tracker.py): one tracker for each client session, made when the
-- session's first call comes in, and one that is shared where there is no session. A session object is
-- a key of any type with equality. A call runs an operation on the current session's tracker and the
-- object that it changed stays in the table.
use mcm_engine.Base.{
  ℕ, ◌≡◌, refl, ap, ◌≢◌, Option, none, some, List, [], ◌∷◌, ◌++◌, map, arith, Equality, or_else,
  same_refl, Option-cases, inl, inr, ◌∙◌,
}
use mathlib.Core.Option
use mathlib.Core.List.{append-nil, append_assoc}
use mcm_engine.Base.Dict.{Dict, get, put, get-put}
use mcm_engine.Tracker.State.{NudgeConfig, SessionTracker, new_tracker}
use mcm_engine.Tracker.Nudges.{Plugin}

-- A `SessionTracker` object, with the plugin functions that are registered with it.
pub record Session : Type 0 where
  pub tracker : SessionTracker
  pub plugin_nudge_fns : List Plugin

unfoldable pub register : Plugin → Session → Session
register fn s = record s { plugin_nudge_fns = s.plugin_nudge_fns ++ fn ∷ [] }

pub record ScopedTracker (K : Type 0) : Type 0 where
  pub config : NudgeConfig
  pub trackers : Dict K Session
  pub default_tracker : Option Session
  pub plugin_nudge_fns : List Plugin

-- The loop of `_new_tracker`: the functions are registered with the new tracker one by one.
unfoldable pub replay : List Plugin → Session → Session
unfolding register
replay [] s = s
replay (fn ∷ fns) s = replay fns (register fn s)

plugins-replay :
    (fns : List Plugin) (s : Session) → (replay fns s).plugin_nudge_fns ≡ s.plugin_nudge_fns ++ fns
unfolding replay
plugins-replay [] s = rw append-nil
plugins-replay (fn ∷ fns) s =
    plugins-replay fns (register fn s) ∙ append_assoc s.plugin_nudge_fns (fn ∷ []) fns

tracker-replay : (fns : List Plugin) (s : Session) → (replay fns s).tracker ≡ s.tracker
unfolding replay register
tracker-replay [] s = refl
tracker-replay (fn ∷ fns) s = tracker-replay fns (register fn s)

replay_is :
    (fns : List Plugin) (s : Session)
    → replay fns s ≡ record s { plugin_nudge_fns = s.plugin_nudge_fns ++ fns }
replay_is fns s =
    λ i. record { tracker = tracker-replay fns s i; plugin_nudge_fns = plugins-replay fns s i }

module _ {K : Type 0} where
  -- `_new_tracker`
  unfoldable pub fresh : ScopedTracker K → ℕ → Session
  unfolding replay
  fresh scoped now =
      replay scoped.plugin_nudge_fns
        (record { tracker = new_tracker scoped.config now; plugin_nudge_fns = [] })

module _ {K : Type 0} where
  -- A new tracker has all the functions.
  fresh_is :
      (scoped : ScopedTracker K) (now : ℕ)
      → fresh scoped now ≡ record {
        tracker = new_tracker scoped.config now;
        plugin_nudge_fns = scoped.plugin_nudge_fns;
      }
  unfolding fresh
  fresh_is scoped now = replay_is scoped.plugin_nudge_fns _

module _ {K : Type 0} ⦃e : Equality K⦄ where
  -- `_current`: the session's tracker, made if it is not there
  unfoldable pub current : Option K → ℕ → ScopedTracker K → Session
  current none now scoped = or_else scoped.default_tracker (fresh scoped now)
  current (some key) now scoped = or_else (get scoped.trackers key) (fresh scoped now)

  unfoldable pub store_session : Option K → Session → ScopedTracker K → ScopedTracker K
  store_session none session scoped = record scoped { default_tracker = some session }
  store_session (some key) session scoped = record scoped {
    trackers = put scoped.trackers key session;
  }

  -- A delegated method.
  unfoldable pub delegate {ℓ} :
      {A : Type ℓ}
      → Option K
      → ℕ
      → (Session → A × SessionTracker)
      → ScopedTracker K
      → A × ScopedTracker K
  unfolding current store_session
  delegate key now op scoped =
      let session = current key now scoped in
      let (result, tracker) = op session in
      (result, store_session key (record session { tracker = tracker }) scoped)

  unfoldable pub register_plugin_nudge : Plugin → ScopedTracker K → ScopedTracker K
  register_plugin_nudge fn scoped = record scoped {
    plugin_nudge_fns = scoped.plugin_nudge_fns ++ fn ∷ [];
    trackers = map (λ entry. (entry.0, register fn (entry.1))) scoped.trackers;
    default_tracker = elim scoped.default_tracker [ none ↦ none | some s ↦ some (register fn s) ];
  }

  -- What the table holds for a session, or for the calls outside all sessions.
  unfoldable pub session_of : Option K → ScopedTracker K → Option Session
  session_of none scoped = scoped.default_tracker
  session_of (some key) scoped = get scoped.trackers key

  -- A call in one session, or outside all of them, runs on that session's own tracker, or on a new one
  -- with the configuration and all the functions where it has none: the result is the operation's there,
  -- and the tracker that it leaves is kept. The tracker of any other session, the shared one included,
  -- is exactly as it was.
  pub delegate_isolates {ℓ} :
      {A : Type ℓ} (key other : Option K) (now : ℕ) (op : Session → A × SessionTracker)
      (scoped : ScopedTracker K)
      → key ≢ other
      → let own : Session = or_else (session_of key scoped) (record {
        tracker = new_tracker scoped.config now;
        plugin_nudge_fns = scoped.plugin_nudge_fns;
      }) in
        ((delegate key now op scoped).0 ≡ (op own).0)
        × (session_of key (delegate key now op scoped).1
            ≡ some (record own { tracker = (op own).1 }))
        × (session_of other (delegate key now op scoped).1 ≡ session_of other scoped)
  unfolding delegate session_of current
  delegate_isolates none none now op scoped h = absurd (h refl)
  delegate_isolates none (some j) now op scoped h = rw (fresh_is scoped now) (refl, refl, refl)
  delegate_isolates (some k) none now op scoped h =
      rw (fresh_is scoped now) (refl, simp (get-put, same_refl k), refl)
  delegate_isolates (some k) (some j) now op scoped h = rw (fresh_is scoped now) (
    refl,
    simp (get-put, same_refl k),
    rw get-put (ground (arith, e.same_iff k j, λ (p : k ≡ j). h (ap some p))),
  )

  -- Every session has all the functions that were registered, in their order.
  pub record HasPlugins (scoped : ScopedTracker K) : Type 0 where
    pub sessions :
        (key : K) (s : Session)
        → get scoped.trackers key ≡ some s
        → s.plugin_nudge_fns ≡ scoped.plugin_nudge_fns
    pub shared :
        (s : Session)
        → scoped.default_tracker ≡ some s
        → s.plugin_nudge_fns ≡ scoped.plugin_nudge_fns

  plugins-fresh :
      (scoped : ScopedTracker K) (now : ℕ)
      → (fresh scoped now).plugin_nudge_fns ≡ scoped.plugin_nudge_fns
  unfolding fresh
  plugins-fresh scoped now = plugins-replay scoped.plugin_nudge_fns _

  plugins-current :
      (key : Option K) (now : ℕ) (scoped : ScopedTracker K)
      → HasPlugins scoped
      → (current key now scoped).plugin_nudge_fns ≡ scoped.plugin_nudge_fns
  unfolding current
  plugins-current none now scoped h = elim (Option-cases scoped.default_tracker) [
    | inl p ↦ ground (arith, plugins-fresh scoped now)
    | inr (s, p) ↦ ground (arith, h.shared s p)
  ]
  plugins-current (some k) now scoped h = elim (Option-cases (get scoped.trackers k)) [
    | inl p ↦ ground (arith, plugins-fresh scoped now)
    | inr (s, p) ↦ ground (arith, h.sessions k s p)
  ]

  get-register :
      (fn : Plugin) (d : Dict K Session) (k : K)
      → get (map (λ entry. (entry.0, register fn (entry.1))) d) k
        ≡ Option.map (register fn) (get d k)
  unfolding get
  get-register fn [] k = refl
  get-register fn ((j, s) ∷ d) k = ground (arith, get-register fn d k)

  -- A call keeps this: a tracker that it has to make is given all of them.
  pub delegate-HasPlugins {ℓ} :
      {A : Type ℓ} (key : Option K) (now : ℕ) (op : Session → A × SessionTracker)
      (scoped : ScopedTracker K)
      → HasPlugins scoped
      → HasPlugins (delegate key now op scoped).1
  unfolding delegate
  delegate-HasPlugins none now op scoped h = record {
    sessions = h.sessions;
    shared = λ s p. ground (arith, plugins-current none now scoped h);
  }
  delegate-HasPlugins (some k) now op scoped h = record {
    sessions = λ j s p. ground (
      arith,
      plugins-current (some k) now scoped h,
      h.sessions j s,
      get-put scoped.trackers k j
          (record (current (some k) now scoped) { tracker = (op (current (some k) now scoped)).1 }),
    );
    shared = h.shared;
  }

  -- Registering a function reaches the trackers that are there, and those made later.
  pub register_plugin_nudge-HasPlugins :
      (fn : Plugin) (scoped : ScopedTracker K)
      → HasPlugins scoped
      → HasPlugins (register_plugin_nudge fn scoped)
  unfolding register_plugin_nudge register
  register_plugin_nudge-HasPlugins fn scoped h = record {
    sessions = λ k s p. elim (Option-cases (get scoped.trackers k)) [
      | inl q ↦ ground (arith, get-register fn scoped.trackers k)
      | inr (t, q) ↦ ground (arith, get-register fn scoped.trackers k, h.sessions k t q)
    ];
    shared = λ s p. elim (Option-cases scoped.default_tracker) [
      | inl q ↦ ground arith
      | inr (t, q) ↦ ground (arith, h.shared t q)
    ];
  }
