-- ===== src/Lib.antt =====
-- mcm-engine, a knowledge server for coding agents: a model of its governance of tool calls, of
-- its rule store and of its search, with proofs. Paths are from the repository's root.
--
-- The parts. An agent calls the server's tools. Each call passes the session tracker
-- (src/mcm_engine/tracker.py), which counts it, asks for findings to be stored, and stops an agent
-- that ignores its nudges. Beside the server, a hook (src/mcm_engine/hooks/mcp_enforcement.py)
-- sees every call of the harness's own tools and reminds an agent that looks nothing up. The tools
-- work on a store (src/mcm_engine/adapters/sqlite/storage.py), which writes each row a second time
-- as a unified entry (src/mcm_engine/entries.py), in transactions of the connection
-- (src/mcm_engine/db.py). Rules also come in batches (`import_rules`), from an import that a model
-- has judged (src/mcm_engine/ingest), and from a directory that the watcher follows
-- (src/mcm_engine/files/watcher.py). Entries are linked to each other
-- (src/mcm_engine/tools/relations.py) and found by a search (src/mcm_engine/tools/search.py). Over
-- HTTP a client shows a token (src/mcm_engine/tokens.py).
--
-- - Base: shared helpers. Booleans and equality as an interface (Tests), lists (Lists), Python's
--   `str` (Text) and `dict` (Dict).
-- - Tracker: SessionTracker and ScopedTracker. State and configuration (State), `record_call` and
--   the resets (Calls), `get_nudge` (Nudges), coverage (Coverage), the facade with one tracker for
--   each client (Scoped); lemmas and theorems in Ignored, Triggers, Blocking and Escalation.
--   `record_call` gives its result, a return or a block, with the next state.
-- - Hooks: the hook's entry for one agent (State), which tools count (Classify), `_decide`
--   (Decide), the ledger of src/mcm_engine/hooks/coverage.py (Coverage) and the fixation breaker
--   (Fixation).
-- - Entries: the row types of src/mcm_engine/backends/__init__.py (Rows), the facets (Facets), and
--   the projections of src/mcm_engine/entries.py to the entry (Project) and back (Restore); how a
--   field comes back (Fields), and how a row does (RoundTrip).
-- - Rules: the tables (State), `mirror_entry` (Mirror), the operations on rules (Store, Metadata),
--   the tools `report_outcome`, `supersede_rule` and `unsupersede_rule` of
--   src/mcm_engine/tools/rules.py (Tools), and commands over them (Commands). The mirror is followed
--   through every operation in Sync, Columns, Pending and Preserve, the chains of superseded rules
--   in Chains, Supersession and Linked, both over whole histories in History, and the counters in
--   Reports. `list_rules` is in Listing, the queries by title and by path in Query, and the tool
--   `restore_rule` in Restore.
-- - Ingest: the verdicts of src/mcm_engine/ingest/adjudicate.py (Verdict) and `commit_verdicts`
--   over the connection to the rule store (Commit for one verdict, Batch for the loop with its
--   transactions); a transaction from a fresh connection in Connected, the second commit of a batch
--   in Idempotent.
-- - Database: the connection of src/mcm_engine/db.py (Connection) and code over it, with
--   `transaction` (Block); that a transaction is all or nothing in Atomic, and what it means in
--   Plain.
-- - Import: `import_rules` of src/mcm_engine/tools/rules.py, the batch (Batch) and the answer
--   (Respond); one item in Step, and the whole batch in Found.
-- - Watcher: the cascades of src/mcm_engine/files/watcher.py (Cascade), `sync_once` (Sync) with
--   the links of src/mcm_engine/rules_links.py (Links) and the guard of
--   src/mcm_engine/destructive.py, and the timers (Schedule). Settled, Upsert and Loop follow the
--   upserts, Reaped, Swept, Guard and Archived the sweep; Again and Safe are about the whole of
--   `sync_once`, Fired about the timers.
-- - Dedup: the union-find of src/mcm_engine/dedup.py (UnionFind), its roots (Roots), the clusters
--   that pairs of ids make (Spec), and that the unions make them (Merged). The loop of `find` runs
--   on fuel: one above the number of unions before it is enough, since a union lengthens a way to a
--   root by one.
-- - Auth: the tokens of src/mcm_engine/tokens.py (Tokens) and the middleware of
--   src/mcm_engine/transport.py that asks for one (Middleware); a revoked token in Revoked, a minted
--   one in Valid.
-- - Relations: the tools of src/mcm_engine/tools/relations.py over their table (Table, Tools). The
--   walk of `trace_chain` is in Trace: it runs on fuel, and 202 rounds are enough, as each round
--   takes an entry from the queue and at most 201 entries are ever seen. Step says what a step of
--   the graph is, Visit, Scan and Walked what holds at each round, Reached that the walk ends and
--   finds what it should, Undo that `unlink_knowledge` takes back a link.
-- - Search: the search of src/mcm_engine/tools/search.py with the policies of
--   src/mcm_engine/policies.py (Policy). Score has the scorers of the two read paths, with the terms
--   of src/mcm_engine/scoring.py, Block a block and the whole search. Kept and Agree compare the two
--   scorers and Paths the two searches, Ranking and Shown are about what a search shows. The
--   floating-point functions, the index and the counters are arguments.
-- - Counters: `increment` of src/mcm_engine/adapters/sqlite/counters.py on a row and its entry
--   (Increment), which stays the projection of the row (Mirrored).
--
-- How the code is taken. A method that changes an object is a function from its state to the next
-- one. An exception is a result or `none`; a transaction that raises leaves the store as it was.
-- Time is an argument, as are SHA-256 of a text, the digest of an entry (SHA-256 over its fields
-- as JSON), the ISO text of a moment, and what SQLite answers to a statement; a rollback succeeds.
-- A message stands for its text, with the data that the text shows. Every other recursion is
-- structural; the printing of a number runs on fuel one above it, which is at least the number of
-- its digits.
--
-- Not modelled: texts of messages, the parsing of rule files and JSON, SQL as text, the full-text
-- index, the other databases' adapters, the command line, the server's transport and the
-- administration pages.
pub mod Base
pub mod Tracker
pub mod Hooks
pub mod Entries
pub mod Rules
pub mod Ingest
pub mod Database
pub mod Import
pub mod Watcher
pub mod Dedup
pub mod Auth
pub mod Relations
pub mod Search
pub mod Counters
