-- ===== src/Lib.antt =====
-- robot-army watches GitHub issues and Trello cards, queues them as work items, and runs each item
-- in an agent session of its own. This library models the core that decides what happens: the state
-- of every item and session, the records that sessions leave behind, how many sessions the machine
-- may carry, and which item is started next and why the others wait.
--
-- The parts, by their files here and the code that they follow (all under src/robot_army/):
--   States                 states.py: the enumerations, WORK_ITEM_TRANSITIONS and
--                          SESSION_TRANSITIONS, the stamp columns, claimable_sources, classify_exit
--   Transition             states.py: transition_work_item, claim_work_item, transition_session
--   Models, Db             models.py and db.py: the rows, the lookups, a transaction
--   Db/Anomalies, Db/Holds db.py: raise_anomaly, the holds, the pause, the kept sessions
--   Cards                  cardstates.py: CARD_TRANSITIONS and transition_card
--   Spool, Spool/Apply     spool.py: parse_record, apply_record
--   Spool/Drain            spool.py: quarantine, drain
--   Config                 config.py: effective_project_ordering, effective_wait_for_merge and
--                          effective_repo_cap
--   Capacity               capacity.py: snapshot and what it calls
--   Ordering               ordering.py: HoldReason, order_key, board_key, label_hold
--   Ordering/Holds         ordering.py: launch_holds, _hold_for
--   Ordering/Order, Plan   ordering.py: _apply_board_order, plan
--   Dispatch               dispatch.py: the walk of select_and_dispatch over one plan, _note_hold,
--                          _resolve_hold, _clear_hold and _elapsed_seconds
--   Dispatch/Gate          dispatch.py: check_launch_gate
--   Dispatch/Claim         dispatch.py: author_refusal, _claim_or_refuse
--   Intake                 intake.py: the calls of GitHub and Trello, and runs that can be killed;
--                          boundaries/github.py: list_issues_since
--   Intake/Resolve         intake.py: resolve_repository, _resolve_declarations, _key_for_reference
--   Intake/Filing          intake.py: _perform_creation, _resume_creation, _find_orphaned_issue,
--                          _restore_from_marker, _post_marker_comment, _record_create_failure
--   Intake/Evaluate        intake.py: evaluate_card, _hold_for_info
--   Poll                   poll.py: evaluate, _settle, _refresh_labels and the loop of poll_repo
--   Cleanup                cleanup.py: clean_item, eligible, _remove_then_decide and its two guards;
--                          Cleanup/Sweep: sweep, and list_cleanup_candidates of db.py
--   Operations             operations.py: _set_pause, hold_item, unhold_item, hold_repo, unhold_repo,
--                          keep_item, unkeep_item
--   Base                   lists, native integers, Boolean tests, texts, the digits of a number and a
--                          stable sort
--   Examples               concrete tables, and the theorems applied to them
-- The files below one of these hold its lemmas and theorems, each named for what it is about.
--
-- How they interact. Every state column is written by a gate of Transition or Cards, inside a
-- transaction of Db. Spool reads the wrapper's records and calls the gates. Capacity counts the
-- registry's entries against the open session rows; Ordering reads that snapshot, the holds and the
-- configuration, and lists the ready items with their holds. Dispatch walks that list, and its gate
-- asks Ordering for the holds of a launch on a snapshot of its own. Poll inserts the rows of new
-- issues and takes them through the gate of Transition; Intake takes a card through the gate of Cards
-- while it calls GitHub and Trello. Their answers are those of a `Hub`: functions of a state of any
-- type, with what they document stated as the laws of `Documented`; that GitHub's clock is not behind
-- the machine's, and that a listing fits one page, are hypotheses of their own. Cleanup removes the
-- worktree and the branch of an item that is done; git and the disk are a `Vcs`, in the same way.
-- Operations writes the holds and the pause that the gate of Dispatch reads, and the keeps that Capacity and Cleanup read.
--
-- How the code is represented. A connection and the audit log are a `World`, which a function takes
-- and gives back; an exception is an `Error` beside the world that it leaves. A transaction puts the
-- tables back after an error and keeps what was logged, because the log is a file. The log has its
-- newest record first. `utcnow()` is an argument and is read once per call; a timestamp is a number
-- of seconds. Logged and stored sentences are values that hold the facts they print. `json.loads`, the
-- registry, /proc, the worktree root and the repositories that resolve to a clone are arguments. What
-- the file system answers for a spool file stands in its `File`. A float of a record is kept as the
-- integer that it equals, if there is one.
--
-- A process that is killed is a run whose `budget` of effects, each a call or a commit, has run out:
-- it ends there with `killed` and the state that it reached. The matches of the regular expressions,
-- and whether a path lies in a clone, are what the `Recognisers` answer.
--
-- Loops are recursions on the lists they walk. The one unbounded loop, the search for a free name of
-- a rejected record, has one step more fuel than there are rejected records, and a free name is
-- found within it. The digits of a number have one step more fuel than the number is large, and any more
-- gives the same digits.
--
-- Not modelled: SQLite's own errors and its type affinity, but for the one unique index on which the
-- filing of a card relies; threads and processes; printed text; the loading of the configuration; and
-- the parts of the program that reach the outside: dispatch's launches, the reading of boards
-- and of the polled listings, reconciliation, the web pages, the other commands and the boundaries but
-- for that one listing. A notification is the
-- record that it leaves in the log.
mod Base
pub mod Models
pub mod Db
pub mod Transition
pub mod Cards
pub mod Spool
pub mod Config
pub mod Capacity
pub mod Ordering
pub mod Dispatch
pub mod Intake
pub mod Poll
pub mod Cleanup
pub mod Operations
pub mod States
pub mod Examples
