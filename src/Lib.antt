-- ===== src/Lib.antt =====
-- The runtime of SelfConnect: a journaled agent loop that calls a model, runs the tools that the model
-- asks for within the limits of a capability manifest, and keeps an append-only record of what it did.
--
-- Parts, and the files that model them:
-- - Capability (scr/capability.py): `CapabilityManifest`, its checks, and `attenuate`. An exception is
--   the `err` of a Result. Path resolution, `os.name` and regular expressions are the record `Os`.
-- - Policy (scr/policy.py): approval rules, and the tightening of a manifest.
-- - Orchestration (scr/orchestration.py): the tree of agents, delegation paths, revocation, and the
--   manifest that an agent effectively has. `climb` has the fuel `max_depth`, which is the source's own
--   bound on the length of a path.
-- - State (scr/state.py): the store. A table is the list of its rows in the order of insertion, an
--   operation is a function from stores to stores, and `ORDER BY` is a stable sort.
-- - Ledger (scr/ledger.py): the hash chain of events, its seal and its verification, over JSON and
--   digests as the record `Codec`. `ReadsBack` and `FixedSize` state what `json` and `hashlib` document.
-- - Gateway (scr/gateway.py): the records that the kernel and the model adapters exchange.
-- - Kernel (scr/kernel.py): the loop, the execution of tool calls, approvals, retries and recovery.
--   Its methods are actions on a `World`, a store beside an arbitrary state `W` that the adapter, the
--   clock and the tools change. `Execute`, `Loop` and `Recover` follow the source method by method;
--   the `for` loops have their own bounds as fuel, and the loop over pending calls has a round for each
--   call. The kernel uses the manifest, the policy, the ledger and the store through the functions of
--   their modules.
--   The other modules below Kernel are proofs: what an action may do to the store (Evolution, Runs,
--   Effects, Growth), to the world (Preserves, Confinement, Confined), what it may return (Results),
--   the pending calls (Pending), and recovery (Recovery, Crashes).
-- - Sessions (scr/sessions.py): jobs over the kernel. Rbac (scr/rbac.py), Seats (scr/seats.py),
--   Resilience (scr/resilience.py), Migrations (scr/migrations.py), Replay (scr/replay.py), Merkle
--   (scr/merkle.py, with a round for each leaf as fuel: every round takes a node away), and Semver
--   (scr/semver.py) model one file each, over the store where the file uses it.
-- - Evidence (scr/evidence.py, scr/_evidence_verifier.py): the bundles of sessions and teams that are
--   exported from the store, and the offline verifier, which reads the texts of the events and imports
--   nothing of the ledger. `Documents` is what they take of json, hmac and zip.
-- - Locks (scr/locks.py): the workspace lock on POSIX, over inodes and the handles that hold them; the
--   system calls of several processes in any order are the step relation of Locks/Interleaving.
-- - Packages: keys, revocation and the verification of a package (scr/signing.py, scr/package.py,
--   scr/loader.py); Packages/Registry (scr/registry.py) with installation, updates and the guard that
--   the session manager calls before a run; Packages/Requirements (scr/registry.py) over Semver; and
--   Packages/Licenses (scr/license.py). The record `Crypto` is what they take of Ed25519 and hashlib.
-- - Team (scr/team.py): the `delegate` tool of an agent over the delegation tree of Orchestration, with
--   the policy that it keeps, and the guard that the kernel calls before it finalizes; Team/Loading: the
--   check of widening, the names of a loaded team, and the recovery of its members by Kernel/Recover.
-- - Compliance (scr/compliance.py): the verdicts of the signals and the evaluation of controls.
-- - Base: lists, dicts, results, tests and sorting; Tests: concrete parameters and inputs.
--
-- Not modelled: the HTTP service, the command line, the adapters, the sandbox, the making of keys and
-- archives, which are input and output or calls of libraries; the reports for people; and, so far, the
-- validation of a team's forest. A tool of Kernel changes the world beyond the store only, so a kernel
-- with the `delegate` tool of scr/team.py, which writes the store while the parent's run goes on, is not
-- modelled as a whole: Team models the tool, with the child's run as a parameter, which may raise. In
-- Packages an archive is read as a whole, or not at all; in Packages a key is always a
-- hexadecimal text, and a package's manifest has a name and a version. Times and generated identifiers
-- are arguments. The threads of a parallel batch of tool calls are calls in the order of submission. A
-- floating-point number is a natural number of some small unit, since the code only adds and compares
-- them.
pub mod Base
pub mod Capability
pub mod Gateway
pub mod Policy
pub mod State
pub mod Ledger
pub mod Kernel
pub mod Orchestration
pub mod Tests
pub mod Sessions
pub mod Rbac
pub mod Seats
pub mod Resilience
pub mod Migrations
pub mod Replay
pub mod Merkle
pub mod Semver
pub mod Evidence
pub mod Locks
pub mod Packages
pub mod Team
pub mod Compliance
