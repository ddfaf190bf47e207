-- ===== src/Lib.antt =====
-- Verification of the review daemon (jemmin): a request to review a change is recorded, passed by
-- resource and policy checks, given to agents, decided by a consensus, asked of an LLM, perhaps
-- patched, and delivered.
--
-- How the parts interact. The orchestrator (src/jemmin/orchestrator/controller.py) drives one review.
-- It records the request and every state in the job store (src/jemmin/state/sqlite_spooler.py), asks
-- the resource manager and the policy engine (src/jemmin/orchestrator) whether to go on, runs the
-- agents and the consensus engine, and asks the L3 gate (src/jemmin/services/llm_review_gate.py) for
-- the last word. The patch, verification and automatic fix services (src/jemmin/services) may change
-- the verdict. The artifact publisher sends results out. An error anywhere becomes a result too.
--
-- Files.
--   Prelude, Python: shared lemmas, texts, exceptions, dynamic values, and Exec, the monad of methods
--     that mutate objects and may raise. What was written before a raise stays written.
--   Models: models.py, the dataclasses.
--   State/Machine: state/statemachine.py. State/Spooler: state/sqlite_spooler.py, a table of rows and a
--     log of events; one function for each method. Its children hold the proofs: Keys (the unique
--     columns), Audit (the log as an audit trail), Sound, Methods, Others, Recovery.
--   Orchestrator/ResourceManager, PolicyEngine, Consensus: the files resource_mgr.py, policy_engine.py
--     and consensus.py of orchestrator.
--   Orchestrator/Controller: controller.py. The world of a run is the store, the resources, the output
--     and the two local variables current_state and request_persisted. Failures models
--     _classify_failure and the handler, Agents the loop over agents, Verdict the stages that make the
--     verdict, Pipeline run_once. Under Pipeline, Keeps, Verdicts, Stages and Present carry the proofs
--     of Terminal, Passing, Isolated and Duplicates.
--   Services: patch_svc.py with verification_svc.py (PatchService), autofix_svc.py (AutoFix),
--     artifact_publisher.py (ArtifactPublisher), llm_review_gate.py (LlmReviewGate), feedback_svc.py
--     (Feedback, whose child QuickFix is what the editor gets).
--   Services/ContextCache: services/cache_mgr.py. The two locked blocks of get_or_create are run as one
--     call, so calls that overlap are not modelled.
--   Services/ConfigWatcher: services/config_watcher.py.
--   Cli: bin/jemmin_cli.py (from the root), its exit codes. Cli/Gate holds the proofs.
--   Ipc: ipc/zmq_router.py. Reply holds what a reply promises, Tasks the permits, Shutdown what is
--     still accepted after a stop, Closing the way to a closed socket.
--   Offload: ipc/offload_gateway.py.
--   Python/Regex: the patterns of Python's re as a data type with an executable search. Its child
--     Meaning gives the patterns as relations between two places of a text, and relates the search to
--     them.
--   Agents: one file for each of the agents package. Scan is what they share: the lines that a diff
--     adds, and a table of rules over them. Scan/Rules, Security/Blocks, Architecture/Nesting and
--     FastGate/Severity hold the proofs.
--   Context: context/providers and services/context_svc.py. A provider may change the world, which holds
--     files and its caches. Service holds the cache of contexts; its children Refinement, Stale and
--     Similar, and Tiers, Log and Policy/Size, hold the proofs.
--   Providers/Ollama, Providers/Installed: providers/ollama.py. The stream of an answer
--     is a list of timed readings. Providers/Gemini: providers/gemini.py and providers/local_llm.py.
--   Reviewer: mini_reviewer.py with bin/mini_nitpicker.py and bin/mini_nitpicker_daemon.py. Jsonc is
--     _load_jsonc, Settings load_settings, Patch _apply_patch_safely, Generate the calls of the LLM,
--     Targets review_targets and the exit code, Watch the debounce of the daemon.
--   Triggers: triggers/adapters.py, triggers/request_factory.py. Registry: registry/agent_registry.py.
--   Examples: each theorem at a concrete input.
--
-- Bounds. Times are milliseconds and scores ten-thousandths, both natural numbers. Texts are native
-- strings; str.lower, the case-insensitive search and the classes of characters in patterns are
-- those of ASCII. The arithmetic of floats in the consensus is an argument (Floats in
-- Orchestrator/Consensus); the bounds of its score assume a rounded mean that is close to the exact
-- one (IsClose in Orchestrator/Consensus/Decide). Two loops need fuel: the printing of a number,
-- whose fuel is the number itself, and the repetition in a pattern, whose fuel is the number of
-- characters left, since every round moves on.
--
-- Not modelled. SQLite, git, ruff, mypy, pytest, HTTP and the LLM services are arguments with any
-- answer, errors included; the orchestrator takes its agents as arguments too, and
-- Agents/Security/Blocks puts an agent of this development in their place. A fault of the database
-- itself is left out, and so are measured times, log lines and exceptions outside the class
-- Exception. Left out too are the provider of symbols, the notifier and the reports, the analyzers,
-- the texts that the single-file reviewer prints, the language server and the wizard.
mod Prelude
pub mod Python
pub mod Models
pub mod State
pub mod Services
pub mod Triggers
pub mod Registry
pub mod Orchestrator
pub mod Cli
pub mod Context
pub mod Ipc
pub mod Offload
pub mod Agents
pub mod Reviewer
pub mod Providers
mod Examples
