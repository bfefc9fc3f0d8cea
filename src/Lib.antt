-- ===== src/Lib.antt =====
-- A model of the core of JARVIS-AWF (backend/src/awf) and the theorems about it. The program runs
-- workflows as durable steps in an SQLite database, asks for approvals before risky actions, judges
-- candidates by gates, merges the improvements that were approved, and holds voice sessions.
--
-- How the parts stand to each other. `ops/run_execution._run_workflow_safely` calls
-- `workflow/engine.run_workflow_definition`, which visits the nodes of a definition and calls an
-- executor for each. An executor runs a step by `engine/executor.run_step`, or waits for a decision
-- (`workflow/approval.py`, `machine/approvals.py`). Actions go through
-- `guard/capability_guard.authorize`, and so do the calls of models in `gateway/client.py` and of
-- agents in `engine/agent_step.py`, which resolves what it hands them in the registry. All of
-- it writes events. `engine/recovery.py` prepares an interrupted run, and `speech/session.py` keeps
-- its state in the entries of `memory/sessions.py`.
--
-- The files:
--   Prelude, Json, Exec   tables, JSON values, and statements that return or raise
--   Database              the rows of db/schema.py, events/writer.py, clock.py, ids.py; the state
--                         is the record World, and a statement is a function of it
--   Engine                engine/run.py, engine/executor.py, engine/recovery.py
--   Workflow              workflow/nodes.py, definition.py, engine.py, io_schema.py, loop_node.py,
--                         subworkflow.py, handoff.py, map_node.py, and _run_workflow_safely of
--                         ops/run_execution.py
--   Approvals             approval_policy.py, ops/approval.py, gates/voice_approval.py,
--                         workflow/approval.py, machine/action.py, machine/approvals.py, and
--                         run_machine_activity of machine/activities.py
--   Guard                 guard/capability_guard.py
--   Registry              registry/capability_record.py, model_profile.py, kinds.py, index.py and
--                         resolve.py
--   Cognition             cognition/envelope.py, cognition/render.py, and registry/persona.py
--   Agents                engine/agent_step.py, with the envelopes of adapters/base.py
--   Gateway               gateway/client.py
--   Gates                 gates/schema.py, verdict.py, verifier.py, adversary.py, artifacts.py,
--                         gate_node.py, and artifacts.py
--   Memory, Voice         memory/sessions.py, speech/session.py
--   Improvement           improvement/proposals.py, write_patch_artifact of improvement/diff.py, and
--                         eval/runner.py
--   Samples               concrete inputs, and the theorems at them
--
-- What stands for what. An exception is a value of Exn, and what a statement wrote before it stays
-- written. A time is the reading of a clock, an identifier the next one of a supply, `uniform` and
-- `str.isalnum` are read from the same record Outside. A JSON column holds the value itself. Numbers
-- in JSON are integers, and delays are whole seconds. The foreign keys of an INSERT are taken to
-- hold; those of a DELETE are checked. Executors, jsonschema, the digest of an action, what
-- builds and executes a machine action, the models, and the parsing of a URL are arguments, with
-- their assumptions in the theorems. The disk is a number: what git and the files say is a function
-- of it, and a command or a merge changes it.
--
-- Bounds. The retries of a node recurse on the retries that are left. The loop over the nodes
-- recurses on a number of visits; where `next` goes forward in some ranking of the nodes, the number
-- of nodes for each repair and once more is enough. The iterations of a loop node, the hops of a
-- handoff and the candidates of a model profile are walked one by one.
--
-- Not modelled: the activity executors, the cognition router, the adapters, the readers of
-- YAML and Markdown, and what talks to processes, devices, files and the network.
pub mod Prelude
pub mod Json
pub mod Exec
pub mod Database
pub mod Registry
pub mod Guard
pub mod Gateway
pub mod Gates
pub mod Memory
pub mod Voice
pub mod Engine
pub mod Workflow
pub mod Approvals
pub mod Improvement
pub mod Cognition
pub mod Agents
pub mod Samples
