-- ===== src/Lib.antt =====
-- Verification library of the agent core, the Python program under agent-core/src/maid_agent that
-- plans and drives an AI maid in a Minecraft world through a Bridge.
--
-- The parts, and where each is modelled (paths are below agent-core/src/maid_agent):
-- * building/ turns a document of building operations into a blueprint, a blueprint into ordered
--   placements, and sends these to the Bridge in segments.
--   - building/models.py is Building/Models.antt: `Blueprint` with its validator (`make_blueprint`,
--     `unique_from`), the bill of materials and the counters.
--   - building/dsl.py is Building/Line.antt (`_line`), Building/Dsl.antt (the primitives, which read
--     an operation), Building/Dsl/Cells.antt (the positions that they yield) and
--     Building/Dsl/Compile.antt (`compile_dsl`).
--   - building/planner.py is Building/Planner.antt.
--   - building/executor.py is Building/Checkpoint.antt (the state and what is saved),
--     Building/Reserve.antt (what is required) and Building/Executor.antt: `execute` as a function of
--     the stored checkpoint, the first snapshot and the list of the Bridge's replies. `round` is one
--     pass of its loop; a build that needs more replies than the list holds is `waiting`.
-- * tokens/ accounts for the tokens of the language models. tokens/ledger.py is Tokens/Ledger.antt, a
--   list of rows for the table; tokens/budget_guard.py is Tokens/Guard.antt.
-- * capability/graph.py is Capability.antt (`has`, `first_missing`), Capability/Table.antt (the nodes),
--   Capability/Steps.antt (the steps that one thing takes), Capability/Next.antt (`next_steps`,
--   `condition`) and Capability/Acquire.antt with Acquire/Recipes.antt (`acquisition_steps`). A step
--   that it proposes is a `Draft`, the arguments of a `PlanStep`; `to_step` adds the defaults.
-- * goal/postconditions.py is Goal/Postconditions.antt (the conditions that need several reads),
--   Postconditions/Reads.antt (the reads of arguments, which may raise) and
--   Postconditions/Evaluate.antt (`evaluate`, `all`, `any`).
-- * brain/autonomous_loop.py runs a plan: Brain/World.antt (`_plan_interrupt`), Brain/Attempts.antt
--   (`_execute_action_step`), Brain/Marks.antt (the walks over all nodes), Brain/Flow.antt with
--   Flow/Loops.antt, Flow/Kinds.antt and Flow/Nodes.antt (`_execute_nodes`, `_execute_loop`) and
--   Brain/Plans.antt (`_execute_plan`). The replies to the actions are a list, each with the worlds
--   that the executor finds after it; a run that needs more replies waits. A node that the code
--   changes in place is returned in its changed form.
-- * goal/manager.py is Goal/Manager.antt: the goals in a heap by their id, to which the current goal
--   and the stack of paused goals refer.
-- * persist/recovery.py is Persist/Recovery.antt (`revalidate`): what becomes of the nodes that were
--   RUNNING when the process ended. The verifier, the catalog's flag `side_effect` and the cached results
--   are its `Sources`.
-- * goal/models.py is Goal/Plan.antt: the steps of a plan as a tree, their checks, and the update of a
--   step, which the code finds by its walk over the nodes (`iter_nodes`) and changes in place.
-- * rnd/trigger.py is Rnd/Trigger.antt: the creation of research cycles over the rows of a table.
-- * protocol/models.py is Protocol.antt and `Snapshot` of Capability.antt, as far as the parts above
--   read it. Decoded JSON is Json.antt.
--
-- Conventions. A Python integer that may be negative is `ℤ` over the native numbers; token counts,
-- item counts and list positions are `ℕ`. A function that may raise returns `Result`, with one
-- constructor for each message. A counter is a list of keys with counts. A generator is the list of
-- what it yields. SQLite tables are lists of rows in the order of insertion.
--
-- Fuel. `line_from` runs on one more than the sum of the two distances, since each round moves at
-- least one axis towards its end. `free_sequence` runs on one more than the highest number of the
-- directories, since no directory has a higher number. `first_missing` is bounded by a depth, for
-- which one more than the number of nodes is enough, since a node stands after its requirements.
-- `acquisition_steps` needs two calls, since a material of a material needs no third. The runs over a
-- plan (`execute_nodes`) need the depth of its lists within lists, `depth_steps`; the attempts of a step
-- and the rounds of a loop recur on the replies and on the rounds that are left.
--
-- Parameters. `Store` (Capability/Steps.antt) stands for the two queries of the memory store that
-- the graph uses, `Python` (Postconditions/Reads.antt) for `str`, `int`, `float`, `==` and `is` on
-- values. `Tools` (Brain/Attempts.antt) stands for the verifier, for the preparation of the
-- arguments and for request ids, `goal_met` (Brain/Flow.antt) for the test of the goal after an
-- action. `Host` (Building/Dsl.antt) stands for `str`, `int` and `dict` on values that are neither
-- texts nor integers, for `json.dumps` and for `uuid5`. `name_of` and `sequence_of`
-- (Rnd/Trigger.antt) stand for the format `cycle-{n:03d}` and the regular expression that reads it
-- back. The ratios of the budget guard are exact fractions, where the code has floats.
--
-- Not modelled: what only moves data or talks to the outside (control API, web sockets, HTTP clients,
-- SQL, files, the control center, the Bridge), the handling of snapshots and decisions,
-- the skills, the threat analytics and the orchestration of research.
pub mod Prelude
pub mod Json
pub mod Protocol
pub mod Building
pub mod Tokens
pub mod Capability
pub mod Rnd
pub mod Examples
pub mod Goal
pub mod Brain
pub mod Persist
