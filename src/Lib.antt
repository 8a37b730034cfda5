-- ===== src/Lib.antt =====
-- Revenue Sentinel: the deterministic core, modelled and verified.
--
-- The program watches sales opportunities. A detector raises a signal, the signal opens an incident,
-- agents investigate it and draft interventions, a deterministic policy decides what may happen to
-- each of them, a person approves what the policy does not allow by itself, and an executor performs
-- what is authorised, once. Every call of a language model passes a budget gate first. The development
-- covers the parts that decide, count and move states; none of them consults a language model.
--
-- Files, with the paths of the code below src/revenue_sentinel:
--
-- Base, Json, Domain, Core: shared notation and lemmas, with texts (Base/Text), a stable insertion
-- sort for the code's sorted() and ORDER BY (Base/Sorting), and integers (Base/Int); JSON values
-- (core/types.py); the enumerations (domain/enums.py) and the records of domain/gtm.py (Domain/Gtm);
-- the references of core/ids.py on code points (Core/Refs).
--
-- Signals: protocol.py, registry.py and detectors/roadmap.py of signals (Registry), and
-- detectors/stalled_opportunity.py (Stalled), with growth in ten-thousandths from analytics/windows.py
-- (Analytics/Windows). A detector is a function on the records of its context.
--
-- Events: sources.py, ingest.py, normalize.py, dispatcher.py and pipeline.py of events, one file each.
-- The store is the tables of raw events, signals and incidents with the supply of ids and references;
-- an operation takes it and returns its result and the store after it, or the error that the code
-- raises. A unique key is the test whether a row with that key is there. The library of texts is a
-- parameter: a record of SHA-256, UUIDv5, and the texts of instants, decimals and ids, with the
-- reading of an instant.
--
-- Governance: tiers.py, rules.py, policy_engine.py and outcomes.py (Tiers, Rules, Engine), the engine
-- that was shown an approval (execution/policy_binding.py, in Engine), approvals.py (Approvals) and
-- approval_service.py (ApprovalService). A function of the model has the name of the function of the
-- code. An operation that changes a request returns the request; one that may raise returns a Result
-- and the request as the code leaves it.
--
-- Incidents: lifecycle.py and service.py of incidents. The state is the incident's row and its audit
-- trail; transition_incident returns both or the error, raised before anything is written.
--
-- Execution: authorization.py, retry.py, idempotency.py and executor.py. The tables are lists of rows,
-- a query is the first row that passes its test, a flush replaces the row with the id. The tool client
-- and the digest are parameters: the client is a function on the state of all that lies behind it, so
-- that "no call is made" is "that state is unchanged". A client that raises gives no answer: it is the
-- crash of Lifecycle. Phase is service.py with the arguments of arguments.py: a pass sorts the
-- interventions of a run by rank, authorises each and executes it or records the refusal; an exception
-- ends it, also that of a lookup (Places) which misses the incident, the account or the opportunity.
-- The loop over the attempts runs on the number of attempts left, three, which is the code's own
-- bound. Reconciliation is reconciliation.py, over the same table of actions; Lifecycle is the
-- abstract life of an action, a relation between statuses by what happens (an execution, a crash after
-- a claim, a finding), that the executor and the reconciliation share. In the code a failed action
-- keeps its key, and the model does too, where the documents speak of a retry.
--
-- Mcp: errors.py, gate.py, dispatcher.py and ledger.py of mcp. A tool call is a function on the world
-- behind the handlers and the tables that it writes; the registry is a parameter. An engine or a
-- handler may raise an exception that is not typed, which leaves the call without an envelope and
-- without a row.
--
-- Orchestration: the two functions of orchestration/runner.py that record what a pass of the execution
-- does to the workflow run and the incident (Outcome), and the recorder of transitions.py with the
-- history of a run (Transitions).
--
-- Agents: the check of citations of agents/citations.py (Citations). Evaluation:
-- evaluation/service.py, with the results of the two lists of checks as arguments.
--
-- Cost: pricing.py, governor.py, ledger.py, and the gate of client.py with routing.py and
-- estimation.py. Money is a natural number of microdollars, a price one of cents for a million tokens;
-- the exact total of a call is a whole number of ten-thousandths of a microdollar, which is rounded
-- half to even as the code does. Racing runs are a relation (Governor/Races): each move admits one
-- call against the budgets as they are then, or charges a call that ended. Timeline is timeline.py:
-- the rows of four tables in one order, with the texts of numbers as parameters.
--
-- Analytics: risk_bands.py and pipeline_impact.py of analytics, and severity.py of incidents. Amounts
-- are in 10^-6 dollars, probabilities, factors and growth in ten-thousandths (the scales of the domain
-- types), figures in cents, rounded half up at each step as the code does. Scoring is
-- intervention_scoring.py, in cents and hundredths, with the ranking as a sort by its key.
--
-- Examples: the theorems at concrete inputs.
--
-- Natural numbers are unbounded, as the integers of Python are; a signed argument that the code
-- refuses when it is negative is an integer of Base.Int. Instants are whole microseconds and their
-- days those of UTC, identifiers are numbers (texts in Cost, where the code compares their texts).
--
-- Not modelled: HTTP, the command line, the database mapping, its migrations and seeding, the language
-- model clients and prompts, the graph library's wiring with its nodes, the simulated integrations,
-- and logging, which are input and output; the schemas and handlers of the registered tools, which the
-- dispatcher takes as a parameter; the checks of the evaluation and the cost summaries, which are
-- queries of the database; and the stand-in engines of governance/stub.py, which are for tests.
pub mod Base
pub mod Json
pub mod Domain
pub mod Governance
pub mod Incidents
pub mod Mcp
pub mod Execution
pub mod Orchestration
pub mod Cost
pub mod Analytics
pub mod Examples
pub mod Agents
pub mod Core
pub mod Evaluation
pub mod Events
pub mod Signals
