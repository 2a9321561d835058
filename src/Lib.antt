-- ===== src/Lib.antt =====
-- Whale MAS: the backend of a case-analysis service (backend/app), verified.
--
-- A case collects evidence files and runs through a review workflow that pauses for human answers;
-- every step of an upload writes an audit event into a hash chain of the case.
--
-- Parts, and where each is modelled:
--   Errors, Types, Models   backend/app/errors.py, db/types.py, models: error classes, enumerations, rows.
--   Exec, World             methods that change a state and may raise, with the rules for what they keep
--                           (Exec/Calm) and for pre- and postconditions (Exec/Ensures); the state of a
--                           service call: the session's tables (flushed and committed), the bucket, the
--                           temporary files, and an environment that decides for each call whether it
--                           raises.
--   Json                    json.dumps with sorted keys, as canonical_json calls it.
--   Repositories            repositories: WHERE and ORDER BY over the tables.
--   Schema                  alembic/versions/20260818_0001_initial.py: Initial holds the statements,
--                           Reversal what a downgrade takes back, Widths what fits the columns.
--   Security                security/file_validation.py: safe_filename and FileValidator; Accepted is
--                           what a file satisfies that is let through, SafeNames what its name is.
--   Settings                config.py: the settings, and the parsing of the list of extensions.
--   FileHashing             utils/hashing.py: the loop over the chunks of a file, and its digest.
--   Audit                   services/audit_service.py: Hashing and Service hold the code; Chain is
--                           what verify decides, Extension what one more event does to a chain, Growth
--                           what append keeps, Frame and Sound what append adds to the tables and to a
--                           chain, Content and Tampering what the hashes protect. Concurrent is
--                           lock_case_chain of repositories/audit_repository.py: the sessions that
--                           append at the same time, as a step relation, with its invariant.
--   Cases                   services/case_service.py and utils/ids.py: Number and Service hold the
--                           code, Creation, Applied and Update what the methods leave behind,
--                           Numbers why case numbers are distinct, Chain what an update does to the
--                           audit events.
--   Evidence                services/evidence_service.py and the MinIO adapter: a method is one Exec
--                           block, `try` is `except` and `finally` of Exec; Frame is what of the
--                           world an upload touches, Attempt and Undo the body and the handlers of
--                           an upload, Upload the whole, Row what its row says, Keys what the key of
--                           its object tells, Events the audit events it adds, with Storing,
--                           Hashing, Failure, Trail and Chain for how, Deletion what a deletion
--                           leaves, Distinct and Requests the constraints of the table, Refusal and
--                           Duplicates the refusal of bytes that the case has.
--   Session                 db/session.py: the session of a request.
--   Storage                 storage/minio_storage.py: exists and get.
--   Wiring                  dependencies.py: the services from the settings, the lifespan of main.py,
--                           and an upload through the services.
--   Graph                   graph: State and Nodes hold the node functions, Workflow the edges;
--                           Engine is LangGraph as a parameter, with laws in the terms of Runtime;
--                           Review is the review process the graph is meant to be.
--   Workflow                services/workflow_service.py and the request models; Laws and Traces tie
--                           its methods to the review process.
--   Http                    main.py and api/v1: Responses and Correlation for the middleware and the
--                           exception handlers, Health for the readiness report, Schemas for the checks of
--                           requests and the responses, Cases, Evidence, Workflows and Audit for the
--                           endpoints, Pages, Stored and Trail for what they answer one after the other,
--                           Events and Delivery for the event stream of a workflow.
--
-- The workflow service holds a graph and the two repositories; the evidence service calls the audit
-- service, the validator, the storage and the repositories, all in one World. The case service writes
-- its rows and their audit events in that World too; the event stream reads through the workflow
-- service.
--
-- Bounds and fuel. A run of the graph is bounded by LangGraph's recursion limit, here
-- `spare_steps + 3` supersteps: three are enough from every waiting node, so no run meets the limit.
-- `str_rounds` prints a number n with n + 1 rounds, and each round divides by ten. The loop over the
-- chunks of an upload is recursion on the list of chunks. The loop over the chunks of a file runs on
-- one more call of `read` than the file has bytes, which is enough for every chunk size. The endless
-- loop of the event stream runs on a list of rounds, each of which says what the client and the
-- checkpoints do.
--
-- Parameters. LangGraph's checkpointer, SHA-256, isoformat, the Unicode tables, the incremental hash
-- of hashlib, Starlette's middleware stack and pydantic's model_dump_json are arguments. Of LangGraph
-- the laws say that an invocation runs the graph as documented, that its stop is stored under the
-- thread, and that no other thread changes; of SHA-256, that a digest is 64 hexadecimal digits; of
-- hashlib, that two updates are one with the bytes of both; of Starlette, how it nests its own
-- exception handlers, those of the application and the middleware.
--
-- A request reads and writes in a session of its own, which sees what is committed when the request
-- begins. Where sessions run at the same time (Audit/Concurrent), a session sees what is committed
-- whenever it reads, a lock is held up to the end of a transaction, and the clock that the events are
-- given goes on from write to write.
--
-- Assumptions on failures. Every call of the database or of the storage may raise, a rollback too, and
-- one that raises has no effect of its own: a `put` that raises has stored nothing, a commit that raises
-- has committed nothing. MinIO and PostgreSQL do not promise this when a connection breaks, so an object
-- of a `put` whose answer is lost is outside of what is shown. Closing an upload or unlinking its
-- temporary file does not raise.
--
-- ORDER BY leaves rows with equal keys in the order of the table, here; PostgreSQL leaves their order
-- open, so what is shown of an order supposes different times.
--
-- Not modelled: logging and its configuration, SQLAlchemy's engine, alembic/env.py,
-- what FastAPI does to read a request besides the limits that are declared, floating-point JSON values,
-- the constant question texts of the interrupts, the content of stored objects, and the frontend.
pub mod Prelude
pub mod Errors
pub mod Types
pub mod Exec
pub mod Json
pub mod Models
pub mod Repositories
pub mod World
pub mod Session
pub mod Schema
pub mod Security
pub mod Settings
pub mod FileHashing
pub mod Audit
pub mod Evidence
pub mod Storage
pub mod Wiring
pub mod Cases
pub mod Workflow
pub mod Http
pub mod Graph
