-- ===== src/Lib.antt =====
-- HireAI: the task and lead services, the workflow executor, the job platform, the event bus, the
-- rate limiter and the approvals.
--
-- HireAI is a multi-tenant platform of AI employees; its API is apps/api/app. This library models
-- the parts that keep state for the tenants and for the workers, each as functions from a state
-- to a state, and proves what they guarantee. Identifiers, instants and durations are natural
-- numbers; a generated identifier and the clock are arguments.
--
-- Task models apps/api/app/services/task_service.py with its repositories
-- (repositories/task_repository.py, task_activity_repository.py and get_by_id of
-- lead_repository.py), models/task.py and schemas/task.py. Store has the tables and the queries,
-- Update the shared parts of the methods, Service the methods. A method gets the state its SELECT
-- saw and the state its writes meet, so that any other transaction may have committed between the
-- two; what the session's copy of a row reads after a bulk UPDATE is a parameter (SQLAlchemy). A
-- request names an existing user as assignee and gives its instants with a time zone: the foreign
-- key and the comparison of mixed instants, which raise otherwise, are left out. Sound,
-- WriteBack, Command, Outcomes and Runs carry the proofs, and the remaining modules state the
-- laws.
--
-- Leads models apps/api/app/services/lead_service.py with repositories/lead_repository.py,
-- lead_note_repository.py, lead_tag_repository.py and lead_activity_repository.py. Contact has
-- the two normalizations, Repository the queries, Update and Plan what update_lead decides,
-- Service and Timeline the methods. A method is one step here: nothing else is committed between
-- its reads and its writes. A change to the session's copy of a row is written to the row that
-- the SELECT found. Lower-casing, in Python and in the database alike, and isdigit are
-- parameters. Deleting a lead deletes its tasks by the operation of Task.
--
-- Queue models apps/api/app/queue/redis_queue.py: enqueue, dequeue, acknowledge, requeue,
-- check_visibility_timeouts, get_depth, get_in_flight_count and clear_all, over the queues and
-- the in-flight tracker that all queues share. A queue is named by a QueueType, and priorities
-- are 0 or more, as the router demands.
--
-- Job models the rest of the job platform: Repository is
-- apps/api/app/repositories/job_repository.py, Retry is queue/retry_manager.py and
-- queue/dead_letter_queue.py, Execute is jobs/job_executor.py, Dispatch is
-- jobs/job_dispatcher.py, Health is workers/worker_health.py, and Submit is
-- queue/queue_manager.py with services/distributed_execution_service.py. The dispatcher takes an
-- item from Queue, claims the job and a worker, runs the executor and releases the worker. The
-- executor meets an environment: the cancellations that arrive before each checkpoint, whether a
-- trace could be started, and the exceptions, of Python code or of the database. After one of the
-- database the session refuses all writes, those of the handlers too, and the tables go back to
-- how the dispatch, which is called with nothing uncommitted, found them; the queues are memory
-- and stay. Calls of the trace collector and of the event bus are recorded. The jitter (random)
-- and the hash of a request (hashlib) are parameters.
--
-- Events models the event bus, apps/api/app/events with repositories/event_repository.py.
-- Serializer is event_serializer.py, Repository and Leases are event_store.py and the repository,
-- Registry is event_registry.py, and Bus is event_router.py, event_dispatcher.py and
-- event_publisher.py. A publication appends the event, makes a delivery for each enabled
-- subscription, and hands each to its handler under a lease. What a handler's call comes to
-- (done, timed out, raised, or the database session lost, in which case dispatch raises and is
-- rolled back), the texts of instants and UUIDs, and the clock at each delivery are parameters;
-- floats in payloads are left out.
--
-- Workflow models apps/api/app/services/workflow_executor.py and the loop of
-- workflow_condition_engine.py with the duplicate test of
-- repositories/workflow_execution_repository.py. The tables on which the actions work are any
-- type; what an action's handler does to them, whether it raises or loses the database session,
-- and whether one condition holds are parameters. Other transactions do not interleave with an
-- execution, and those that its actions start through events are not followed.
--
-- RateLimit models the memory backend of apps/api/app/security/rate_limiter.py, Rbac models
-- security/rbac_engine.py there, Access models security/abac_engine.py and
-- authorization_engine.py with the cache of decisions (values are JSON without fractions, and a
-- rule that compares values of two kinds raises), Lifecycle models
-- marketplace/lifecycle_manager.py, and Approval models
-- apps/api/app/governance/approval_engine.py.
--
-- A duplicate execution and an existing delivery are read by `scalar_one_or_none`, which raises
-- on several rows, where the model takes the first: executions alone and routing alone never make
-- two. The operations of Approval and of Events are single steps although the source takes no
-- locks, authorize reads the clock once for the cache and the decision, and a throttled
-- submission sleeps between its test and its writes.
--
-- Every loop is structural recursion on a list, so no fuel is used. Numbers of the program are
-- unbounded integers that the code never makes negative; a retry limit, a limit and a priority
-- below 0 are outside the model. Primary keys are unique, so an UPDATE by one reaches the first
-- row that has it. Progress is a whole percentage, and costs, load averages and log lines are
-- left out.
--
-- Not modelled: the HTTP routers and schemas, the AI services and providers, the rest of the
-- marketplace, the policy engines, the event subscribers, the scheduler, the migrations, the SDKs
-- and the front ends. The list queries of the task and lead services and the audit logger write
-- nothing that the laws speak of.
mod Prelude
pub mod Queue
pub mod Events
pub mod Approval
pub mod Job
pub mod RateLimit
pub mod Lifecycle
pub mod Rbac
pub mod Access
pub mod Workflow
pub mod Task
pub mod Leads
