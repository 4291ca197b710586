-- ===== src/Lib.antt =====
-- The AI Kubernetes Troubleshooting Agent (backend/app): a service that reads a cluster, explains
-- what is wrong with it and proposes remediation. This library models the parts that decide: who may
-- do what and how much of it, how an investigation is queued, claimed, run and reported on, how an
-- agent is let in and how its answers are matched to questions, how evidence is collected in waves
-- and in rounds, what of it is stored, when an alert starts an investigation, what a repeated read is
-- answered with, and who is told of the outcome.
--
-- How the parts interact. Every request passes the gate (authz/dependencies.py): it resolves the
-- caller's grant (authz/resolver.py) from the member store (authz/store.py), the groups and the
-- default, looks up what the route needs (authz/routes.py), and counts a costed request against the
-- rate limiter (ratelimit/limiter.py). A permitted investigation becomes a job (jobs/store.py in one
-- process, jobs/distributed.py over Postgres), whose events a client streams (jobs/base.py). The
-- orchestrator (playbooks/orchestrator.py) runs the baseline collectors and then those that playbooks
-- plan; each time the scheduler (collectors/scheduler.py) runs them in the waves of
-- collectors/registry.py, cleans what they return (ai/evidence_redactor.py) and adds it to the
-- evidence store (evidence/store.py). Their reads of the cluster go through the collection cache
-- (providers/cache.py), and to a remote cluster over an agent's session (gateway/session.py). The
-- cluster graph (graph/models.py) is derived from the evidence. Agents enrol with single-use tokens
-- (security/enrolment.py). Alerts (events/alerts.py) submit jobs too, and the outcome is announced by
-- notify/dispatcher.py.
--
-- Files:
--   Prelude            shared names; Tests (Boolean tests, `==` as the class Key), Lists, Dict
--                      (Python's dict), Text (str methods), Sort (sorted), Exec and Steps (code that raises)
--   Authz/Models       backend/app/authz/models.py; Models/Ranks compares roles
--   Authz/Store        backend/app/authz/store.py, FileMemberStore; Store/View reads it back
--   Authz/Service      backend/app/authz/service.py; Service/Overlap is the same code where others
--                      write to the store meanwhile; one file for each kind of proof
--   Authz/Routes       backend/app/authz/routes.py
--   Authz/Resolver     backend/app/authz/resolver.py and backend/app/auth/models.py
--   Authz/Gate         backend/app/authz/dependencies.py, require_permission
--   RateLimit          backend/app/ratelimit/limiter.py, InMemoryRateLimiter and evaluate
--   Jobs/Models        backend/app/jobs/models.py
--   Jobs/Sequencer     backend/app/jobs/base.py, EventSequencer
--   Jobs/Store         backend/app/jobs/store.py, InMemoryJobStore; Store/Subscriber its streams,
--                      Store/Log and Store/Reached what it can become
--   Jobs/Distributed   backend/app/jobs/distributed.py, PostgresRedisJobStore; Distributed/Rows the
--                      machine of one row, Distributed/Leases and Distributed/Claims its laws
--   Enrolment          backend/app/security/enrolment.py, FileEnrolmentStore, and the cluster ids of
--                      backend/app/security/identity.py
--   Evidence           backend/app/evidence/models.py and store.py; Evidence/Index and
--                      Evidence/Recorded its invariants; Evidence/Redactor the walk of
--                      backend/app/ai/evidence_redactor.py
--   Collectors         backend/app/collectors/registry.py, CollectorRegistry; Collectors/Scheduler is
--                      backend/app/collectors/scheduler.py, CollectionScheduler
--   Playbooks          backend/app/playbooks/orchestrator.py and registry.py
--   Graph              backend/app/graph/models.py, ClusterGraph and its walks
--   Cache              backend/app/providers/cache.py, CollectionCache and FreshnessWindow;
--                      Cache/Provider is CachingProvider
--   Gateway            backend/app/gateway/session.py, AgentSession; Gateway/Registry is AgentRegistry
--   Kubernetes         backend/app/kubernetes/list_limit.py and command_policy.py
--   Notify             backend/app/notify/dispatcher.py and destinations.py
--   Alerts             backend/app/events/alerts.py, parse_alertmanager and InMemoryTriggerLedger
-- Each component's Examples holds its theorems at concrete inputs, and tests.
--
-- Conventions. State is passed explicitly, and a function runs with no other call on the same state
-- between its statements. That is so in the program where a method holds its lock throughout or runs on
-- the event loop without awaiting. It is not so of the member service, whose store calls each take the
-- lock for themselves: Service/Overlap has what others write between them. It is not so of the progress
-- reports of a job either, which threads publish without a lock; reports that overlap are not modelled.
-- The clock, new ids, minted tokens and random values are arguments. A time is a number of
-- milliseconds, so a comparison `now - at < d` is written `now < at + d`, which agrees with the code
-- where a clock goes backwards too. Python's integers have no width. Every loop is a
-- recursion on a list or on the number of turns that the source allows (rounds, depths, attempts),
-- but for the waves of the registry, which run on as much fuel as there are collectors; that is shown
-- to be enough. The collectors of a wave run at the same time, but each reads the store as it is when
-- the wave begins and what they give is added afterwards in order, so a wave is one step. Objects that
-- are shared (sessions and their collections) stand in a heap, by a number or an id. What a collector,
-- a playbook, a provider, a destination, Python's `re` or its `str.lower` of a payload's keys does is
-- an argument.
--
-- Bounds are those of the source: 10,000 sightings, 10,000 rate-limit buckets, 10,000 alerts, 100
-- jobs, 256 queued events and three attempts to announce.
--
-- Not modelled, since it only performs input and output or calls other services: the JSON of the
-- files, Postgres and Redis beyond the statements above, HTTP and gRPC, logging, metrics, language
-- models. The analysis of a cluster, the collectors and the playbooks themselves, the serialised forms
-- of evidence and graphs, and the gRPC server are not modelled here.
pub mod Alerts
pub mod Authz
pub mod Cache
pub mod Collectors
pub mod Enrolment
pub mod Evidence
pub mod Gateway
pub mod Graph
pub mod Jobs
pub mod Kubernetes
pub mod Notify
pub mod Playbooks
pub mod Prelude
pub mod RateLimit
