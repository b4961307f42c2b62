-- ===== src/Lib.antt =====
-- A verification library for ElasticOps: the web interface (frontend/src), a React application that watches
-- and operates Elasticsearch clusters through the HTTP API of the Python backend, and the part of the
-- backend (backend/) that the interface's operations on jobs meet.
--
-- How the parts interact. `apiFetch` (frontend/src/api/client.ts) sends every request, adds the token
-- of `localStorage` and ends the session on a 401. The hooks of frontend/src/api name the paths, the
-- query keys and what a success invalidates. The contexts (frontend/src/context) keep the session and
-- the active cluster. App.tsx guards the pages by the session. The pages (frontend/src/pages) filter,
-- sort and lay out the snapshots of the active cluster, and send operations through the hooks. The
-- backend takes them by its routes and request models, changes the rows of the jobs, and hands the jobs
-- that are queued to the runner, which executes a few at a time.
--
-- What models what:
--   Api.Json, Api.Storage      the runtime's JSON values and `localStorage`
--   Api.Client                 api/client.ts: `apiFetch`, `ApiError`, `getErrorMessage`
--   Api.Es, Api.Jobs, Api.Clusters  the payload types of api/es.ts, jobs.ts and clusters.ts
--   Api.Queries, Api.Operations     the hooks of api/*.ts; Api.Refresh what they refetch
--   Api.Mutation               the part of the contract of react-query's `useMutation` that is used
--   Api.Bodies                 the JSON bodies that the pages hand to the hooks
--   Session                    context/AuthContext.tsx; Session.Expiry with App.tsx
--   Clusters                   context/ClusterContext.tsx, ClusterDialog.tsx and, in Clusters.Sidebar, the
--                              selector of layout/Sidebar.tsx
--   Routes                     App.tsx, layout/AppLayout.tsx and the links of layout/Sidebar.tsx
--   Format                     lib/format.ts
--   Account                    pages/Login.tsx, pages/Setup.tsx and the password form of layout/TopBar.tsx
--   TopBar                     layout/TopBar.tsx: age of the snapshot, countdown, account menu, header
--   ErrorBoundary              components/ErrorBoundary.tsx
--   Users                      pages/Users.tsx: rows, access and invitations
--   Table                      the sortable tables that Indices.tsx, Jobs.tsx and Nodes.tsx repeat
--   Indices, ShardMap, Nodes, Jobs, Settings, Rest, Overview  the pages of these names; a child `Shown`
--                              has the texts, colors and rows that a page shows of its data
--   Backend.Schemas, Backend.Routes  backend/schemas and the declarations of backend/routes
--   Backend.Jobs               backend/routes/jobs.py: the handlers that create jobs and change their status
--   Backend.Runner             backend/services/job_runner.py
--   Backend.Roles, Backend.Rebalance  backend/services/role_logic.py and rebalance.py;
--                              Backend.Drain  services/drain.py
--   ShardMap.Cells             with the keys of `build_shardmap` in backend/services/snapshot_service.py
--   Contract                   the interface's requests and buttons against these parts of the backend
--   Prelude                    lists, texts, stable sorting and the locale
--   Examples                   the results on concrete inputs
--
-- How code becomes definitions. The state of a component is a record, its handlers are functions on
-- it, and a component with buttons is a function `step` on events, which `run` folds over a list: an
-- event on a control that is disabled or not rendered leaves the state as it is. `sent` lists the
-- calls, the latest first. The end of a call is an event of its own, so that every interleaving of
-- clicks and replies is a list of events. A mutation is idle, pending, succeeded or failed.
--
-- Numbers are natural numbers: the code's counts, sizes and identifiers. Percentages and sizes in GB
-- are hundredths. They stand below 2^53, where doubles are exact. Texts are sequences of code points.
--
-- Fuel. `show n` divides at most n + 1 times, and `Format.Bytes.log_1024 n n` at most n times; each
-- division makes the number smaller. `Routes.settle` follows a number of redirects.
--
-- Parameters: the network (`fetch`), the messages of the runtime's own errors, `toLowerCase` and
-- `localeCompare` (Prelude.Locale, with the consistency that ECMA-402 asks of a comparator), `Date`
-- parsing, the fall of a decimal tie in `toFixed(1)`, the quotient of logarithms in `formatBytes`, which
-- ECMAScript leaves to the engine (Format.Bytes says what is relied on), and `Number` of a text. `Array.prototype.sort` is
-- a stable sort, which its specification fixes for a consistent comparator.
--
-- Concurrency. `Backend.Runner.step` is one resumption of a job's task by the event loop, between two of
-- its `await`s that matter to the status: a session with its commit is one step, the end of an executor
-- another, and the session of `_finalize` after it a third. A cancellation, or an error of the database, can
-- come between any two. An interleaving is a list of events.
--
-- Not modelled: markup and style, row virtualisation, the browser's own validation of forms, the entry
-- point (main.tsx); of the backend the analyzer, the recommender and the poller, the executors and the
-- client of Elasticsearch, accounts and their tokens, the snapshots, and how a request is dispatched and
-- its values are converted; in the runner, progress texts and a cancellation before a task's first
-- step.
pub mod Prelude
pub mod Contract
pub mod Backend
pub mod Format
pub mod Api
pub mod Session
pub mod Routes
pub mod Clusters
pub mod Table
pub mod Indices
pub mod ShardMap
pub mod Overview
pub mod TopBar
pub mod ErrorBoundary
pub mod Users
pub mod Account
pub mod Nodes
pub mod Jobs
pub mod Rest
pub mod Settings
pub mod Examples
