-- ===== src/Lib.antt =====
-- The server of Tallei, a memory shared between AI assistants: how it calls the providers it
-- depends on, and the parts of it that keep state over many requests.
--
-- * Resilience (src/resilience) guards every call of a model, a vector store or a reranker.
--   Resilience/CircuitBreaker is circuit-breaker.ts: a record of the private fields of
--   `BasicCircuitBreaker`, with a function for each method; `execute` is cut at its `await`
--   into `admit` and `settle`, between which other calls run. Resilience/Retry is retry.ts:
--   the `while (true)` of `retry` is `retry_rounds`, on `maxRetries + 1` rounds, one for each
--   call of the operation that the policy allows. Resilience/Policy is timeout.ts and
--   policy.ts: a timeout around each call, retries around those, the breaker around all.
--   Resilience/Policies is the tables of policies.ts.
-- * Ingest (src/services/uploaded-file-ingest-jobs.ts) is the queue of uploaded files that
--   wait to become documents, a table from which several workers claim rows. The functions
--   are named as in the source; a SQL statement is a function on the list of rows. The
--   migrations of src/infrastructure/db/index.ts put interrupted jobs back, as
--   `reset_processing`. The reset is a step of its own, at any time.
-- * Collab (src/services/collab.ts) is the tasks on which ChatGPT and Claude work by turns:
--   the table `collab_tasks` as the list of its rows, and the cache of the process.
--   Collab/Cache has the cache and `getTask`, Collab/Turns the creation of a task and the
--   claim of a turn, Collab/Submit the submission of a turn, `finishTask`,
--   `extendIterations`, `deleteTask`, `attachUploadedFilesToTaskContext` and the
--   `attachPlanToTaskContext` of src/services/orchestrator.ts, Collab/Listing `listTasks`. A
--   request runs from its start to its end; the update that takes a turn is one SQL
--   statement. Collab/Board is the specification, what matters of the table for the turns,
--   and Collab/Submission the refinement; Collab/Requests makes one step of all operations,
--   for the modules on runs of them. What `submitTurn` reads off the content, the documents,
--   artifacts and evaluation, comes in with the turn.
-- * OAuth (src/infrastructure/auth/oauth-tokens.ts) is the validation of access tokens,
--   through a cache in the process and one in Redis, and their scopes. OAuth/Redis has the
--   interface to Redis, with the law that it documents, and the validation: `look_up` is its
--   part that reads, `publish` and `keep` write to Redis and to the process, and each has its
--   own readings of the clock. OAuth/Histories runs them in any order, for any number of
--   calls, and OAuth/Freshness is on these runs; the lookups of one call run together. the
--   table of tokens is a function of the time.
-- * RateLimit (src/transport/http/middleware/rate-limit.middleware.ts and, for the increment,
--   src/infrastructure/cache/redis-cache.ts) is the middleware that counts requests, in the
--   process and in Redis.
-- * Memory (src/infrastructure/repositories/memory.repository.ts and
--   src/orchestration/memory) is the memories of the users. Memory/Repository has a function
--   for each SQL statement on the table `memory_records`, the list of its rows.
--   Memory/Patterns matches the regular expressions by which Memory/Classify,
--   memory-classification.ts, tells kinds of memories. Memory/Save and Memory/SaveMemory are
--   save.usecase.ts up to its answer, Memory/Pages is list.usecase.ts, Memory/Cache the cache
--   of recalls of src/services/memory.ts, Memory/RecallMemory recall.usecase.ts in front of
--   it, and Memory/Service the functions of that file, and delete.usecase.ts, on the table
--   and the cache together. The new id, the hash and the encryption of a text, and what the
--   model, the vector search, Redis and the quota answer, come in with the request; a hit of
--   the search says whether its score is high enough. Rows that tie in an ORDER BY keep the
--   order of the list, in every query alike. The two writes of a save whose failures the code
--   swallows, the deletion over the quota and the superseding of preferences, always succeed
--   here.
--
-- * Recall (src/infrastructure/recall/bucket-recall.ts and scoring-utils.ts) is what is
--   recalled for a query, in three buckets under budgets of tokens. Recall/Queries has the
--   words of queries and texts, Recall/Scores the scores with BM25, Recall/Buckets the
--   packing, the hybrid search and the buckets, Recall/Results the block of text and the
--   hints at conflicts. A double is of any type with the operations that the code uses; what
--   the embedding and the vector search answer is a function of the query, and so is the
--   decryption of its ciphertext. The lower case of a text is that of its ASCII letters.
--   `sort` is stable, and its comparators here are consistent. The clock is read once for one
--   recall.
--
-- * Embedding (src/infrastructure/cache/embedding-cache.ts) is the cache of embeddings in the
--   process, and the map of the requests on their way. `embedText` is cut at its `await` into
--   `embed_text` and `embedding_answered`; Embedding/Limits and Embedding/Sharing are on runs
--   of them, with the calls that the provider has yet to answer.
--
-- * Common has the names that all parts share: Boolean tests on numbers, predicates on lists,
--   tables with their updates, texts, and how a promise settles.
--
-- Times are milliseconds since some start, as natural numbers, and each reading of a clock is
-- an argument. A random draw is an argument or a step of a runtime record. Numbers in the
-- source are doubles: the ones here are natural numbers of a size where doubles are exact.
-- Strings are compared by their code units. What a service, a database driver or a model
-- answers is an argument too, and so is the point where an operation fails.
--
-- Not modelled: the failures of the database itself, logging and metrics other than the hooks
-- of the composed policy, and the parts of the repository that only render, translate or
-- configure: the dashboard, the browser automation, the HTTP routes and the schemas that check
-- their bodies.
mod Common
pub mod Resilience
pub mod Ingest
pub mod Collab
pub mod OAuth
pub mod RateLimit
pub mod Embedding
pub mod Memory
pub mod Recall
