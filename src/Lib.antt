-- ===== src/Lib.antt =====
-- Verification library of the market data collector (src/crypto_collector).
--
-- The collector asks exchanges for data by REST jobs. A job waits in the scheduler until its time,
-- leaves by a route whose token bucket grants its cost, and is retried or given up as the retry
-- policy says; the interval between jobs is fitted to the token rate, and a controller moves it.
-- The modules follow these parts:
--
-- Shared: lists, results, keys, dictionaries and exact decimals that the parts share.
-- Network.Bucket models TokenBucket of src/crypto_collector/network/rate_limit.py: `try_acquire`,
--   `ready_at_ns`, `observe_available`, `shrink` and `set_refill_multiplier` take the bucket and
--   return it with their result. Bucket.Use has the sequences of uses, Bucket.Bounds and
--   Bucket.Grants the bounds, Bucket.Ready the instants.
-- Network.Budgets models BudgetRegistry of the same file, a dictionary of buckets; Budgets.First is
--   about `try_acquire_one`, through which the scheduler reaches the buckets.
-- Network.Retry models src/crypto_collector/network/retry.py: `classify_http`,
--   `parse_retry_after_ns`, `exponential_limit`, `full_jitter_ns`, `decide` and
--   `apply_quota_retry_effect`. Retry.Delay and Retry.Decision are about the delays and `decide`.
-- Network.Egress models EgressConfig of src/crypto_collector/config/models.py.
-- Network.Health models src/crypto_collector/network/health.py: the snapshots of health, and the
--   admissions of probes that are minted.
-- Network.Store models EgressStateStore of src/crypto_collector/network/state_store.py over two
--   dictionaries for its tables: `record_quota_restriction` for `record_ban` and `record_cooldown`,
--   the reports of probes, and in Store.Admission `admit_health`. Store.Revisions and Store.Stale are
--   about the revisions that make old probes stale.
-- Network.Assignment models src/crypto_collector/network/assignment.py: keys, `choose_egress` and
--   `assign_instruments`, and in Assignment.Pack `pack_egress_shards`. Assignment.Keys is about keys,
--   Assignment.Ranking and Assignment.Room about the ranking and the room of egresses,
--   Assignment.Fits about the assignment, Pack.Chunks and Pack.Shards about the shards.
-- Selection.Capacity models `admit` and the candidates of
--   src/crypto_collector/selection/capacity.py, and Capacity.Egress `calculate_egress_capacity`.
--   Capacity.Counts, Capacity.Admits and Capacity.Lowest are about `admit`: what it takes, when it
--   fails, and that it rejects the lowest candidates. Capacity.Exchange models
--   `admit_exchange_capacity`, the connections of an exchange among its scopes: Exchange.Rounds is
--   about the loop, Exchange.Shares about the admission of each scope, Exchange.Checks and
--   Exchange.Within about the result.
-- Scheduler.Interval, Scheduler.Controller, Scheduler.Queue, Scheduler.Submit and
--   Scheduler.Dispatch model src/crypto_collector/scheduler/rest.py: `solve_interval`,
--   IntervalController, the state and private methods of RestScheduler, `submit` for
--   `submit_nowait`, `next_ready` for `_next_ready`, and `pass` for one pass of the loop of
--   `next_ready`, up to its wait.
-- Scheduler.Cadence and Scheduler.Job model StableCadence, RestJob and RestDispatch of
--   src/crypto_collector/scheduler/models.py.
-- Storage.Resident models ResidentBudget of src/crypto_collector/storage/ingress.py, the account of
--   the bytes in memory: `reserve` and `release` return the budget, Resident.Balance and
--   Resident.Calls are about them.
-- Domain.Types, Domain.Json, Domain.Envelope and Domain.Paths model the drafts of events, their
--   sources and envelopes, and the encoding of instrument keys in src/crypto_collector/domain/.
-- Storage.Control and Storage.Record model the control requests, associations, accepted records and
--   results of src/crypto_collector/storage/models.py.
-- Storage.Association and Storage.Ingress model RawIngress of
--   src/crypto_collector/storage/ingress.py: Ingress.Accept is `try_accept`, Ingress.Drain `drain_one`
--   and `take_control_association`, Ingress.Replace `replacement_for_config`. Ingress.Outcome,
--   Ingress.Sound and Ingress.Order are about them: what a call can come to, when a state is sound,
--   and in which order records go through.
-- Examples: the theorems and the definitions at concrete inputs.
--
-- State is passed explicitly, and a method returns the state also when it raises. Exceptions are the
-- constructors of `Error`, without their texts. Values that the code rejects by their Python type
-- are outside the model: integers that must not be negative are naturals. Decimals are exact, since
-- the code chooses a precision at which no operation rounds. A heap is the sorted list of its
-- entries. The clock's reading, the random draw, the date parser, the
-- publisher, the digest, the encoders of JSON and the resolver of associations are arguments.
--
-- Fuel: `promote` and `scan` take one entry from a list in each round, and start with its length;
-- `bit_length` starts with the number itself, which each round halves; `chunks` takes an item or more
-- from a list in each round, and starts with its length; `allocate` gives away a connection in each
-- round, and starts with the number of those left.
--
-- Not modelled: the waiter, the records of interval changes beyond the fields that `activate` reads,
-- the opening, the closing and the schema of the state database, the selection but for capacity
-- admission, the writer,
-- the recovery and the manifests of storage, the configuration and benchmark packages, and the network
-- clients, which are input and output.
pub mod Shared
pub mod Domain
pub mod Network
pub mod Scheduler
pub mod Storage
pub mod Selection
pub mod Examples
