-- ===== src/Lib.antt =====
-- SyncVault: a verification of the core of the file synchroniser.
--
-- The program keeps folders on several nodes (disks, remote agents, Google Drive) equal. The engine
-- of internal/sync lists two nodes, compares their Merkle trees, and copies or deletes each file that
-- differs as the vector clocks of its recorded states say. Around it stand a registry of the nodes, a
-- domain model of jobs and their operations, a worker pool that runs them, locks over Redis, and a
-- rate limiter at the door.
--
-- What models what:
-- - Sync.Clock: internal/sync/vectorclock.go, VectorClock with Increment, Merge and Compare.
--   Counters are 64-bit and wrap.
-- - Sync.Files, Sync.Merkle: internal/sync/merkletree.go, BuildMerkleTree, RootHash and Diff. SHA-256
--   is a parameter, Digest, of which the form of its answer is assumed: 64 characters without a
--   colon. What rests on its strength ends in two different texts, one hashed
--   for each of the two trees, that have one digest. The recursion of buildLevel
--   runs on as much fuel as there are entries; each level halves their number.
-- - Sync.State: FileState, StateStore and the rules over states of internal/sync/engine.go
--   (isCurrent, deletedOnOther, checkNotWiped, updateState, markDeleted, observe); Sync.State.Memory
--   is InMemoryStateStore, and Sync.State.History tells its answers from its calls.
-- - Sync.Node: the Node interface of internal/sync/node.go with a contract for its methods, and
--   transfer. An operation may fail, and a failed write may leave anything at its own path. The
--   contract wants listings of distinct paths with hashes without a colon, as SHA-256 in hexadecimal
--   has none; internal/sync/adapters gives some files of Google Drive hashes with colons, and for
--   such a node the theorems over the contract say nothing.
-- - Sync.Paths: ResolveInside and the path of SimpleStorage in internal/sync/node.go, over what
--   path/filepath does on Unix. A path is given by its elements between slashes and by whether a
--   slash begins it.
-- - Sync.Remote: ComplexStorage of internal/sync/node.go over an interface of its API. list_recursive
--   runs on fuel, of which more than the folders are nested is enough. A name holds no slash.
-- - Sync.Pairs: internal/sync/pairs.go. The disk of this computer, the agents of the devices and
--   Google Drive are the record Surroundings. The errors do not name the paths. overlaps compares the
--   paths as texts.
-- - Sync.Engine, Sync.Session: Sync of internal/sync/engine.go. handle_path is the body of the loop
--   over differing paths with every branch, sync the whole method. A map is an association list, and
--   a range over it takes the order of the list. Times are numbers that the caller supplies.
-- - Sync.Registry: internal/sync/registry.go, NodeRegistry with all its methods;
--   Sync.Registry.History tells its answers from its calls.
-- - Domain.Operations, Domain.Jobs: internal/domain/aggregates/syncjob.go, the state machines of
--   FileOperation and SyncJob. Domain.Clock: internal/domain/valueobjects/vectorclock.go.
-- - Pool: internal/pool/worker.go as a step relation, in which the workers, the submitters and Stop
--   are interleaved at their atomic operations. The counters are unbounded, and the pool begins
--   after Start.
-- - Lock: internal/lock/distributed.go. Redis and its client are the interface Lock.Commands; a
--   script runs whole or not at all, and its answer may be lost. Lock.Redlock is the lock over a
--   majority of stores. The length of the delays between attempts, and the goroutine that extends a
--   lock, are left out: an extension may come at any step.
-- - RateLimit: internal/ratelimit/limiter.go, SlidingWindowRateLimit with its script. The sorted sets
--   of Redis are the interface SortedSets; a member is unique to its request, so a set is given by
--   its scores.
-- - Auth: the token service of internal/auth/jwt_service.go. The token library and Redis are
--   interfaces; a key of Redis may expire at any moment, a command may fail, and the answer of a
--   write may be lost. The random identifiers of the tokens are arguments, each with the failure of
--   its generation. An operation reads the clock once and runs without another in between.
-- - Pipeline: internal/pipeline/pipeline.go, Add and Execute. The type any is a pair of the code of a
--   type and a value of it, and a type assertion asks whether the codes are equal: the types of a
--   pipeline are concrete. With interface types an assertion may hold of other dynamic types.
-- - Sessions: internal/session/store.go with all its operations. Redis and bcrypt are interfaces; the
--   keys of the sessions and the lists of the users are two views of Redis.
-- - Errors: internal/errors/errors.go, AppError and the functions over chains of wrapped errors.
-- - Security.Limiter: internal/security/ratelimiter.go, the token buckets and Middleware up to the
--   call of the next handler. The user and the address of a request are arguments. The source
--   takes a token outside the lock of the limiter; here a request is answered before the next one
--   comes, and what two requests at the same time do to one bucket is not modelled.
--
-- Base holds what the parts share: Boolean tests and equality by instances, lists measured by native
-- numbers, Go maps as association lists, and texts. Tests holds nodes, stores and a digest in memory,
-- and the theorems at concrete data.
--
-- Not modelled: SyncAll, the run of the pairs, handlers, scheduler and the access to the local disk
-- in internal/sync; the services over databases, Redis, Kafka, gRPC, HTTP and OAuth, which mostly
-- call other systems; configuration, start-up, migrations and tools. Where the methods of a
-- shared structure hold its lock throughout, each is one step.
pub mod Auth
pub mod Base
pub mod Sync
pub mod Domain
pub mod Security
pub mod Lock
pub mod Pool
pub mod Sessions
pub mod Pipeline
pub mod Errors
pub mod RateLimit
mod Tests
