-- ===== src/Lib.antt =====
-- generic-ml-cache: a record-or-replay cache for calls of machine-learning clients. A call is given a
-- key, the digest of what determines its answer; a run is recorded under its key, and a later call of
-- the key is answered from the store.
--
-- Prelude, Dict and Text hold what the components share: lists, Boolean tests on numbers, Python's
-- dict with text keys, and what the program uses of Python's text handling. The components:
--
--   Checksum     packages/core/src/generic_ml_cache_core/common/checksum.py
--   Domain       packages/core/src/generic_ml_cache_core/application/domain/model: execution, run,
--                usage; Domain.Identity the call identities and the keys they derive
--   Errors       packages/core/src/generic_ml_cache_core/common/errors.py, as far as it is raised or
--                caught by what is modelled
--   Repository   packages/core/src/generic_ml_cache_core/testing/in_memory_execution_repository.py:
--                the append-only executions of each key. Repository.Annotations has the tags, the
--                back-filled input and the repair worklist, Repository.Retention the purges and sizes
--   Sqlite       packages/adapters/src/generic_ml_cache_adapters/adapter/outbound/persistence/sqlite/
--                execution_repository.py: the same ports over relational tables. Sqlite.Tables has
--                the statements, Sqlite.Queries the reads, Sqlite.Annotations the tags and the
--                purges, and Sqlite.Log the log of runs that the tables stand for
--   World        the state behind the ports (repository, blob store, journal) and the environment
--   Service      packages/core/src/generic_ml_cache_core/application/usecase/
--                cached_ml_execution_service.py: execute and all that it calls. Service.Extension is
--                the record of the hooks that a concrete service overrides, Service.Artifacts builds,
--                stores and hydrates documents, Service.Serving answers from the store, and
--                Service.Running runs the client and records
--   Command      run_ml_execution_service.py beside it: the command, its identity, tags and cacheability
--                (Command.Identity, Command.Tags), the four ways to run a client (Command.Managed),
--                and the hooks that it gives to Service
--   Purge        purge_service.py beside it: purges by scope, and the evictions by age and by quota
--   Repair       repair_store_service.py beside it
--   Report       packages/core/src/generic_ml_cache_core/application/domain/service/session_report.py
--                and the service around it
--
--   Disk         the directory of a store and the calls of the file system, one step each; a process
--                can stop before any step
--   Encryption   packages/adapters/src/generic_ml_cache_adapters/adapter/outbound/crypto: the
--                migrations of store_encryptor.py over Disk, and in Encryption.BlobStore the blob
--                stores of encrypting_blob_store.py over World
--
-- A method that changes state is a function of the world that returns a result and the next world,
-- so what was written before a raise stays written. The service reads and writes executions through
-- the repository, bytes through the blob store, and one entry per resolution through the journal;
-- purge, eviction and repair work on the same world.
--
-- Below each component, child modules hold what is proved about it: Repository.Reachability the
-- states that the operations reach, World.Keeps and World.Frame the rules for invariants of calls,
-- World.Runs the rules for calls that return, and so on. Tests runs the definitions on small inputs.
--
-- Parameters: sha256, the clock, fresh identifiers, the health of the store, the faults of the disk
-- and of the database, and what a client answers are functions of the number of calls made so far.
-- Where a statement needs a port that does not fail, it says so by a hypothesis. The cipher and
-- base64 are records of operations, with what they document as laws; the runners of the clients
-- and the workspace are records of what they answer.
--
-- Bounds: a budget of Disk is not fuel but the number of steps until the process stops. The only
-- fuel is that of the decimal digits of a number n, n + 1 rounds, which is enough since each round
-- divides by ten. Every loop of the program is structural recursion over a list.
--
-- Not modelled: interleavings (the lock of a key and the lock of the store are held over a single
-- sequence of calls), diagnostics, the encoding and the cost fields, the validation of blob keys,
-- sharing of artifact lists between executions, faults of the database other than a row that cannot
-- be read or be marked as stored. Times are natural numbers, and the limits of an eviction are not
-- negative. Of the SQLite repository the text codecs of the columns, the sizes grouped by creation
-- time, driver faults and wildcards in a key prefix are left out. The file locks, the schema
-- migrations, the client adapters, the daemon and the command line are outside this development.
pub mod Prelude
pub mod Dict
pub mod Disk
pub mod Text
pub mod Checksum
pub mod Errors
pub mod Domain
pub mod Encryption
pub mod Repository
pub mod World
pub mod Sqlite
pub mod Service
pub mod Purge
pub mod Command
pub mod Report
pub mod Repair
pub mod Tests
