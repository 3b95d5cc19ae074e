-- ===== src/Lib.antt =====
-- ClearFeature: a feature platform (`src/fintech_feature_platform`, "fs_core" below is its folder of
-- that name). A registry declares views of features over raw sources. The compute core computes the
-- requested features of an entity, each with the times of its inputs. Results go to an online store,
-- which keeps the latest value behind a write guard, and to an append-only offline history, which
-- training data is read from as of a point in time.
--
-- Which file models which part, with the program's names in its spelling:
--   Prelude        the shared names: lists, dictionaries, texts, calls that may raise
--   Domain         fs_core/models.py; Domain/KeyCodec: fs_core/keycodec.py; Domain/WriteSet: the
--                  `FeatureWriteSet` of models.py
--   Json           the values of Python's json module, how a record's fields are written and read
--   Events         fs_core/events/models.py, a module for each event
--   Raw            fs_core/raw/meta_repository.py with `RawReportMeta` (Meta), overlay.py and
--                  report_resolver.py (Loader)
--   FeatureStore   fs_core/feature_store.py, over Compute, Raw, Dedup and both stores (Recompute for
--                  the recompute from offline values; Prefilled and NoLeakage hold its theorem)
--   Promotion      fs_core/registry/promotion.py (Moves for `promote` and `rollback`, Forms for JSON)
--   WriteGuard     fs_core/write_guard.py; Online: fs_core/stores/online.py, which calls it
--   Offline        fs_core/stores/offline.py; Pit: fs_core/pit.py and `get_pit`
--   Training       fs_core/training.py, over Offline and Pit
--   Consistency    fs_core/consistency.py, over Online and Offline
--   Dedup          fs_core/dedup.py, over Offline
--   Registry       fs_core/registry/models.py (States, Features, Views) and
--                  fs_core/registry/validator.py (Validator; Graph holds its theorems)
--   Planner        fs_core/planner.py
--   Compute        fs_core/compute/context.py and udf_registry.py (Context), engine.py (Derive for
--                  the metadata, Resolve for `_resolve` and `compute`)
--   Propagation    fs_core/propagation.py: the debounce store, and in Wave the update events and the
--                  planner of recompute waves
--   BatchStatus    fs_core/stores/batch_status.py
--   RequestStatus  fs_core/stores/request_status.py: the status, its JSON form (Forms), and what the
--                  in-memory store gives back (Reads)
--   BatchControls  api/batch_controls.py
--   Samples        small inputs for the tests
--
-- How the code is read. A dataclass is a record, and its `__post_init__` a function that makes the
-- record or raises; an exception is an error value that names the check, without its message text. An
-- object that changes is passed as an argument and returned. A dict is an association list in
-- insertion order (Prelude/Dictionary), a set a list that is tested for members. An aware datetime is
-- its instant, a natural number of microseconds; a raw datetime argument may be naive, and a timedelta
-- is an integer. Versions, counts and ages are natural numbers. The clock is an argument.
--
-- What is outside is a parameter: the values of features, with their equality and JSON text, source
-- loaders, UDFs and the hashes of values and inputs (SHA-256 over JSON). Values with one JSON text
-- need not be equal: NaN is not equal to itself.
--
-- Recursion over the dependencies of features (`_depth`, `_visit`, `_resolve`) is on fuel, one more
-- than the number of features of the view: the names that are being visited are distinct names of
-- the view, so a deeper call would be a cycle, which the code reports first. Theorems below say that
-- the fuel never runs out. `visiting` is restored when a call returns, so each call is passed its own.
--
-- `to_dict` makes, and `from_dict` reads, a JSON value (Json); the text that `json.dumps` makes of it,
-- with its keys sorted, is not modelled. `isoformat` and `fromisoformat` are an interface
-- (Json/Times): the law that parsing gives the time back is Python's documentation. A record's field
-- has a type, so a JSON field of another type, which Python stores as it is, is an error of the model.
--
-- Times, rates and counts of tokens in BatchControls are natural numbers in place of floats, in units
-- that make them exact.
--
-- Not modelled: the Postgres, Valkey, MinIO and Kafka adapters, the HTTP API, the workers around them,
-- the command line, files and metrics, since they are I/O; hashing, security checks, the stores of
-- results, datasets and metadata, and the JSON form of a batch job.
pub mod Prelude
pub mod Samples
pub mod Domain
pub mod Json
pub mod Events
pub mod Promotion
pub mod Raw
pub mod FeatureStore
pub mod BatchControls
pub mod WriteGuard
pub mod Online
pub mod Offline
pub mod Pit
pub mod Registry
pub mod RequestStatus
pub mod BatchStatus
pub mod Dedup
pub mod Consistency
pub mod Planner
pub mod Compute
pub mod Propagation
pub mod Training
