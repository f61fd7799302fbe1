-- ===== src/Lib.antt =====
-- autodngconverter: models and proofs of the RAW import service of src/.
--
-- The service watches a directory for RAW photographs and converts each to DNG.
--   - The worker (src/worker.cpp) polls the directory, queues fresh files, and several threads take
--     them from the queue, hash them, convert them, record them and archive the source.
--   - The store (src/db.cpp) holds imports, sequence numbers and processing locks in MariaDB.
--   - The converter (src/converter.cpp) runs dnglab as a child process.
--   - The rotation manager (src/rotation.cpp) collects orientation intents and writes them with exiftool
--     after a grace period, under a processing lock.
--   - The exiftool daemon (src/exiftool_daemon.cpp) is a child process that reads capture dates.
--   - Reconciliation (src/reconcile.cpp) records outputs that the store does not know, at the start.
--   - The HTTP interface (src/api.cpp) shows and changes imports.
--   - Configuration (src/config.cpp), utilities (src/util.cpp), the data model (src/pipeline.h) and
--     metrics (src/metrics.cpp) serve all of these.
--
-- Files and code
--   Base                shared library: tests, lists, maps, byte texts, signed integers, decimals.
--   Util/Trim           trim of src/util.cpp.
--   Util/SplitSql       split_sql of src/util.cpp, the reader of migration files.
--   Util/Move           move_file of src/util.cpp, for POSIX.
--   Util/Env            load_dotenv, env_or and env_bool of src/util.cpp.
--   Config              src/config.h and src/config.cpp.
--   Util/Token          random_token and secure_random_token of src/util.cpp.
--   Pipeline/Types      src/pipeline.h; Pipeline/Schema is build_folder_schema of src/pipeline.cpp.
--   Pipeline/Digest     to_hex, sha256_bytes and sha256_file of src/pipeline.cpp.
--   Pipeline/Fingerprint fnv1a_64 and compute_fast_fingerprint of src/pipeline.cpp.
--   Pipeline/Mtime      exif_from_mtime of src/pipeline.cpp and file_mtime_tm of src/util.cpp.
--   Pipeline/Thumbnail  the search of extract_thumbnail of src/pipeline.cpp.
--   Worker/State        Worker::Impl and the number of threads that Start makes.
--   Worker/Poll         PollLoop, cleanup_seen_ttl and the taking of a file in WorkerThread.
--   Worker/Cache        evict_fp_cache.
--   Worker/Machine      the calls of a worker and the interference of other threads.
--   Worker/Process      ProcessFile, move_to_dead_letter and release_inflight.
--   Worker/Reconvert    ReconvertDrain.
--   Worker/Lifecycle    Start and Stop: the threads and their joins.
--   Worker/Threads      the steps of the threads on the shared state.
--   Rotation            RotationManager: Queue, the dispatch loop, Dispatch and Stop.
--   Converter           run_timed, shell_quote, ResolveEngineBinary, the two engines, the factories.
--   Exiftool            ExifToolDaemon: send_command, extract_date and stop of
--                       src/exiftool_daemon.cpp; Exiftool/Start is start, as the parent sees it.
--   Api/Json, Api/Query json_escape, record_to_json, json_get and parse_query of src/api.cpp.
--   Api/Request         the reading and the parsing of a request, and the token, in handle.
--   Api/World           the answers, the state and the texts of handle; Api/Routes its routes.
--   Api/Respond         send_response; Api/Listener is Run and Stop.
--   Reconcile           ReconcileLibrary of src/reconcile.cpp.
--   Metrics             Metrics: counters, histograms and Render.
--   Db/Server           PreparedStatement, exec_select and the statements; Db/Rows the decoding of rows;
--                       Db/Sequence AllocateSequence; Db/Lock the processing locks; Db/Listing
--                       GetStats, ListImports and Ping; Db/Migrate Migrate; Db/Connection Open, Close
--                       and CreateConnection, with the attempts of a worker thread; Db/Writes which
--                       statements change the database; Db/Operations the other statements.
--   Service             src/main.cpp.
--   PreviewEmbed        src/tools/dng_previewembed.cpp, on a map from paths to contents.
--   DngEmbed            src/dng_previewembed.cpp; the DNG library is given.
--
-- Conventions
--   Texts are lists of bytes. Calls of the system, of the server and of other parts are answered by a
--   parameter that sees the history of all calls, so an answer may change at any time; the history is
--   the record that the theorems speak of. Shared state that a mutex guards may be changed by the other
--   threads whenever the lock is taken. Identifiers, sizes and clock readings are natural numbers;
--   orientations and C++ int settings are signed, with the bounds of 32 bits
--   in the parser. Durations of metrics are whole numbers of microseconds,
--   and their sums are kept as the summands. The printing of a number
--   takes fuel, one more than the number, which exceeds its digits; the eviction of the cache takes
--   its length, the copy loop the size of the file, and the query parser and the search for a
--   thumbnail the length of their text; the reading of a request takes one more than its bound of
--   65536 bytes, the sending of an answer and the digest of a file the length of the text and one more,
--   and the wait for a signal as many readings of the flag as it needs. Maps are association lists, and the order of a C++ hash map is
--   the order of the list.
--
-- Not modelled
--   The Windows branches, logging, the child side of the fork in src/exiftool_daemon.cpp,
--   ensure_dir and touch_mtime of src/util.cpp, which are single calls of the system, the hash
--   function behind SHA-256, the server and its client library, the DNG library, the schema in SQL, the
--   script in Lua, and the code of other projects (src/vendor).
pub mod Api
pub mod Base
pub mod Config
pub mod Converter
pub mod Db
pub mod DngEmbed
pub mod Exiftool
pub mod Metrics
pub mod Pipeline
pub mod PreviewEmbed
pub mod Reconcile
pub mod Rotation
pub mod Service
pub mod Util
pub mod Worker
