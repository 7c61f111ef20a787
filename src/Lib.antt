-- ===== src/Lib.antt =====
-- A model of debugsymd, a symbol server that answers the Microsoft symbol-server and debuginfod
-- protocols from the debug files of a Sentry installation, and the theorems on it.
--
-- A request goes from httpapi/ (the route and its answers) through symstore/ (the path's grammar) to
-- objects/ (fetching and caching), which asks resolver/ where the bytes are, reads them from
-- storage/, keeps them in diskcache/, and wraps them by cab/ when the client asked for a compressed
-- form. The files:
--   * Base and its children: the names that every module shares, Boolean tests on numbers, lists,
--     results. GoStrings: what the source uses of the strings package. A string is the list of its
--     bytes. ASCII is computed; what the Unicode tables do to other text is an instance argument.
--   * Symstore: symstore/. Constants is constants.go, DebugId is debugid.go (normalizePDB is
--     normalize_pdb, elfDebugID is elf_debug_id, normalizeUUID is normalize_uuid) and Parse is
--     parse.go (Parse is parse, baseIdentity is base_identity, uncompressLeaf is uncompress_leaf). A
--     pair of a value and a Boolean is an option. Their children hold the proofs.
--   * Resolver: resolver/resolver.go, and Resolver/Sentry: resolver/sentry.go (pick, quality,
--     storageKey, Lookup). The sort, the HTTP client and the JSON decoder are parameters.
--   * Cab: cab/. Constants is constants.go, Mszip is mszip.go (block), Writer is writer.go (Write is
--     write_cab, streamBody is stream_body). Out is the file that Write writes to: its contents, its
--     position, the faults of the operations to come, and errWriter's error; a Reader is the bytes
--     to come and how the input ends. Layout is the cabinet as the format's description has it, and
--     Extract is a reader of cabinets; neither is part of the program.
--   * Httpapi: Handler is httpapi/handler.go (the symstore route), Debuginfod is
--     httpapi/debuginfod.go and Form is httpapi/path.go. Service puts the object service behind the
--     routes, as main.go does. Mux has the patterns of httpapi/server.go, Response is
--     httpapi/response.go (statusRecorder), Metrics is httpapi/metrics.go (withMetrics is
--     with_metrics), and Server has the handlers of the two listeners.
--   * Dict: association lists with byte strings as keys, and sums over them. World: the file system
--     below the cache (files with their modification times, directories), the clock, the counters and
--     the two gauges of metrics/metrics.go, and which of the calls to come fail; World/Steps says what
--     a chain of calls did from how it ended. Every operation of the cache and of the service is a
--     function of a world and returns a result and a world.
--   * Diskcache: diskcache/key.go. Diskcache/Entries is diskcache/cache.go (Lookup is lookup, Commit
--     is commit, and lookup_at and commit_at are these behind the computation of the path) and
--     Diskcache/Sweep is walk.go, size.go and eviction.go (Evict is evict, SeedMetrics is
--     seed_metrics). Diskcache/Gauges compares the gauges with the entries, Diskcache/Places tells
--     the places of entries and staging files apart.
--   * Objects: objects/service.go and constants.go (Fetch is fetch, produceOnce is produce_once), and
--     Objects/Synth: objects/synth.go (FetchCompressed is fetch_compressed). The resolver, the store
--     and, under each key, the call that singleflight has in flight are parameters: a caller that
--     joins a call finds the world as that call left it. Objects/SourceBundle is sourcebundle.go
--     (SourceFile is source_file, normalizeSourcePath is normalize_source_path), with the reader of
--     zip archives and the decoder of JSON as parameters. The other children hold the proofs.
--   * System: the calls of diskcache/ and objects/ as the steps of several requests, sweeps and
--     restarts on one cache directory, in any order. The steps are not part of the program:
--     System/Fetches compares FetchCompressed with runs of them.
--   * Storage: storage/s3.go (Fetch is s3_fetch), with GetObject as a parameter, and the service with
--     Sentry and S3 behind it.
--   * Config: config/config.go. Startup: main.go (run, setupLogging) and ReadBuild of
--     metrics/metrics.go.
--   * Tests: runs on the inputs of the program's own tests, and the theorems at concrete inputs.
--
-- The numbers are natural numbers with the cut of a conversion written out: words of 16 and 32 bits
-- in the cabinet, the 16-bit block count, the byte that uncompressLeaf replaces. The size that Write
-- is given is an integer. Sizes of 64 bits do not overflow below the size of a folder, 2 ^ 31 bytes
-- nearly, and are not cut. The loop of streamBody runs on fuel: one round for each 32 KiB of input
-- and one more, which is enough since every round but the last takes 32 KiB.
--
-- The cache's root is taken to be a clean path, os.CreateTemp to give a name in the staging
-- directory, which theorems that need it say is not in use, and os.Remove, os.Rename, os.MkdirAll and
-- os.Chtimes to change nothing when they fail. A walk of the cache visits its directories and then
-- its files, by the names that are there when it starts. A fetch runs without a call of another
-- request or a sweep in between; System has these in between, for the contents of the entries. A
-- nil dereference is an answer of its own, not counted by the metrics.
--
-- Not modelled: net/http and the AWS client; the deadlines of the servers; logging, the histograms of
-- durations and the timestamp of the last eviction; the gauges where a commit comes in the middle of
-- a sweep; a write to the staging file that fails while the body of an S3 object is copied; the
-- parser of the command line, and a negative -cache-max-unused-for.
-- compress/flate is a parameter of the writer, SHA-256 one of the cache's keys.
pub mod Base
pub mod GoStrings
pub mod Dict
pub mod World
pub mod Objects
pub mod Storage
pub mod System
pub mod Startup
pub mod Resolver
pub mod Symstore
pub mod Cab
pub mod Httpapi
pub mod Diskcache
pub mod Config
pub mod Tests
