-- ===== src/Lib.antt =====
-- Lopata runs Cloudflare Workers locally: a request is dispatched to a worker by route and host, and
-- the bindings that a worker uses (queues, key-value stores, cron triggers, ...) are implemented over SQLite
-- tables and in-memory objects. This library models the parts of the program that hold its state
-- and decisions, each from its source file, and proves what makes them correct.
--
-- The parts meet through data only: the dispatcher picks a worker before any binding runs, producers
-- and consumers of a queue share the two queue tables, and every part reads a clock that is an
-- argument here. Every function is total; loops are recursions on the list that they walk, so no
-- fuel is needed unless a part below says so.
--
-- Common: Boolean tests on numbers, lists measured by native numbers with predicates that hold of
--   all or of every two elements, membership, and JavaScript strings as lists of UTF-16 code units.
-- RouteMatcher (src/route-matcher.ts): extractPathPattern, matchRoute, extractHostname, matchHost,
--   hasWildcardHost and segmentCount are extract_path_pattern, match_route and so on. The child
--   Dispatcher is the class RouteDispatcher: its record has the fields routes, sorted and fallback,
--   and addRoutes, addHostWorker, removeWorkerRoutes, resolve and getRegisteredRoutes are functions
--   from dispatcher to dispatcher; History runs a list of such calls. The comparison function of
--   the sort returns a sign; the sort is the stable insertion sort, to which every stable sort by a
--   consistent comparison is equal. A manager is a number that stands for its identity. Warnings on
--   the console are left out.
-- Queue (src/bindings/queue.ts, with its tables in src/db.ts): Queue has the rows of the tables
--   queue_messages and queue_leases and the UPDATE statements; Bodies is encodeBody and decodeBody;
--   Producer, Consumer and PullConsumer are the three classes. SQL's ORDER BY leaves ties open,
--   and the model takes the order of insertion. A poll is poll_begin up to the call of the user's
--   handler and poll_end after it, so that anything can happen to the tables in between; what the
--   handler did is an argument, a list of calls and whether it threw. Bodies that are no bytes go
--   through parameters for JSON and String with the UTF-8 codec. UUIDs are arguments. Delays in
--   seconds are whole numbers; a negative one is modelled where the code checks it (send), and
--   delays of retries are taken to be non-negative.
-- WebSocketPair (src/bindings/websocket-pair.ts): CFWebSocket is a record of its ready state, whether
--   it was accepted, its queue and the events that its listeners were called with; an operation of a
--   socket takes the pair and the side that it is called on. Channel is the abstract view.
-- Kv (src/bindings/kv.ts, with its table in src/db.ts): Kv has the limits, the validation, get,
--   getWithMetadata, put and delete, and its children Bulk and Listing the bulk reads and list. Keys
--   are in UTF-8, as SQLite holds and orders them (Keys has the encoder); times are in thousandths of a
--   second. JSON.parse, JSON.stringify and the decoder of UTF-8 are parameters. A client that lists
--   page by page runs on fuel, and as many pages as there are rows, and one, are enough.
-- AwsChunked (src/s3/chunked.ts): the state of decodeAwsChunked is a record of the state machine, the
--   buffer and the chunks that the reader will give; round is one round of the loop in pull, and
--   read_all the reads of a client, on fuel: the theorem gives a fuel that is enough.
-- Scheduled (src/bindings/scheduled.ts): Calendar has the helpers on dates, over the Gregorian calendar;
--   Tokens and Fields parse a field into matchers, which are data and not closures; Crons is parseCron and
--   cronMatchesDate; Timer is startCronTimer, where a tick takes the Map of last fired minutes and
--   gives the invocations. The loop of a step runs on fuel, the last value and two rounds more, which is
--   enough for a step of at least 1; running out stands for a loop that does not end.
-- Generations (src/generation.ts, src/generation-manager.ts): a Generation is a record of its state, its
--   registry and what its worker thread counts. Manager has the methods of GenerationManager and its
--   timers; Steps lets events come in any order: requests for reloads, their ends, the ends of grace
--   periods, the dashboard's drains and stops, and work in a worker. Core is what every step keeps. The
--   calls that resume workflows are a list, the last one first. Routing is `_dispatchFetch`, with the
--   functions of src/bindings/static-assets.ts that it asks, and Triggers the other calls.
-- R2 (src/bindings/r2.ts, with its tables in src/db.ts): R2 has the rows, the files, conditions and ranges;
--   Objects is put, get, head, delete and the tags of FileR2Bucket, Multipart is R2MultipartUpload, Listing
--   is list, with SQLite's LIKE. A Store has the three tables and the files, which are known by the
--   segments of their paths (Paths has the `join` of node:path). A body reads its file when it is asked to.
--   MD5 and the size of metadata as JSON are parameters, columns with JSON are held as what they encode, digests
--   that a caller gives are hexadecimal strings, and calls of the file system succeed; a stream may reject a read, after
--   which its file holds what was written by then. A client that lists page by page runs on fuel, and as many pages
--   as there are rows, and one, are enough.
--
-- Not modelled: timers and the event loop beyond the steps above, tracing spans, console output, the
-- dashboard, the command line and the Vite plugin (user interface and wiring), the bindings that
-- forward to services or processes outside the repository, and the worker threads with their bridges.
-- Workflows, Durable Objects, the Analytics Engine with its SQL, the files of static assets, the cache
-- and the S3 proxy have state of their own and are left out.
pub mod Common
pub mod RouteMatcher
pub mod Queue
pub mod WebSocketPair
pub mod Kv
pub mod AwsChunked
pub mod Scheduled
pub mod Generations
pub mod R2
