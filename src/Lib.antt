-- ===== src/Lib.antt =====
-- paradown: a verification library for the download manager.
--
-- The program downloads payloads over HTTP, FTP and BitTorrent. A request names a payload (a
-- specification) and its sources. Preparing a task asks the origin for the size, builds a manifest
-- (files, pieces and blocks), and settles what a file that is already there is worth. The planner
-- then cuts the pieces into lanes; a worker fetches each lane and writes it to the payload's files.
-- The task collects its workers' progress into block and piece states, verifies checksums at the
-- end, and saves rows in a repository, from which the next run of the program restores it. A
-- manager starts, queues and stops the tasks within a number of permits.
--
-- Modules, and the sources that they model:
--
--   Prelude        words, lists, sorting and tilings that the others share
--   Failure        src/error.rs (the errors that the modelled code makes) and results
--   Status         src/status.rs
--   Domain         src/domain/http.rs, spec.rs and source.rs
--   Checksum       src/checksum.rs, src/payload/verifier.rs
--   Piece          src/domain/piece.rs
--   Manifest       src/domain/manifest.rs
--   Planner        src/scheduler/planner.rs
--   Payload        src/payload/file_map.rs and store.rs
--   Requests       src/request/task.rs and segment.rs, the data of src/p2p/engine.rs
--   Storage        src/repository/models.rs, src/storage/mapping.rs; Storage/Contract:
--                  src/repository/contract.rs; Storage/Service: src/storage/mod.rs;
--                  Storage/Abstract: what the store promises
--   Recovery       src/recovery.rs
--   Job            src/job/mod.rs; Job/Lanes: src/job/workers.rs; Job/Prepare:
--                  src/job/prepare.rs and finalize.rs, src/discovery/origin.rs
--   TaskState      src/job/state.rs and `start` of src/job/mod.rs
--   Coordinator    src/coordinator/mod.rs, queue.rs and events.rs; Coordinator/Registry:
--                  src/coordinator/registry.rs and `Task::new`
--   Repository     src/repository/memory.rs; Repository/Json: src/repository/json_file.rs
--   Worker         src/worker/mod.rs, and the state of a worker; Worker/Retry: src/worker/retry.rs;
--                  Worker/Driver: src/transfer; Worker/Round and Run: src/worker/runtime.rs
--   Events, Stats  src/events.rs, src/stats.rs
--   Probe          src/protocol_probe.rs, src/discovery/origin.rs
--   Swarm          src/p2p/magnet.rs; Swarm/Provider: src/p2p/provider.rs; Swarm/Files:
--                  src/p2p/manifest.rs
--   Config         src/config.rs, with the options of src/domain/http.rs and src/p2p; Config/Env and
--                  Overrides: what it reads from the environment
--   RateLimiter    src/rate_limiter.rs
--   Text           what these use of the language's strings
--   Examples       the theorems at concrete inputs, and tests of the definitions
--
-- Names and fields are the source's. A method becomes a function from the state to the state and
-- the result; an early return is an `if` or a match; the body of a loop and the steps of a long
-- function are functions of their own, named in the comments.
--
-- Machine words: u32, u64 and usize (64 bits) are natural numbers. `+`, `*` and `as` are written
-- out modulo 2^32 and 2^64, as the release profile computes; saturating operations stop at the
-- ends of the type. Paths are texts, bytes are numbers, and times are numbers.
--
-- Loops: those over lists are structural. The loops of the piece and the block plan, which count
-- up to a size, run on fuel: the size itself, which suffices since each round goes ahead by at
-- least one byte. The search for a free id runs on the number of tasks, which suffices since each
-- task takes one number at most. The mutual recursion of spawning queued tasks runs on the length
-- of the queue, which suffices since each round takes one action off.
--
-- Parameters stand for what is not in the repository: the URL parser, the JSON decoders, the
-- digests, the file system and the store with what they answer, the clock, and what a request to
-- the origin or the torrent engine gives. A call of the manager or a task is one transition: what
-- runs at the same time between two of its awaits is not modelled.
--
-- A run of a worker takes the list of its attempts: how each is answered, what is called before
-- each check and while the worker is paused, and the time. The proof that it ends gives one attempt
-- more than there are retries. The file system answers the writes of the JSON repository from a list
-- in its state.
--
-- Not modelled: the sockets and the torrent engine, the SQL repository, the providers that fetch
-- lists of trackers, the choice of file names, the decoding of the configuration file, the command
-- line, and what is only printed.
pub mod Prelude
pub mod Text
pub mod Failure
pub mod Status
pub mod Domain
pub mod Checksum
pub mod Piece
pub mod Manifest
pub mod Planner
pub mod Payload
pub mod Requests
pub mod Storage
pub mod Recovery
pub mod Job
pub mod TaskState
pub mod Coordinator
pub mod Events
pub mod Stats
pub mod Worker
pub mod Probe
pub mod Swarm
pub mod Repository
pub mod Examples
pub mod Config
pub mod RateLimiter
