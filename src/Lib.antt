-- ===== src/Lib.antt =====
-- A model of muld, a library that downloads a file over several connections, and what it shows.
--
-- The program. A client asks the download manager for a download and gets a handle. The manager's
-- dispatcher finds the file behind the address, plans connections and chunks, and makes an engine for
-- the job, which it attaches to the handle. The engine hands work items to workers of a thread pool;
-- a worker streams a chunk to the output file and tells the engine, which counts, measures, limits the
-- rate, stores an image of the job beside the file, and calls the callbacks. A controller ticks over
-- all jobs and sets how many connections each should have. From an image a job can be loaded again.
--
-- What models which part (paths from the repository's root):
--   Types                  include/muld/muld.h: addresses, errors, states, events of the callbacks
--   Url                    src/url.cpp: `parse_url` is ParseUrl, `url_string` is GetUrlString
--   Disk                   src/writer.h (opening) and the files as the rest of the program uses them
--   JobImage               src/job_image.h: the bytes of an image, reading both formats, the update in
--                          place (`write_image`, `read_image_file`, `update_image`)
--   Chunk                  src/chunk_info.h, the chunk layout and BuildPendingWork
--   Connections            the counters of connections of DownloadEngine; Connections/Workers has the
--                          workers that EnqueueTasks, the thread pool and ConnectionGuard move
--   Rate                   the token bucket of DownloadEngine
--   Engine                 src/download_engine.cpp: the state of a job as one record. Engine/Storage has
--                          Store and CleanupArtifacts, Engine/Control has Pause, Cancel, Fail and the
--                          notifications of connections, Engine/Launch has the constructors, Start and
--                          Resume, Engine/Receive has NotifyChunkReceived; Engine/States has all
--                          operations as steps, those on the counters or the rate alone by what they change
--   Controller             src/connection_controller.cpp: `tick` is Tick, `remove` is Remove
--   Manager                src/muld_download_manager.cpp: planning and redirections; Manager/Load has the
--                          dispatcher's branch for loaded jobs, Manager/Requests has Download, Load, the
--                          queue and the rest of the dispatcher (`serve` is one round of its loop),
--                          Manager/Control has EnqueueTasks and a round of ConnectionControlLoop, and
--                          Manager/Terminate has Terminate
--   Handler                src/download_handler.cpp: the handle before and after its engine is there
--   Downloader             src/downloader.cpp: `stream_body` is StreamBodyToDisk, from the reads it gets;
--                          Downloader/Request has BuildRequest and ValidateResponse, Downloader/Worker
--                          has DownloadWorker (`download_chunk` is the inner loop, `download_items` the
--                          outer one), and Downloader/Fetch has FetchFileInfo
--   ThreadPool             src/threadpool.h: the queue of tasks
--   Cli                    src/muld_cli_async.cpp and src/muld_cli_polling.cpp: Cli/Arguments and Cli/Speed
--                          read the command line, Cli/Text has file names and times, Cli/Bar the two
--                          progress bars, Cli/Active the tables and lines of the running chunks
--   Prelude, Outcome       shared: lists, integers, tables and bytes on the native numbers, how a call
--                          of a method ends
--
-- Conventions. `std::size_t` and `std::uint64_t` are natural numbers with their wrap-around written
-- out; `int` is an unbounded integer, since all of them stay near numbers of connections; `double` and
-- `float` are a record of operations without laws (Prelude/Floats), of which `milli` is an instance for
-- the tests. The quotient in ComputeMaxConnections is an integer one, exact below 2 ^ 51. An exception
-- and a read through a null pointer are outcomes of a call. Clocks and the server's answers are
-- arguments. One operation is one step; what other threads do is in the sequences of steps. Loops over
-- an atomic exchange are one exchange. The loop of AcquireReadBudget runs over a list of rounds, that
-- of the controller's lowering takes the excess as fuel (each round that goes on lowers it), and that
-- over redirections the number of redirections left. The loops of a worker run over lists, of the work
-- items that it gets and of the attempts at a chunk; an attempt holds what the connection, the server and
-- the disk do in it, and a worker whose list is used up is one that waits for the next answer.
--
-- Not modelled: HTTP and TLS themselves, which are Boost's and not in the repository (their responses,
-- bytes and exceptions are arguments); locks, condition variables and the start and end of threads, with
-- WaitAll and WaitUntilFinished beyond the question whether the latter returns at once; the logger; the
-- printing of the two command line tools, with FormatBytes and the loops that redraw; and the positioned
-- write of Windows, which is a seek and a write.
mod Prelude
pub mod Types
mod Outcome
pub mod Url
pub mod Disk
pub mod JobImage
pub mod Chunk
pub mod Connections
pub mod Rate
pub mod Engine
pub mod Manager
pub mod Handler
pub mod Downloader
pub mod ThreadPool
pub mod Controller
pub mod Cli
