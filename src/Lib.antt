-- ===== src/Lib.antt =====
-- Laguna is an in-memory key-value database with a write-ahead log and replication from a master
-- to slaves. Clients send lines (SET, GET, DEL); a line is parsed to a query, the query is logged
-- unless it is a GET, and then it is executed on a map that is cut into shards. At the start the log
-- is read and its queries are executed again. The log is a directory of segment files; rows are
-- appended to the newest one, which is rotated when it is full, and an index remembers where each
-- row stands. A slave asks its master for the rows behind the last one it has, and applies them.
--
-- Which file models which part (paths from the repository's root):
--   Query, Query/Builder        internal/query/query.go, internal/query/builder.go
--   Storage/Memory              internal/database/storage/engine/inmemory: InMemory and Engine
--   Storage                     internal/database/storage/storage.go
--   Database                    internal/database/database.go: Execute, setInWal, exec, restoreFromWal
--   Wal/Row                     internal/database/wal/wal_record.go: Marshal and Unmarshal
--   Wal/Flush                   internal/database/wal/wal.go: flush
--   Wal/Worker                  the same file: Write and the worker, as steps that interleave
--   Wal/Restore                 the same file: RestoreStream
--   Wal/FileLog                 the same file, as the log that a database calls, over segment files
--   Logs/Reader, Logs/Writer    internal/database/logs: read, readFromOffset, write
--   Logs/Segments               internal/database/logs/log_reader.go: ReadFrom, RestoreSystemStream
--                               and restoreIndex
--   Segment/Index, and Cow, Sorted and Array in it
--                               internal/segment/index.go: the three kinds of index
--   Segment/Manager             internal/segment/segment.go and segment_manager.go
--   Segment/Opening             the same files: NewFileSegment and NewSegmentManager
--   Segment/Reading             internal/segment/segment_manager.go: ReadSegment
--   Replication/Protocol        internal/database/replication/protocol.go
--   Replication/Slave           internal/database/replication/slave.go
--   Replication/Master          internal/database/replication/master.go: Handle, getReq, writeError
--   Handlers                    internal/handlers/handlers.go: UniversalHandler.Handle
--   Transport/Connection        internal/transport/tcp/listener.go: handleConnection
--   Transport/Listener          the same file: NewListener and listen
--   Transport/Client            internal/transport/tcp/client.go: NewClient, Send, setConn
--   Transport/Client/Program    client/client.go
--   Terminal                    internal/transport/cli/listener.go
--   Wiring                      internal/config/config.go, internal/transport/listener.go and
--                               internal/database/storage/engine/engine.go
--   Wiring/Log                  internal/database/wal/wal.go: NewWAL, with a log that is disabled
--   Wiring/Start                internal/database/initialization.go, main.go and
--                               internal/database/replication/initialization.go
--   Utils/Future                utils/concurrency/future_resp.go: FutureRespWithErr, and in
--                               Deadline the answer of a FutureResp
--   Utils/ByteSize              utils/data_type/size.go
--   Utils/Dir                   utils/fs/dir.go: ReadDir and ReadDirsFrom
--   Utils/...                   utils/retry, utils/id_generator, utils/ctx_utils, utils/concurrency
--   Prelude/...                 shared types and lemmas; the functions of Go's strings, bytes and
--                               encoding/binary packages that the code calls
--   Examples/...                the theorems at concrete inputs
-- The files below such a module hold its theorems and are named for what they are about.
--
-- State is passed explicitly: an operation takes a state and returns it with a Result, which is a
-- value, an error or a fault (a panic, or a call that never returns). Bytes, Go strings and keys are
-- lists of numbers. Unsigned integers of w bits wrap by `% 2 ^ w` where the code computes with them.
-- A lock that is held for one whole operation makes the operation a step; the lock of the segment
-- manager is kept in its state, since the code leaves it held on an error. The operating system is
-- the list of the outcomes of its next calls. The wait of a retry is a parameter that says whether
-- the context is done, and its random jitter only lengthens the wait. The log that a database uses is
-- a record of operations (`Wal`), with a record of laws (`Log`): what is written and acknowledged is in
-- the log, and the stream delivers the log. The log over segment files fills both: a call of Write is
-- its turns in a schedule, between which the worker takes any turns, and a start of the program reads
-- the files that the last run has left. There one call is made at a time; the interleavings of several
-- calls are those of Wal/Worker, where an answer may come too early. A program
-- is put together in Wiring/Start, with a log that is enabled or not; the theorems on several runs
-- are in Database/Lifetime and Wiring/Restart. The connection of a slave is a
-- function from its request to the bytes that come back.
--
-- Goroutines that share state are a record with a program counter for each of them; a turn is one
-- access to the shared state, and a schedule is a list of turns, so that a theorem about every list is
-- one about every interleaving. This is how the worker of the log with the calls of Write, and a stream
-- with its producer and its consumer, are modelled. A flush of the worker is one turn: only the worker
-- touches its buffer and the store, so what other goroutines do meanwhile could be done before it.
--
-- Bounds: the loop of a connection runs on a number of rounds; one round for each line and one more are
-- enough for a client that closes its side. The loops of the reader run on fuel of one round more than
-- there are bytes, and each round takes 11 bytes at least or ends the loop, so the fuel never runs out.
-- The searches by halves have as many rounds as there are entries or names, and each round leaves
-- fewer. Retries run on the number of attempts. Sizes of files stay below 2 ^ 63.
--
-- The network is a parameter: dialling, deadlines and writes of the client, what a connection delivers,
-- and the errors that errors.As takes for errors of the network. So is sort.Search, of which Add of the
-- sorted index assumes what its documentation says. The files of the log's directory are what the
-- operating system delivers for their names.
-- So are the clock and the outcomes of the calls to the disk. A new segment file has the time in
-- microseconds as its name; theorems on several runs assume that these names grow, which they do while
-- the clock does, since the times have the same number of digits until the year 2286. They also
-- assume that no write to the disk fails.
--
-- Not modelled: the times of the timers (a tick may come at any turn, and a round of the slave follows
-- the one before), negative sizes of segments, the flags of the client, the profiler, closing of files
-- and connections at the program's end, and logging.
pub mod Prelude
pub mod Utils
pub mod Query
pub mod Storage
pub mod Database
pub mod Wal
pub mod Logs
pub mod Replication
pub mod Segment
pub mod Handlers
pub mod Transport
pub mod Terminal
pub mod Wiring
pub mod Examples
