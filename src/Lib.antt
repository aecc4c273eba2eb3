-- ===== src/Lib.antt =====
-- RaftKVStorage: a key-value store that is replicated by Raft.
--
-- The program. Each server runs a `kvServer` over a `raft` node. A node keeps a log, an elected
-- leader sends its log to the others by heartbeats, and what a majority holds is committed and
-- handed to the application, which from time to time gives the node a snapshot that takes the
-- place of a prefix of the log. A `persister` keeps the node's state and the snapshot in files.
--
-- The files of this library, and the code that they model:
--
-- Persister        src/raft/src/core/persister.cpp and include/core/persister.h: `Disk` is the class
--                  persister with the contents of its two files; `load_state`, `persist_both` and
--                  so on are its methods. Persister.Restore: what comes back from the files.
-- Raft.Message     src/raft/raftBase.proto.
-- Raft.Node        the class raft of src/raft/include/core/raft.h as the record `Node`, and its
--                  private helpers (`_M_getLastLogIndex` is `last_log_index`, and so on).
-- Raft.Vote        _L_requestVote, _L_stand4Election and _L_sendRequestVote of
--                  src/raft/src/core/raft.cpp.
-- Raft.Append      _L_appendEntries: Append.Round and Append.Agree on its loop, Append.Rollback on
--                  the search of a mismatch, Append.Reply and Append.Total on the whole handler.
-- Raft.Leader      execute, _L_heartBeat, _L_sendAppendEntries, _M_getPreviousLogInfo.
-- Raft.Snapshot    persist, _L_installSnapshot, _L_sendSnapshot.
-- Raft.Apply       the constructor, _M_getApplyMessages, waitApplied, applyMessage.h.
-- Raft.Log         what a well-formed log is.
-- Raft.History     a node as the sequence of its methods that hold `_M_mutex`, in any order.
-- Raft.Ticker      the rounds of _L_daemonTicker and _L_applierTicker.
-- Cluster          several nodes and the threads of their elections, interleaved in any order. `Move`
--                  is a step; Cluster.Invariant says what holds at all times, Cluster.Calls what a
--                  call leaves alone, Cluster.Moves, Cluster.Answers and Cluster.Steps that a step
--                  keeps the invariant, Cluster.Safety that a term has one leader at most.
-- Operation        the commands `op` of src/utils.h, and src/raft/kvServerBase.proto.
-- Table            what kvServer uses of its skip list, as an interface with laws, and its records
--                  by client.
-- KvServer         src/raft/src/core/kvServer.cpp and include/core/kvServer.h. KvServer.Replica and
--                  KvServer.Delivery: the server against an abstract key-value map;
--                  KvServer.Transfer: its snapshots; KvServer.Agreement: two servers, one of
--                  which comes by the other's snapshot; KvServer.Request: get;
--                  KvServer.Acknowledge: put, split where other threads may run.
-- SkipList         src/raft/include/core/kvSkipList.h: nodes in a heap by address. SkipList.Chain
--                  says what a well-formed list is, SkipList.Search, SkipList.Find and
--                  SkipList.Precursors what the searches find, SkipList.Order and SkipList.Sorted are
--                  on the order of the keys. SkipList.Link and SkipList.Splice: the loop that puts a
--                  node into the chains; SkipList.Insertion, SkipList.Insert, SkipList.Assign and
--                  SkipList.Clear: the operations; SkipList.Unlink, SkipList.Removal and
--                  SkipList.Remove: the same for `remove`; SkipList.Stored: the list as a `Table`.
-- Clerk            src/raft/src/clerk/clerk.cpp; Clerk.Rotation: when its loops end.
-- Timer            src/cort/timer.cpp and include/timer.h; Timer.Ordered: the order of the set,
--                  Timer.Managed, Timer.Iterator and
--                  Timer.Expired: which timers are in the set,
--                  Timer.Due: timeoutCallbacks, with Timer.Rounds, Timer.Once and Timer.Twice on it.
-- Coroutine        the class coroutine of src/cort/coroutine.cpp on one thread; Coroutine.Control:
--                  who has the processor, Coroutine.Turns: what a turn of a coroutine does.
-- Scheduler        the class scheduler of the same file: its queue of tasks and its rounds;
--                  Scheduler.Tasks: where the tasks go.
-- IoManager        the event tables of src/cort/ioman.cpp; IoManager.Idle: the idle coroutine.
--                  IoManager.Counted, IoManager.Kept and IoManager.Reports: the counter of pending
--                  events, IoManager.Run: the counter over a run.
-- Hook             src/cort/hook.cpp, include/fdman.h and faman.cpp: the flags of descriptors;
--                  Hook.Flags and Hook.Opened: O_NONBLOCK; Hook.Io: the calls that wait;
--                  Hook.Waits: how they end.
-- Rpc              the controller and the channel of src/rpc; Rpc.Provider: the server's side of a
--                  call, Rpc.Frame and Rpc.Exchange: a call from one to the other; Rpc.Config and
--                  Rpc.Lines: the configuration file.
-- Utils            findAvailablePort and to_hex of src/utils.h; Utils.Queue: safequeue, Utils.Pool:
--                  threadPool.
-- Common           shared names, Boolean tests, lists over the native numbers.
-- Tests            the properties at concrete inputs.
--
-- How the code is modelled. A method is a function from the node, its arguments, the clock's reading
-- and, where it makes a remote call, the answer, to the node and its result; `Outcome` tells a
-- return from an exception and from a read outside a deque or vector, which C++ leaves undefined.
-- Threads that a method starts are values in its result. Terms, indices and node numbers are `int`s
-- that are not negative and stay below 2 ^ 31; -1 and -2, where the code uses them as marks, are
-- `none`. A negative subscript, the code's `index - last_snapshot_index - 1` for an index that is
-- not behind the snapshot, is `none` too. The loops of Raft and of the server recur on the list or
-- on the rounds left and need no fuel. A search in the skip list has its counter as fuel, which is
-- enough; the loops of the clerk have rounds as fuel, and one round for each server is enough where
-- a server answers.
--
-- Not under this repository, and therefore parameters: the text archive of boost together with the
-- serialisation of protobuf (`Codec`, `OpArchive`, `ServerArchive`, `Wire`), the clock, the network
-- (the answers, and the results of the socket calls), the kernel's calls on descriptors (`Kernel`),
-- `epoll_ctl` and `rand`. A coroutine of one
-- thread gives the processor away by resume and yield only; the threads of a scheduler, of an event
-- table and of a pool take turns at the steps that their locks make.
--
-- Not modelled: logging; the threads and locks of src/cort (thread.cpp, mutex.h); the sleeping calls, close and
-- the other commands of hook.cpp; src/skipList/include/skipList.h, which the server does not use;
-- src/skipList/include/kvSkipList.h, a copy of the file above; what protoc generates; the examples.
pub mod Common
pub mod Persister
pub mod Raft
pub mod Cluster
pub mod Operation
pub mod Table
pub mod KvServer
pub mod SkipList
pub mod Clerk
pub mod Timer
pub mod Utils
pub mod Coroutine
pub mod Scheduler
pub mod IoManager
pub mod Hook
pub mod Rpc
mod Tests
