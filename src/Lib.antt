-- ===== src/Lib.antt =====
-- Verification library of thirft-proxy, a server that takes binary requests over TCP and forwards
-- them to Thrift services through pools of connections.
--
-- A packet from a client (src/base/proxy.cpp, ProcPkgCli) becomes a `ClientInfo` from the memory
-- pool (src/utils/mempool.cpp). It is entered in a map by serial number (src/common/client_info.cpp),
-- in the list of its descriptor (src/common/list.h) and in the timer's list (src/utils/timer.cpp),
-- gets the handler of its command (src/handler/cmd_handler.cpp) and is queued for the workers. It is
-- destroyed when its time is over or its descriptor closes. Workers talk to the services over the
-- connections of a pool (src/connection/connection_pool.cpp).
--
-- Files:
-- - Prelude: shared names, list lemmas, and `Outcome`, whose `fault` is undefined behaviour and whose
--   `stuck` is a thread that waits for another, or a loop without an end.
-- - ListHead: src/common/list.h over a store of `next` and `prev` pointers; ListHead/Ring says what
--   a well-formed list is, Insert, Remove, Splice and Frame are about the operations.
-- - Timer: src/utils/timer.cpp on that store. A callback is a function of the whole state.
-- - Mempool: the pool of items of one size. Memory is the words that the pool writes, and what
--   `malloc` returns is an argument, assumed to be apart from the blocks that the pool holds.
-- - Connection, ConnectionPool: src/connection. The Thrift transport is the interface
--   `TransportApi`; its two laws say that a transport is open after an `open` that did not throw,
--   and is not open after `close`. A connection that a caller holds is named by its place.
-- - Proto: the header of src/proto/proto.h. CmdHandler, ClientInfo: the maps of the same names.
-- - Proxy: src/base/proxy.cpp, the life of a request. List cells are named by numbers.
--   Proxy/Invariant says what holds between packets, Cells and Destroy are about the lists, Leave and
--   Member about DestroyClient, Expire about the timer, LinkDown about a closed descriptor, Enter,
--   Accept and Arrive about a packet that becomes a client. Send is the reply to a client, Start is
--   `Init`, Heads and Begin the state that it leaves, and Stop is `Uninit`. An item that goes back to
--   the memory pool gets the pool's link over its first two fields (`linked`); the network thread
--   waits in `put` while 20 clients are in the queue.
-- - ThreadPool: src/base/thread_pool.h, with the turns of the threads as a step relation.
-- - Thrift: the generated code in src/thrift, over the sequence of fields that the protocol gives or
--   is given. Thrift/Reading is the loop that all `read` methods share, Thrift/Client what a client
--   does with a message, Thrift/TisService and Thrift/IdentityServ the methods of the two services,
--   Services the processors. Thrift/Remote joins the clients of a service to its processor by a
--   transport that hands messages over. The protocol is the interface `ProtocolApi`.
-- - Handler: src/handler, what a worker does with a client. Between two steps of a handler the other
--   threads may change the pools: `others`, an argument, says how, and what the theorems ask of it
--   is among their hypotheses. Handler/Text reads the texts in the buffer, Steps are the effects,
--   which are noted as events; Trace and Order are about the events, Balance about leases and
--   replies, Total, Runs and Finish about the end of a turn.
-- - Text: the functions of the C library on strings, with `atoi` against `%d` in Text/Decimal.
-- - Config: `ParseConfigFile` of src/common/file_config_manager.cpp over a map from names to files.
--   Config/Written is about files that are written line by line, Keeps about the keys that are there,
--   Depth about files that include files. The fuel is the number of files open at once.
-- - ConfigManager: src/common/config_manager.h, and the functions on it in src/common/server.cpp.
-- - NetUtils: the address list in src/utils/net_utils.cpp.
-- - LogProcessor, Control: src/common/log_processor.cpp, file_lister.cpp and control.cpp. What
--   `regexec`, `mktime` and `localtime_r` answer is the record `Calendar`; a directory is the list of
--   its entries. What is unlinked or given to `tar` is the result. LogProcessor/Due says what the date
--   of a file is and when it is due.
-- - Server: src/common/server.cpp, the role of a process and the process for a packet.
-- - Tests: runs on concrete data, and the theorems at concrete inputs.
--
-- Loops over lists of pointers take fuel; each theorem about one asks for more fuel than the list
-- has nodes, and then the loop ends. `uint32_t` and `int` counters are kept as 32-bit patterns.
-- Time and what the system calls return are arguments.
--
-- Not modelled: logging; the network itself; the variable memory pool, which nothing uses;
-- the lookup of local and remote addresses in net_utils.cpp, which only calls the
-- system; the generated clients for concurrent use, which nothing uses.
pub mod Prelude
pub mod ListHead
pub mod Timer
pub mod Mempool
pub mod Connection
pub mod ConnectionPool
pub mod ClientInfo
pub mod CmdHandler
pub mod Config
pub mod ConfigManager
pub mod Control
pub mod Handler
pub mod LogProcessor
pub mod NetUtils
pub mod Proto
pub mod Proxy
pub mod Server
pub mod Tests
pub mod Text
pub mod ThreadPool
pub mod Thrift
