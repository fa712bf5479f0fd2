-- ===== src/Lib.antt =====
-- FineDB, a key-value server on LMDB: its server and the protocol that it speaks.
--
-- A client sends requests over TCP. The main thread hands each accepted connection to one of a
-- pool of connection threads (src/server/connection_thread.c), which reads the requests one after
-- the other, looks the command up in a table and runs its handler (src/server/command_*.c). A
-- handler reads its arguments from the connection's buffer, which it fills from the socket as
-- needed. A synchronous request works on the database at once (src/server/database.c) and is
-- answered afterwards; an asynchronous one is answered first, and then sent as a message to the
-- writer thread (src/server/writer_thread.c), which makes the changes. Each connection thread has
-- its own nanomsg pipe to the writer thread, which keeps the order of its messages; between the
-- pipes there is no order.
--
-- Files:
-- - Prelude: shared names, tests on numbers, and lists over the native numbers.
-- - Protocol (src/server/protocol.h): commands, options and response codes, as numbers below 256.
-- - Wire: htons, htonl and their inverses, and C strings.
-- - Yerr: the codes of yerr_t that the program distinguishes.
-- - Lmdb, Dynabin, Snappy: the libraries of lib/lmdb, lib/ylib and lib/snappy-c as records of
--   operations, with what their headers document as records of laws; Lmdb.Snapshot has those on several
--   transactions at a time. Lmdb.Sample, Lmdb.Several, list_dynabin and Server.Sample hold concrete
--   ones that meet the laws.
-- - Database (src/server/database.c): database_put, database_del, database_get, database_list and
--   database_drop, with every goto; the environment is passed explicitly.
-- - Exec: functions that change a state and may jump to their error label.
-- - Socket: what recv and sendmsg return, as lists of the coming results. Socket.Read is the loop of
--   connection_read_data and of _read_data (src/lib/libfinedb.c).
-- - Server (src/server/connection_thread.c): the state of a connection thread, connection_read_data
--   and connection_send_response, and the steps that handlers share.
-- - Command: one file for each src/server/command_*.c, and the theorems about the handlers.
-- - Connection (src/server/connection_thread.c): the table of handlers, a round of the loop on
--   requests, the loop, connection_thread_disconnect, and the loop on connections of
--   connection_thread_execution. Connection.Parts and Connection.Handlers carry a relation between
--   states over all handlers; Connection.Rounds, Isolation and Outside use them.
-- - Service: an abstract specification of a connection over the stored data and the queued messages,
--   without buffers, sockets and LMDB, and what relates a connection thread to it. Its
--   requests may break off anywhere (Command.Cut, Service.Cut). Service.Snapshot is about the reads in a
--   transaction behind the work of other threads, Service.Refused about the writes in one.
-- - Writer (src/server/writer_thread.c): the work on one message, and the loop.
-- - Client (src/lib/libfinedb.c): the requests of the client library and its reading of responses;
--   Client.Get is finedb_get; Client.Serving, Client.Naming, Client.RoundTrip and Client.Sequence put
--   the library and the server together. finedb_connect stands in Cli, finedb_create, finedb_delete and
--   finedb_disconnect in Client.Lifecycle.
-- - Cli (src/cli/finedb-cli.c): the check of the connection and the commands that take a key; Cli.Line
--   takes their lines apart, Cli.Words has the names of the commands and the completion, Cli.Session the
--   other commands, and Cli.Turn the main loop.
-- - Startup (src/server/finedb.c, server.c, main.c): the calls that the start makes and what follows
--   where one fails, as a list of calls, the loop of accept, and the handler of SIGINT.
--   Startup.CommandLine reads the options, Startup.Path (src/server/self_path.c) finds the database.
--
-- State: a thread's state has its fields (tcp_thread_t), its buffer of unread bytes, the socket, the
-- environment of the database, the thread's pipe to the writer thread (`queue`), and the results of the coming
-- allocations and nn_send calls, so that every failure of these is a run of the model. A name or a
-- transaction that is NULL is `none`. The freeing of memory, the log and the time-outs of sockets
-- change nothing in the model; a call that times out is one that fails.
--
-- Fuel: only request_loop and serve_connection take fuel, one unit for each request. A request takes
-- at least one byte, so one unit more than the bytes that may still arrive is enough.
--
-- Not modelled: the effect of the sockets' options, the nanomsg socket of the writer thread,
-- get_self_path for systems other than Linux, and of the command-line client (src/cli/finedb-cli.c)
-- the terminal: colours, the history and the reading of standard input.
--
-- Concurrency: a handler is modelled on the state of one thread, so what other threads do to the
-- database between two of its calls is not seen there. Writer.Interleaved has every order of the
-- threads' calls of database.c and messages, outside transactions and on the default database,
-- where the writer thread takes the first message of any thread's pipe; Service.Interleaving sets
-- the rounds of a connection thread beside its steps. Service.Concurrent has a server of many
-- connection threads whose rounds come in any order, and its specification; Service.Turns, Torn,
-- Linearizes and Progress are about the two. A round is one step there: what happens between the
-- calls of database.c within a round is not interleaved; outside of a transaction a round makes
-- one such call. The one thing of that call which another thread can still change is the data of a
-- GET, a pointer into the memory map that is read after its transaction has ended: that is a torn
-- round, which sends any data of the same length. Data is a copy in database_get itself. lmdb.h
-- forbids mdb_dbi_open in several transactions of a process at a time, and the program does it; no
-- theorem says what threads see then.
pub mod Prelude
pub mod Protocol
pub mod Wire
pub mod Yerr
pub mod Lmdb
pub mod Database
pub mod Exec
pub mod Dynabin
pub mod Snappy
pub mod Socket
pub mod Server
pub mod Command
pub mod Connection
pub mod Writer
pub mod Client
pub mod Cli
pub mod Service
pub mod Startup
