-- ===== src/Lib.antt =====
-- itex_demo: the infrastructure of a trading prototype: its trading window, lock, random numbers
-- and matrices, HTTP router and parser, the connections and transactions of its SQL library, and the
-- recorder of its exchange gateway.
--
-- Program parts and files
--   Auxiliary/Matrix   platform/aux/include/aux/matrix.hpp: `mult` by its passes, over the arithmetic of
--                      any type (`Number`), and the slices.
--   Auxiliary/Random   platform/aux/include/aux/random.hpp: the xorshift generators.
--   Auxiliary/Rng      platform/aux/src/rng.cpp: the Mersenne twister, which makes its words in place,
--                      and ran2 (Ran2); `draw` and `ran2_draws` are calls one behind the other.
--   Auxiliary/RwLock   platform/aux/include/aux/rw_lock.hpp: the readers-writer lock, as a step
--                      relation of any number of threads. `step` has one clause for each operation's
--                      first load and each round of its loop.
--   Cgatepp/Dumper     services/cgatepp/src/dumper.cpp: the recorder's handlers, one function for each
--                      `on_...`, and `replay_recorded_stream`; the messages are in Cgatepp/Listener
--                      (include/cgatepp/listener.hpp) and Cgatepp/Record (src/dumper.proto).
--   Cgatepp/Volumes    services/cgatepp/src/dumper.cpp: the recorder's files. `write_next`,
--                      `read_next` and `open_file_and_get_pos` are the members of `Dumper` of those
--                      names, `open_files` its constructor, `replay` its loop over the records.
--   Http/Connection    platform/http/src/connection.cpp: the coroutine of `Connection::start`; `serve` is
--                      its loop and `response_text` what it writes.
--   Http/Constants     platform/http/include/http/constants.hpp: methods and status codes.
--   Http/Message       platform/http/src/message.cpp, request.cpp, response.cpp: what a copy, an
--                      assignment and a clear do to a message; `on_...` of Http/Parser fill it.
--   Http/Parser        platform/http/src/parser.cpp: one function for each callback; the calls that
--                      the http_parser library makes of them are a list of events, which `run` takes.
--                      `feed` (Feed) is over the library's `http_parser_execute` (`Library`).
--   Http/Url           platform/http/src/url.cpp: `make_url` is `Url(std::string)`.
--   Http/Router        platform/http/src/router.cpp: the tree of URL rules; `set` and `get` are
--                      `Router::set` and `Router::get`, their loops `set_tokens` and `get_tokens`.
--                      A router keys its handlers by `method_index`.
--   Http/Server        platform/http/src/server.cpp and connection.cpp: the connection objects, from
--                      accept (`take_connection`, `insert_connection`) over `Connection::kill`
--                      (`kill_begin`, `kill_end`) to `Server::stop`; `Step` (Places) interleaves them.
--   Quant/OrderbookEntry
--                      common/quant/src/orderbook-entry.cpp on a heap of blocks (Memory), and the part
--                      of services/demo-manager/http-server-handler.cpp that fills an entry (Writer).
--                      The entries are what the demo manager pushes to a workset.
--   Quant/Workset      common/quant/include/quant/workset.hpp: the window of entries with its
--                      publishers and subscribers. It runs each operation but `clone` under the lock
--                      of Auxiliary/RwLock, which is why an operation is one step here; `clone` comes
--                      with what is pushed while it runs.
--   Sqldb/Bytea        platform/sqldb/src/result.cpp: `from_string` of a `bytea` column.
--   Sqldb/Connection   platform/sqldb/src/connection.cpp: a connection on libpq (`Libpq`), its waits as
--                      lists of what arrives, prepared statements and the timeout; `connect_loop` is
--                      the loop of platform/sqldb/src/database.cpp that makes a new connection; `once`
--                      (Reference) is what prepared statements are compared with.
--   Sqldb/Database     platform/sqldb/src/database.cpp: the pool of connections, which stands under a
--                      spinlock, so that an operation on it is one step.
--   Sqldb/Transaction  platform/sqldb/src/transaction.cpp: the transactions that take connections from
--                      the pool. Their operations are cut where a coroutine waits for the server;
--                      `Step` (Ownership) runs the pieces of any number of transactions in any order.
--                      What a client's text makes of the session is an argument of `run_query`.
--
-- Parameters: `boost::circular_buffer` is the interface `CircularBuffer` (Quant/Workset/Buffer),
-- with a list as an instance of it; `boost::algorithm::split` is the argument `split_url_path`;
-- `http_parser_parse_url` and the table of method numbers are the arguments `parse_url` and
-- `method_map`; `std::sort` is an argument of `add_orderbook`. A protobuf message is the interface
-- `Message` (Cgatepp/Volumes). What the SQL server answers, a connection's status, the clock and
-- the numbers of message types (`MsgTypes`) are arguments; to a connection libpq and the server are
-- the interface `Libpq`, and what the server documents of prepared statements the interface
-- `Server` (Sqldb/Connection/Exchange), the regular expressions and the hash of a query
-- `Statements`. A double is a value of any type. Allocation succeeds.
-- Bounds: a `size_t` wraps at 2 ^ 64; `reader_try_lock` makes 1000 attempts; a record's size is
-- kept in 16 bits. Five definitions run on fuel: `feed` needs a round for each byte at most and one
-- more, `to_string` has more rounds than its number has digits, `rounds` counts the rounds that it
-- is asked about, `replay` the records that it may read, for which one more than there are is
-- enough, and `stop_all` the connections of the pool. ran2 has no value where the code's `long`
-- stays negative.
-- Not modelled: input and output, logging, the HTTP server's sockets and the parser library, libpq,
-- the floating point of the random numbers and the signal processing, the connection to the exchange
-- (CGate) and the programs that only connect these.
mod Base
pub mod Auxiliary
pub mod Http
pub mod Quant
pub mod Sqldb
pub mod Cgatepp
