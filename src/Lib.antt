-- ===== src/Lib.antt =====
-- otservpp: a server for the game protocol of Tibia, as it stands under otservpp/.
--
-- The program and this model. A service (service/) accepts peers on a port and makes a connection
-- (protocol/connection.hpp) for each, which reads messages (message/) and hands them to a protocol
-- (protocol/), and which queues and writes what the protocol sends. Messages carry an Adler-32
-- checksum and are encrypted with XTEA (crypto.cpp). A login protocol answers a first message with a
-- list of characters. A pool (sql/connectionpool.h) lends connections of a database, and tasks
-- (scheduler.hpp) call functions after a time or at intervals. Scripts in Lua implement hooks
-- (script/hook/), whose tables become tuples of C++, and see the program through adapters
-- (script/adapterset.hpp).
--
--   Base, Base/*               shared names, lists and bytes over native numbers
--   Crypto/Adler, Crypto/Xtea  adler32 and Xtea::encrypt, Xtea::decrypt of crypto.cpp
--   Crypto/Rsa                 Rsa of crypto.cpp over OpenSSL
--   Crypto/Service             CryptoService and ErrorCategory of crypto.h: run_sync is runSync, and
--                              decrypt_then the decrypt of Rsa that takes a handler
--   Message/In                 BasicInMessage of message/basicinmessage.hpp: movePos is move_pos,
--                              getRawChunckAs is get_raw_chunk, and so on
--   Message/In/Standard        StandardInMessage of message/standarinmessage.cpp:
--                              parseHeaderAndGetBodyBuffer is parse_header
--   Message/Out, Message/Out/Standard  the outgoing messages of message/basicoutmessage.hpp and
--                              message/standardoutmessage.cpp
--   Message/Out/Suite          basicoutmessagetest.cpp of otservpptest/message/
--   Message/Packet             the layout that the comments document, and both ends together
--   Message/Fields             sequences of numbers and texts
--   Message/Faults             where the messages do not do what they are for
--   Message/Received           the reads of Connection::parseIncomingMessage into the one incoming message
--   Protocol/Connection        Connection of protocol/connection.hpp; State has its members, Trace its
--                              runs, Writing, Sending, Kept, Receiving and Closing their laws, Channel
--                              the ordered channel that it implements
--   Protocol/Standard          BasicProtocol and StandardProtocol
--   Protocol/Login             BasicLoginProtocol and AccountLoginProtocol
--   Script/Lua                 the checks and exceptions of script/scriptexcep.hpp, with Lua and luabind
--                              as the record Luabind
--   Script/Hook/Translation    ObjectToTuple of script/hook/object2tuple.hpp: Laws says what a table must
--                              hold, Faults which key an exception names
--   Script/Hook/Calls          the hooks of hook/hook.hpp and script/hook/hook.hpp, and their keys
--   Script/Hook/Suite          otservpptest/script/hooktest.cpp
--   Script/Adapters            the adapters of script/adapter/adapter.hpp and their sets; Tasks has what
--                              scripts see of the scheduler
--   Script/Adapters/Suite      otservpptest/script/adaptersettest.cpp
--   Script/SmallLua            a Lua for the tests
--   Sql/Pool                   ConnectionPool; Trace has its runs with clients, Spec the matching of two
--                              streams that it implements
--   Sql/Mysql                  the results of sql/mysqltypes.hpp and the run of a prepared statement in
--                              mysql::Service of sql/mysqlservice.h
--                              Types has its values and binds, Connections how they are made, Threads
--                              the threads that run their jobs, Handlers which handlers compile with them
--   Sql/Connection             BasicConnection of sql/connection.hpp, with the jobs of its calls, which all
--                              connections of a Service share: connect_to is
--                              connect, prepare is prepareQuery, run_prepared_set is runPrepared of a RowSet
--   Sql/Errors                 the codes of errors and SqlErrorCategory of sql/error.hpp; Enumerators has the
--                              enumerators of Error, Distinct that their codes differ
--   Scheduler                  BaseDeferredTask, DeferredTask, IntervalTask, Scheduler::Wrapper;
--                              Executor has the queues of Scheduler. Loop has the runs of an io_service
--                              whose functions act on tasks: Kept what every run keeps, Laws, Spent,
--                              Pace and Cancel what is kept, Progress what can come. Suite has the tests of
--                              otservpptest/: Deferred, Interval and Scheduled
--   Service                    ServiceManager of service/servicemanager.cpp; Server has BasicService with
--                              the connections that it makes
--   Lambdas                    Lambda and ScopedOperation of lambdautil.hpp; Traits has function_traits
--   Main                       work of otservpp.cpp
--
-- State is passed on explicitly: a member function is a function from the record of the members to the
-- record, an Option or a result with one case for each way to end. The case `none`, `fault` or
-- `undefined` is undefined behaviour or a failed assertion: an access out of bounds, a null pointer,
-- an empty queue. For a connection it is also the exception of a socket that has no peer, which leaves
-- its strand: whatever catches it calls stop, which throws again. Unsigned arithmetic keeps its
-- wrap-around (u32, u16); the width of uint_fast32_t and of std::size_t are arguments, as compilers
-- differ in them. What a strand runs is one step; what asio completes, and when, is an event of a run,
-- with no assumption but that a write is aborted only by the close of its socket. The loops of
-- Adler-32 run on fuel, one more than the length that is left, which adler32-checksum shows to be
-- enough; the other loops are structural. The logs that a state keeps (written, accepted, handled,
-- calls, started) are never read by an operation.
--
-- The templates of ObjectToTuple are functions on a description of the tuple's type, from which the
-- types of keys and results are computed; a key is a text, and an index of a table has ten digits at
-- most.
--
-- Not modelled: logging to its sink, but for the lines that a script hook logs, which are in its
-- state, and for the exception of logging the address of a socket that has no peer; OpenSSL, Boost,
-- asio, Lua, luabind and the MySQL client, which are parameters; the binding of tuples of parameters,
-- and statements for sets of parameters, whose templates cannot be instantiated as they stand, as that
-- of vectors of values in results of scripts; the connect of ConnectionPool, whose handler is called
-- where the shared_ptr of its state is unique, which depends on how asio copies handlers; the keys of
-- the hooks for logins, which do not fit them; the constructor that takes over another connection,
-- which calls functions that do not exist; sql/query.h, which is compiled out; the copy of a client
-- library under lib/amy; account.h, io/account.h and worldmap.h, which are stubs; the environment that
-- runs the scripts of otservpptest/script/scripts.
pub mod Base
pub mod Crypto
pub mod Lambdas
pub mod Main
pub mod Message
pub mod Protocol
pub mod Scheduler
pub mod Script
pub mod Service
pub mod Sql
