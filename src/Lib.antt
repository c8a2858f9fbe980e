-- ===== src/Lib.antt =====
-- VoloDB, a key-value store server over MySQL Cluster, and its client library.
--
-- A client packs operations (volodb-common/ProtoBuf) into a frame, under one identifier for an
-- atomic request or one for each operation, and sends it over ZeroMQ. The server decodes frames
-- into tuples of messages, deals the tuples out to executor threads, and runs each tuple: definition
-- operations at once as SQL, manipulations as operations of one NDB transaction, which is handed
-- over to NDB and answered by a callback. An executor waits for what it handed over when there are
-- 1024 transactions or no request is left. The answer goes back through the sink of a transport thread,
-- which sends it to the client, where a worker of the transport passes it to the client's delegate.
--
-- Which file is about which part:
--   Proto/Column, Operation, Frame, Result: the message classes of volodb-common/ProtoBuf/*.pb.h, as
--     records of their fields; an optional field is an option, a repeated one a list.
--   Proto/Wire: the protocol buffer runtime as a parameter. For each class it has SerializeToString
--     and ParseFromString and the law that the parser reads back what the serialiser wrote.
--   Frame/Utils, Builder, Decoder: volodb-common/Frame. get_frame_type is getFrameType, add_frame is
--     addFrame, decode is decode, with its loop as decode_atomic_items and decode_single_items.
--   Frame/Classes, Items: lemmas on one item of a frame.
--   Columns/Builder, Decoder: volodb-common/AttributeUtils and OperationUtils; Columns/Memory is the
--     memory of little-endian words, Columns/RoundTrip and Columns/Texts set the two against each
--     other.
--   Common: the parts of volodb-common that are neither messages nor frames. Common/Config is
--     Config/ConfigFileReader.cpp on the maps of Common/Dict, Common/Utils is Utils/Utils.cpp,
--     Common/Logging is Logging/log1.h and Common/Logging/Plain is Logging/log.h, Common/Tasks is
--     Test/TaskBase.h; Common/Numbers is stoi.
--   Client/Executor: volodb-client/Executor/Executor.cpp; Client/RoundTrip and Client/Answers set it
--     against the decoder and the server's answers.
--   Client/Transport: volodb-client/Transport/ClientTransport.cpp. The module itself has connect, send
--     and close, Receiving has receive and receiveAll, Worker has receiveQueuedMessages and a pass of
--     worker_thread_func, Delivery the ways in which program, ZeroMQ and workers interleave till the
--     close, Calls a program's calls, Phases what it may count on while nothing comes from the
--     server, and Requests the executor on its transport.
--   Server/Ndb: the NDB API, the MySQL client and the sockets as an environment. Each call is an event
--     of a trace, and the answer to a call is any function of the trace before it. Server/Ndb/Tally
--     counts the events of a trace; Server/Ndb/Ends is about computations that come back.
--   Server/Cache: volodbserver/Cache/TableInfoCache.cpp.
--   Server/Processor: volodbserver/Store/NDBMessageProcessor.cpp.
--   Server/Executor: volodbserver/Store/NDBMessageExecutor.cpp. Sql has the text of the statements,
--     Definitions the definition operations, Operations the set, delete and get operations,
--     Transaction one request (execute_tuple), Callback ndbExecuteCallback, Batch the loop over the
--     requests that a thread has taken (execute_all), Reply the results that are answered.
--   Server/Store: volodbserver/Store/Store.cpp and volodbserver/Utils. Threads has _processMessages and
--     the sockets between the threads as a relation on their queues, Life run, stop and the
--     destructor, Startup _initDB and the wait for the executors, Monitor shouldIgnoreRequest, Receive
--     receiveQueuedMessages.
--   Server/Transport: volodbserver/Transport/ServerTransport.cpp, one round of a worker thread;
--     Server/Transport/Life its start, what its main thread sets up, and its end.
--   Server/Program: volodbserver/main.cpp up to the wait for the end of the store; Serving is about the
--     start of the store, Starts about the whole.
--   Server/Stats: volodbserver/Test/TestStats.cpp.
--   System: a client and the server together, with the requests on their way to the executor threads
--     the answers on their way back, and an atomic request from the call to the delegate.
--   Tests: a codec and a cluster, and the theorems at them.
--
-- Code that changes state is a function on a record of it: in the executor on a World, which is the
-- trace, the table cache and the counters of the processor, and elsewhere on the members of the
-- object. Threads that share state are step relations, whose steps are what a thread does while it
-- holds a lock or takes from a queue. Outcome has a returned value, a thrown text, and `undefined` for
-- what C++ leaves undefined, such as a null pointer that is followed or a read past the end. A
-- std::string is the list of its bytes. Integers of a width keep their range as a hypothesis or their
-- wrap-around written out: the length field of a text and the numbers of threads are cut to 16 bits,
-- and the counters of tests and statistics wrap at 64 and 32.
--
-- The loops are structural, but for two. waitForTransactionsToComplete has fuel, a unit
-- for each poll, and ends exactly if the polls that the fuel allows report as many transactions as are
-- waited for; a thread whose wait does not end has no result in the model. receiveAll has fuel too: a
-- receive for each message that waits and one more are all that can be made before one
-- has to wait.
--
-- The libraries that are called are arguments, each with what the code relies on as a law: the
-- protocol buffer runtime, boost's parsers of the command line and of configuration files, and the
-- ROUTER socket between the clients and the server. Whether the runtime can serialise an answer is
-- left open, and so are NDB's answers at the start of a store. That ZeroMQ gives a message of a push socket to
-- one worker and keeps the order is a rule of the step relations.
--
-- Not modelled: the wire format of protocol buffers and the generated code; the definer threads of
-- Store.cpp, which are compiled out, and its connection to MySQL; the ZeroMQ proxy of the server, the
-- options of sockets, and the wrappers of ZeroMQ (zmq.hpp, zhelpers.hpp); the test cases of
-- volodbclientapp and of the server and their dispatch. The output of Executor::printResult and
-- ConfigFileReader::print and all log lines but the form of a line are left out. What a transaction
-- reads is an argument of the callback, and the values of rand() and of the polls are arguments of the
-- loops that draw them.
pub mod Prelude
pub mod Common
pub mod Proto
pub mod Frame
pub mod Columns
pub mod Client
pub mod Server
pub mod System
pub mod Tests
