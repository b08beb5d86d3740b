-- ===== src/Lib.antt =====
-- PicoDB, a small document store with a server and a client that exchange JSON messages over a TCP
-- connection. A client's driver turns a call into a message, the message into a record, and sends
-- the record's text behind a header of ten bytes, four hashes and the size in digits. The server's
-- session reads the header, then as many bytes as it says, parses the text and, in this version,
-- queues the message itself as the reply. The driver reads the reply in the same way and puts it
-- into a response queue, where the caller's thread looks for it by the id of its request.
--
-- Prelude: the library's names, lists and texts over the native numbers, and `Outcome`, the ways in
-- which a call of the program can end: it returns, fails an assertion, throws, has undefined
-- behaviour, or has not come back when what the environment supplies is used up.
-- Queue: the queues. Queue.Vector is PicoDB/pico/ConcurrentVector.h (pop, push_back, peek, remove,
-- clear and the others, by their names), Queue.ConcurrentList is PicoDB/pico/pico_concurrent_list.h,
-- and Queue.Buffered is PicoDB/pico/pico_buffered_message.h, whose copies share a vector in a store.
-- Utils: PicoDB/pico/pico_utils.h. Utils.Cast says what is relied on of boost::lexical_cast, and
-- Utils.Decimal is a cast that behaves so.
-- Files: the file system, as far as it is called, and the helpers on files of PicoDB/pico/pico_utils.h.
-- A name stands for a file by its text, in which slashes in a row count as one; links are left out.
-- Logger: PicoDB/pico/logger.h and PicoDB/pico/pico_logger_wrapper.h. Startup: the start of `main` in
-- PicoDB/MutilThreadedServerClient.cpp, and PicoDB/pico/PicoConfig.h.
-- Record: PicoDB/pico/pico_record.h. A record has a block of bytes and a size, each of which may be
-- indeterminate; reading beyond a block is undefined.
-- Message: PicoDB/pico/pico_message.h. Message.Constructors has its constructors, and Message.Json
-- says what is relied on of JsonCpp.
-- Socket: what is called of Boost.Asio. A connection is a list of bytes to be read and a list of
-- bytes written; each call of read_some hands over as many bytes as its `Arrival` says. A call of
-- write also sees the memory around the program's own blocks, its `Surroundings`, which say as well
-- whether the connection fails.
-- AsyncReader: PicoDB/pico/asyncReader.h, by the addresses of the buffers.
-- Wire: the header in front of each message, from PicoDB/pico/pico_session.h and pico_client.h.
-- Session: PicoDB/pico/pico_session.h (readOneBuffer, readSync, processTheBufferJustRead,
-- processDataFromOtherSide, queueMessages, writeOneBuffer, writeOneMessageToOtherSide, start).
-- Session.Read, Session.Receive and Session.Write are about one message, Session.Echo about the loop,
-- and Session.Short, Session.Failure, Session.HangUp and Session.Broken about what can go wrong: short
-- reads, bad headers, a client that leaves and a connection that fails.
-- Server: PicoDB/pico/pico_server.h, and the destructor of the session: the completions of
-- async_accept are a list, and each one has what its client sends.
-- Driver: PicoDB/pico/pico_client.h, the thread that writes and reads; Driver.Requests: the calls of
-- the driver's interface (insert, get, update, deleteRecord, createCollection, deleteCollection) and
-- getTheResponseOfRequest; Driver.Loop: start. Driver.Send, Driver.Receive and Driver.Rounds are
-- about the two halves of a round and the loop, Driver.Calls about a caller's whole call,
-- Driver.Trip about a request that goes to a session and back, Driver.Conversation about the two loops
-- at the ends of one connection, Driver.Connect is about connecting, the notifier and the end, and
-- Driver.Waking has the threads at the queue of requests as a step relation.
-- PonocoClient: PicoDB/pico/PonocoClient.h, the calls that are made of the driver. Program: `main`,
-- clientServerExample and PicoDB/pico/PonocoRunnable.h, by what the threads of the three parts come
-- to, with the signals that are handled.
-- ResponseProcessor: PicoDB/pico/ClientResponseProcessor.h.
-- RequestProcessor: PicoDB/pico/request_processor.h, which the session does not call any more.
-- ThreadPool: PicoDB/pico/ThreadPool.h and PicoDB/ThreadWorker.h, each worker as a state machine,
-- and what the threads do as a sequence of actions; ThreadPool.Racing: threads that come to their
-- flag before the constructor has set it; ThreadPool.Joining: runThreadPool. Runnable:
-- PicoDB/Runnable.h. ObjectPool: PicoDB/ObjectPool.h. OldRecord:
-- PicoDB/pico/pico_record_old_version.h, where an access beyond an array is undefined. Counters:
-- PicoDB/pico/AtomicCounter.h and PicoDB/pico/OffsetManager.h. Currency: PicoDB/currency.h;
-- Currency.Containers: the examples that keep currencies in containers. Stock: PicoDB/stock.h, and
-- the packages of PicoDB/MutilThreadedServerClient.cpp that print the value of an instrument.
-- DbRecord: PicoDB/pico/DBRecord.h. Index: PicoDB/pico/pico_index.h, a tree of pointers as a
-- data type; Index.Build has its operations on records, Index.Order, Index.Delete and
-- Index.Offsets are about the order of the keys, deleteNode and the offsets, Index.Sequence and
-- Index.Refinement about the sequence of keys that the tree stands for, and Index.Lookup and
-- Index.Counting about a tree that is built of records. Collection:
-- PicoDB/pico/pico_collection.h, the file of records and its index. DeprecatedRecord:
-- PicoDB/pico/pico_record_deprecated.h, a record of 1025 bytes; its Fields are set and read,
-- and its Sections do not meet. These four files are commented out as a whole at this commit,
-- and nothing of the server uses them: what is modelled is the code behind the comment marks.
-- DbBlock has the loops that copy the parts of a record into its block in the file and back. What is
-- no longer declared there, the indexes of the parts and the size of a block, is a parameter. Printing: runProducerThread and runConsumerThread of
-- PicoDB/MutilThreadedServerClient.cpp, which threadExample of PicoDB/Examples.h starts.
-- Examples: PicoDB/Examples.h. FileTest: PicoDB/file_test.h. WriterBufferContainer:
-- PicoDB/pico/writer_buffer_container.h.
-- Tests: runs on concrete inputs.
--
-- A loop that tries for a lock takes a list of attempts, a loop that reads takes a list of arrivals,
-- the search for a reply takes a list of turns, and the loop of a session takes one entry for each
-- round; a call that needs more than it is given has the outcome `waits`. The loops of `remove` and
-- `clear` run on fuel, the length of the vector, which is enough since each round shortens what is
-- left to do. The loop that reads a collection's file runs on the size of the file, which is enough
-- since a block has at least one byte.
--
-- The counts of a session and of a driver, and sizes, are unbounded numbers, except that a size read
-- from a header is converted to an int of 32 bits; hash codes, the atomic counter and the number of
-- the nodes of an index are words of 64 bits.
--
-- Not modelled: what a component's own calls of the logger write, which Logger has only as
-- calls of `log`, but for print and printHistoryOfMessages in Session.Trace and Driver.Trace;
-- the resolver and sleeping; the scheduling of threads, which is the order of what happens;
-- JsonCpp, which is a parameter; the other examples that the server and the client do not use,
-- some of which do not compile; copies of the examples of Boost; in a collection, what has lost
-- its loops in further comments; and the record inserter, which is commented out as a whole.
pub mod Prelude
pub mod Queue
pub mod Utils
pub mod Files
pub mod Collection
pub mod DbBlock
pub mod DbRecord
pub mod DeprecatedRecord
pub mod Index
pub mod Logger
pub mod Startup
pub mod Record
pub mod Message
pub mod Socket
pub mod AsyncReader
pub mod Wire
pub mod Session
pub mod Server
pub mod Driver
pub mod PonocoClient
pub mod Printing
pub mod Program
pub mod RequestProcessor
pub mod ThreadPool
pub mod OldRecord
pub mod ObjectPool
pub mod Counters
pub mod Currency
pub mod Stock
pub mod Examples
pub mod FileTest
pub mod ResponseProcessor
pub mod WriterBufferContainer
pub mod Runnable
pub mod Tests
