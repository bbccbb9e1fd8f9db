-- ===== src/Lib.antt =====
-- RojCpp is the back end of an online judge: an HTTP server that keeps submissions, hands them to
-- judge servers and shows their results. This library models the parts that carry its logic and
-- proves what they are meant to do. Paths are from the repository's root.
--
-- The parts and where they are modelled:
--
-- - Buffer: the growing byte buffer of include/tools/buffers.h (expand_size, expand_twice_size,
--   left_size, ...) and the two functions that fill it, response::append_buff
--   (src/http_responese.cpp) and request::feed_read_datas (src/http_request.cpp). Buffer/Growth
--   has the invariant, Buffer/Append and Buffer/Feed the two functions.
-- - Http/Response: the response of include/http_response.h and src/http_responese.cpp, whose text
--   is collected in a Buffer; Http/Response/Status has the tables of
--   include/tools/response_cv.hpp.
-- - Http/Strings, Http/Query, Http/Request: the text helpers of include/tools/utils.hpp, and
--   request::parse_query, parse_header and get_content_type of src/http_request.cpp.
-- - Http/Router: include/http_route.h with get_method_arr, for_each_l and for_each_r of
--   include/tools/utils.hpp. Handlers and hooks are functions from an exchange, the request and
--   the response, to an Outcome (Http/Outcome): a value, an exception, or undefined behaviour.
-- - Http/Session: src/http_session.cpp and the handler that server::init sets (include/server.h);
--   Http/Session/Deal: the reading and sending loops of server::deal. A session reads into the
--   request's Buffer, parses, routes, and sends what the response's Buffer or its constant text
--   holds.
-- - Judge/Wire, Judge/SendMessage, Judge/ResultMessage: the messages between back end and judge
--   server (libs/judgercpp/judge_server/src/MessageBuffer.hpp, Send.hpp and Result.hpp).
-- - Judge/RwLock: include/judge/ReadWriteLock.hpp, as a step relation of any number of threads.
-- - Judge/Cache: judgeCache of include/judge/judgeServerMediator.hpp, a map behind that lock.
-- - Judge/Handler: the handler of the judge server's answers that server::init sets
--   (include/server.h): the tally of the points, the arguments of update_solution and the entry of
--   the cache, with dump_to_json (Result.hpp) and result_to_mini_result
--   (libs/judgercpp/src/utils.hpp).
-- - Log/Async: AsyncLogger (libs/logger/AsyncLogger.hpp), the front buffers and the writing thread
--   as steps that interleave in any way; Log/File: the files that it goes to
--   (libs/logger/logFile.hpp); Log/Stream: the text of a line (libs/logger/logStream.hpp).
-- - Judge/Judger: how the judger turns the end of a program into a verdict, and the limits that it
--   sets (libs/judgercpp/src/run.hpp and child_process.hpp). CommandLine is how it reads its options
--   (libs/judgercpp/commandline.hpp, judge_core.cpp), which Judge/Server/Args prints and a shell cuts
--   into words.
-- - Judge/Server: the judge server of libs/judgercpp/judge_server/src. Check is the comparison of
--   outputs (check.hpp), Language and Args the languages and the arguments of the judger (utils.hpp,
--   judgeArgs.hpp), Problem the data files of a problem (Problem.hpp), Sockets the sockets in use
--   (socketManager.hpp) and Worker the queue and what a thread does with a request
--   (judgeWorkPool.hpp). Output is how it reads what the judger writes, Worker/Started
--   puts the judger behind
--   its command line, and Worker/Report follows the answers to the handler of Judge/Handler. Loop is
--   what the server does with its connections (Server.hpp).
-- - Judge/Tcp: texts behind their lengths on a connection, in whatever pieces they arrive
--   (libs/judgercpp/judge_server/src/socketBase.hpp); Judge/Client: the back end's side, which sends
--   requests and reads answers (Client.hpp). Client/Delivery follows a request from there to the
--   queue of Judge/Server/Loop.
-- - Site/Tables, Site/Routes: the queries of include/curd and the routes of include/routes, with
--   Routes/Submission from a submission to the request of Judge/SendMessage.
-- - Json: libs/cppjson. Text has escapes and lists (utils.hpp), Parse the parser and the printer of
--   configs (serializable.hpp, config.hpp), Object the loading of an object from its registered
--   fields.
-- - Site/Body: from the body of a request to the entity of a submission
--   (include/jsonEnity/judge.hpp), which Site/Routes goes on with.
-- - FastCache: the sharded cache of include/tools/fastCache.hpp, over any sequence of calls.
-- - Db/ConnectionString: parse_connection_string (libs/modern_cppdb/include/utils.hpp) and
--   connection_info.hpp; Db/Mysql: how a connection is set up from it
--   (libs/modern_cppdb/include/backend/mysql_backend.hpp); Db/Pool: the connection pool
--   (libs/modern_cppdb/include/pool.hpp); Db/Query: the marks, parameters and text of a query
--   (libs/modern_cppdb/include/sql/query.hpp), which Site/Tables uses.
--
-- Prelude has what they share: lists, dictionaries, decimal digits, integers and texts.
--
-- Bounds and fuel. Sizes are numbers modulo 2 ^ 64, `int`s and `uint32_t`s of the messages 32-bit
-- patterns. Theorems on buffers ask for sizes below 2 ^ 62 (2 ^ 60 for a response's text), so that
-- doubling does not wrap. Where the source keeps a length, a position or a count in an `int`, the
-- length of a response's text, the positions in a message and the points of a score, they ask for
-- less than 2 ^ 31. The loop that grows a buffer
-- has one round of fuel more than the bytes to append, as every round adds a byte. The reading loop
-- is bounded by the sequence of results of the socket. The loops of parse_connection_string take
-- fuel above the length of the text, as each round takes a character, but for the one behind a
-- value, which can stay where it is. The comparison of two files has two rounds more than the right
-- output has bytes, as each takes a line of it. No other loop needs fuel.
--
-- Parameters. The allocator gives memory of the size asked for, with unknown contents. The
-- vendored HTTP parser is any function from the bytes read to its results. What the socket returns
-- is any sequence. The time is an argument. So are the answers of the MySQL client library and of
-- the database, the hash of the fast cache, the order in which a hash map is walked, the pieces in
-- which bytes arrive on a connection, and for the judge server the process of the judger, the files,
-- the names in a directory and the unique name.
--
-- Not modelled: the copies of other projects (tinyasync, picohttpparser, concurrentqueue, the
-- multipart parser); sockets, processes and threads beyond the locks, the logger and the steps named
-- above; the rows and schemas of the database layer, the prefix of a log line and the numbers with a
-- fraction in it, objects within objects and classes of other fields in JSON, the registration of servers with the mediator, cookies and the
-- codings of URLs.
pub mod Prelude
pub mod Buffer
pub mod Db
pub mod FastCache
pub mod Http
pub mod Json
pub mod Judge
pub mod Log
pub mod Site
