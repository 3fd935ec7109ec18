-- ===== src/Lib.antt =====
-- Boost.Http.Io: HTTP messages over Asio streams, and the server and the client of its examples.
--
-- The library has four composed operations. `async_read_header`, `async_read_some` and `async_read`
-- feed the bytes of a stream to a parser of Boost.Http.Proto, `async_write_some` and `async_write`
-- send what a serializer of Boost.Http.Proto gives. Each is a coroutine object whose `operator()`
-- Asio calls again with the result of the operation that it waits for. The example server has one
-- worker for each connection, which accepts, reads a request, answers it with a file or an error page
-- and goes on; an acceptor owns the workers in a fixed_array; the server starts and stops it. The
-- example client requests a URL, follows redirects and prints the body of the last response.
--
-- Files and what they model:
-- - System: boost::system::error_code, as a type of codes with the tests that the code makes, and
--   std::size_t with its wrap-around at 2 ^ 64.
-- - Asio: what a call of `operator()` does when it returns (`Action`), and the points at which
--   BOOST_ASIO_CORO_REENTER resumes it (`Point`). Asio/Machine is the loop over completions (`drive`)
--   for a machine that runs operations of the library, as the worker and the client do; Runs has what
--   both know of those operations.
-- - Parser, Serializer: http_proto::parser and http_proto::serializer, which are another library: the
--   operations that the code calls are parameters, with what their documentation says as `IsLawful`.
-- - Read, Read/Header, Read/Body: include/boost/http_io/impl/read.hpp. `read_header_op` and
--   `read_body_op` are the `operator()` of the coroutines, `resume` has a clause for each point,
--   `arrived` is the body of the loop behind the read, `parsed` its end behind `pr_.parse(ec)`.
-- - Write/Some, Write/All: include/boost/http_io/impl/write.hpp. `write_some_op` and `write_op` are
--   the `operator()`; a `Session` is a write_op with the write_some_op that it waits for. Write/Relay
--   is `relay_some_op`, which is under #if 0.
-- - Exchange: one end of a connection with async_write, the other with async_read_header and
--   async_read.
-- - Initiating: what each operation waits for when its initiating function returns.
-- - Framing: messages one behind the other in a stream. Conversation: the client and a worker of the
--   server at the two ends of one connection.
-- - Text: the members of std::string and string_view that the server calls, on lists of code units.
-- - Server/Path, Server/Mime, Server/Request: the functions of example/server/main.cpp from
--   `get_extension` to `service_unavailable`. A handler gives the list of its calls on the response,
--   the serializer and the file system.
-- - Server/Worker: the class `worker` of example/server/main.cpp, one function for each member. Its
--   `on_event` hands a completion to the operation that is pending and, when that completes, calls
--   the handler; the operations are those of Read and Write.
-- - Server/Lifecycle, Server/Setup: example/server/server.cpp, server.hpp and acceptor.hpp.
--   Server/Lifecycle/Inputs says what a turn of the event loop brings to one worker.
-- - Server/Array: example/server/fixed_array.hpp.
-- - Server/Main: `main` of example/server/main.cpp.
-- - Client/Stream, Client/Visit, Client/State, Client/Request, Client/Main:
--   example/client/flex_await/main.cpp. The coroutines `connect`, `write_get_request` and `request`
--   are one machine: a `Pending` is the `co_await` at which it waits, with the operation of Read or Write that it waits for, and the
--   function `on_...` of each is the code from there to the next. Client/Libraries has what it calls
--   of Boost.Url, Boost.Asio and OpenSSL, as parameters.
-- - Client/Request/Protocol: the abstract client, a step relation on the calls it may make.
-- - The files below these state and prove the properties. Common has the names shared by all,
--   Example a parser of two-byte messages, a serializer and a server, on which Tests runs the code.
--
-- How the model runs: nothing has fuel. A composed operation is driven by a list of events, which are
-- the completions of the stream and of the executor in the order in which the event loop delivers
-- them; an event that nothing waits for leaves everything alone. Theorems quantify over the lists,
-- and those on termination say which lists are enough. A call of `operator()` has no loop of its
-- own: each turn of `for(;;)` ends in a read or in the upcall. std::size_t is 64 bits wide.
-- Undefined behaviour and a failed BOOST_ASSERT are results of their own (`bad_access`,
-- `assert_failed`), as is the std::logic_error of a read without a header (`logic_error`).
--
-- Not modelled: BOOST_ASIO_HANDLER_LOCATION, LOGGING and other output on std::cerr; the
-- configuration of the contexts in the two `main` functions; `file_handler`, whose body is empty;
-- and src/detail/except.cpp, which is one throw. The executor, the order in which it runs handlers
-- and the operating system are seen only through the events. Which operation a cancellation
-- completes is Asio's: the events may bring any completion.
pub mod Asio
pub mod Client
pub mod Common
pub mod Conversation
pub mod Example
pub mod Exchange
pub mod Framing
pub mod Initiating
pub mod Parser
pub mod Read
pub mod Runs
pub mod Serializer
pub mod Server
pub mod System
pub mod Tests
pub mod Text
pub mod Write
