-- ===== src/Lib.antt =====
-- Verification of servoxide, an HTTP/1.1 server on one thread and one readiness loop.
--
-- The program. lc/src/server/mod.rs keeps a table of connections. It reads bytes into a buffer for
-- each, asks `parse_head` for a request head, and `decode_body` for the body in the framing that
-- `body_mode` finds; it picks a server block by the Host header, touches the session of the
-- request, lets `handle` route the request, and writes the bytes of the response.
--
-- Which file models which part:
--   Http/Request, lc/src/http/request.rs: Types has the types, Search `find_from`, Head
--     `parse_head`, Body `RequestHead::body_mode` and `decode_body`, Chunked `decode_chunked`,
--     Percent `percent_decode`. A `return` of a status is a value of HeadStatus or BodyStatus.
--   Http/Status, Http/Mime and Http/Response: lc/src/http/mod.rs, mime.rs and response.rs.
--   Http/Router, lc/src/http/router.rs: Match selects the route and checks the path, Pages makes
--     up error pages, listings and redirects, Static serves GET and DELETE, Multipart and Upload
--     serve POST, CgiOutput reads what a script prints, and Dispatch is `route` and `handle`.
--   Config: Types has the types of lc/src/config/mod.rs with their defaults; Tokens, Size and
--     Bindings are `tokenize`, `parse_size` and the check for duplicate bindings of `parse` in
--     lc/src/config/parser.rs. Parser has the parser's state there, Parser/Directive, Server and
--     Route its directives, and Parser/Blocks its blocks and `parse`; a `&mut` is a result.
--   Server, lc/src/server/mod.rs: Select is `select_server`, State the connection and the server,
--     Bind `bind`, Dispatch `try_dispatch` and the responses, Io the handlers of reads, writes and
--     accepts, and Loop `sweep_timeouts` and `run`. Ready says what holds between two events.
--   Cgi: the environment of a script and the loops on its pipes, of lc/src/cgi/mod.rs.
--   Poll and Main: lc/src/poll/mod.rs with epoll.rs in Poll/Epoll, and lc/src/main.rs.
--   Cookies: lc/src/cookies/mod.rs, the session store.
--   Text and Dict: the methods of `str` and `HashMap` that the code calls. A string is its bytes;
--     a dictionary is a list of pairs. Http/Router/Paths has those of `std::path` on Unix.
--   Specifications that do not mention the code they are about: Text/Numerals writes numbers by
--     their digits, Http/Request/Chunked/Message and SizeLine chunked bodies, Config/Size/Amounts
--     sizes with units; Cgi/Env reads an environment as `getenv` does.
--   Server/Loop/Reasons names the event at which a run panics, or spends the fuel of `accept_all`.
--
-- Bounds and fuel. A `usize` has 64 bits. Sums with a size that a client states wrap around, as
-- in a release build; theorems about chunked bodies take buffers shorter than 2 ^ 63 bytes, which
-- the allocator guarantees: `extend_from_slice` panics beyond. An index out of bounds is the
-- outcome `panics`. The chunk loop gets one unit of fuel more than the buffer has bytes, since
-- each round passes over two bytes at least; `find_all` and the trailer loop get the same. Each
-- loop of the parser of a configuration takes a token in each turn, and `parse` gives it one unit
-- more than there are tokens. The loop of `accept` has a unit for each call; it has no
-- bound in the code, since clients may arrive in it, so theorems take any fuel and say what a run
-- that spends it has come to (Server/Io/Accepts, Server/Loop/Reasons). `run` takes the number of
-- its rounds; the loops of Cgi get a unit for each call.
--
-- Parameters. The record FileSystem of Http/Router/Files stands for `std::fs` and for the run of
-- a script; its operations return the state of the files. The record System of Server/State stands
-- for the clock, random bytes, the sockets of lc/src/net.rs, the poller and the calls of `libc`.
-- The time and the random bytes of a session are arguments of `touch`. `str::to_uppercase` is a
-- parameter, since Unicode's tables of cases are data of the standard library.
-- Poll/Epoll takes `epoll_ctl` and `epoll_wait`, and Cgi the calls of `libc` on pipes.
--
-- Not modelled: the fork of a script, the calls on sockets and on kqueue, which lie below these
-- parameters; what the program prints to its console.
pub mod Prelude
pub mod Text
pub mod Dict
pub mod Config
pub mod Cookies
pub mod Poll
pub mod Http
pub mod Cgi
pub mod Server
pub mod Main
