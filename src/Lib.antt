-- ===== src/Lib.antt =====
-- gurucomkz/evcp: a small web server, and the console of a hosting panel behind it.
--
-- The server takes connections on sockets (src/core/connection.cpp). `conn_read` collects bytes and
-- gives them to the parsers of src/core/request.cpp, cuts the request's strings out of the buffer,
-- and reads variables and cookies. `sp_process_request` hands a command of the console to
-- `mgrProcess`, or finds a file. `conn_compile_resp`, `sp_responce_senfile` and `conn_respond` make
-- the answer and send it. Users who have logged in have a session (src/core/sp_session.cpp), found
-- by a cookie. Settings come from a file (src/core/config.cpp). The commands of the console
-- (src/modules/mgr) ask SQLite (src/core/mydb.cpp) and answer with pages that libxslt makes of XML. A
-- thread of its own runs the periodic jobs (src/core/sp_timer.cpp).
--
-- The files, and the code that each one models:
--   Base        natural numbers' tests, lists over the native numbers, and `std::map` as an
--               association list in the order of its keys; no code of the repository
--   Request     src/core/request.cpp and the fields of `sp_request_s` (src/core/connection.h)
--     Chars, Http       character classes and constants (also src/core/request.h, const_c.h)
--     Method            the `switch (p - m)` that recognises a method
--     Target, Version   one `step_*` for each state of `sp_parse_request_line`
--     Line              the loop, `done`, and `parse_request_line` for the function itself
--     Header            the states and the loop of `sp_parse_header_line` (`parse_header_line`)
--   Connection  src/core/connection.cpp, the side of the request
--     Headers           the loop over header lines in `conn_read`
--     Read              `conn_read` itself, for one event
--     Line              the strings of the request line in `conn_read`, and the scan for dots
--     Values            `sp_read_http_values`
--     Body              the variables of a POST in `conn_read`
--     Cookies           `sp_decode_cookies`, `cookieGet`
--     Mime, Process     `getmime`, `get_etag`, `sp_process_request`
--   Response    src/core/connection.cpp, the side of the answer
--     Status            `conn_stdresp`; Response itself has `conn_fillresp`, `conn_compile_resp`
--     Send              `conn_respond` and the loop of `sp_responce_senfile`
--   Life        src/core/connection.cpp, a connection from its beginning to its end
--     Blocks, Conn      what it owns, `conn_init`, `conn_close`, `sp_next`, `sp_finish_request`
--     Events            its events and the handlers they start, composed from the parts above
--     Arrivals          the events in which a request comes
--     Sending, Streams  those in which a file is sent
--     Tls               the loop of `conn_respond` on TLS
--   Session     src/core/sp_session.cpp, with `cookieSet` and `cookieDel` of connection.cpp
--   Config      src/core/config.cpp
--   Database    src/core/mydb.cpp: `db_query`, `db_save_row`, `db_fetch_row`, `db_num_rows`
--     Setup, Statements src/core/sp_firstrun.cpp: `firsrunCheckAll` and its statements
--   Xml         src/core/sp_xml.cpp: `spXmlParser`; Params has `spXmlParams`
--   Console     src/modules/mgr
--     State             what a command works on, the loop of a handler, and the calls they share
--     Texts             the literal texts of the pages and of the longer queries
--     Entry             mgr_acc.cpp: `mgrAuth` (`auth`), the login, the first page, the way out
--     Groups, Sites     mgr_sitegroups.cpp, mgr_sites.cpp: a round of `for(;;)` for each handler
--     Urls, Ips         mgr_siteurls.cpp, mgr_ip.cpp
--     Programs          mgr.cpp: `mgrPS`, `mgrCreate`, and what handlers share that run programs
--     Containers        mgr_cts.cpp: `mgrCtsList`, `mgrCtsCreate`
--     Templates         mgr_oslist.cpp: `mgrOsList`, `mgrOsAdd`
--     Dispatch          mgr.cpp: `mgrProcess` (`process`) and the handlers that it starts
--   Listeners   src/core/connection.cpp: the pool of the sockets that are listened on
--   Stats       src/core/sp_stats.cpp
--   Log         src/core/splog.cpp: the text of a line; Files has `Write`, `Reopen`, `DeleteOldLogs`
--   Startup     src/core/smain.cpp: `main` up to the loop of events
--   Program     src/core/sys.cpp: reading the output of a program
--   Timer       src/core/sp_timer.cpp: a pass over the jobs; the threads as a step relation
--   Tests       runs of the model, and the theorems at concrete inputs
--
-- Correspondence. Bytes are numbers below 256 in lists. A pointer into the request's buffer is its
-- offset, an `Option` where the code tests it for NULL. A loop over bytes is a recursion over the
-- list of those that are left; a `goto` is a constructor of the value that a step returns. Numbers of
-- 16 and 32 bits wrap where the code's fields do. The loops over the results of `read` and `write`
-- take those results as a list, and say so if the list ends before the loop does.
--
-- Bounds. The loop over header lines is given a number of rounds; a round for each byte that is
-- left and one more are enough, unless a line is refused. `sessionRegister` is given the numbers
-- that `rand` yields, as many as are at hand. A handler of the console is given three rounds each
-- time it is called. The loop over a range of addresses is given its rounds; as many as there are
-- addresses from the first one on are enough. A loop over the rows of a result takes as many
-- rounds as the result has rows, the names of the columns counted. Decimal and hexadecimal texts
-- are given as many digits as a number of 32 bits has.
--
-- The console. A handler is a function from a connection to the end of one round of its `for(;;)`. The
-- texts that `db_query` is given are kept in their order, and SQLite is a function of the texts before
-- and the text itself. What is written to stderr is left out.
--
-- A connection. `run` takes the events of one connection in the order in which they come: bytes, a
-- moment, and for `conn_respond` and `sp_responce_senfile` what `write` and `read` return. An event
-- that the connection does not wait for changes nothing. A block of memory is NULL, there, or freed;
-- a use of a freed one, a second `free`, and the loss of a block are one outcome, `faults`.
--
-- Threads. The main thread and the thread of the timer take steps in any order; a lock that is held is
-- one flag, which `pthread_mutex_unlock` clears whoever calls it, as it does on Linux.
--
-- Parameters. `stat`, `open`, the text of a time (which depends on the machine's zone), the time,
-- `realloc` and `malloc`, what `accept`, `read`, `write`, `rand`, `bind` and `listen` return;
-- `mgrProcess` for `sp_process_request`, which has a view of it of its own; for the console `addslashes`, `explode`,
-- `base64_decode`, `atoi`, `atol`, SQLite, libxml and libxslt, whether `popen` succeeds, and the text of "%l";
-- for TLS what the calls of OpenSSL give.
--
-- Not modelled: libevent, and that it starts a handler for each event; reading on TLS, and the
-- keys and certificates; the end of the server and its signals; the HTTP
-- client, which is a shell around libcurl; base64, a copy of another project. A
-- command of the console is one event of a connection with any answer, and its own model is in
-- Console. Where `realloc` moves the buffer of a request, the source leaves most of
-- its pointers behind: the event ends in `dangles`, and the connection in `faults`. Any other block that
-- `realloc` moves is the same block.
pub mod Base
pub mod Config
pub mod Request
pub mod Connection
pub mod Console
pub mod Database
pub mod Response
pub mod Session
pub mod Life
pub mod Listeners
pub mod Startup
pub mod Stats
pub mod Log
pub mod Program
pub mod Timer
pub mod Xml
pub mod Tests
