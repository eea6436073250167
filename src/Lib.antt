-- ===== src/Lib.antt =====
-- Shenron, an SSH application server: a model and its theorems.
--
-- The program. A connection (src/server/russh.rs) authenticates a user, keeps the channels that
-- the client opened until a shell, exec or subsystem request starts a session on one, and spawns
-- a task that runs the chain of middleware (src/middleware) on that session (src/session). What a
-- middleware returns becomes an exit status (src/exit.rs). The SFTP middleware serves a file system
-- over the channel (src/middleware/builtins/sftp).
--
-- The files.
--   Server             the state of a connection and the authentication callbacks of
--                      src/server/russh.rs, one function per callback, on explicit state
--   Server/Channels    the callbacks on channels, and the task that run_handler spawns
--   Server/Connection  the callbacks as steps of a connection, in any order that russh allows
--   Server/Builder     src/server/core.rs: the builder, russh's configuration, and serve up to the
--                      listener
--   Server/Keygen      src/server/keygen.rs, and with Server/Builder/HostKeys the builder's calls of
--                      it, on Files: the part of std::fs and std::path that it uses
--   Auth               src/auth: outcome.rs, config.rs, keyboard_interactive.rs; a conversation is
--                      a tree whose branches are the client's answers
--   Session, Channel   src/session/core.rs, kind.rs, event.rs, pty.rs; a channel is what is still
--                      to come and what was sent, and may refuse a message
--   Extensions         src/session/extensions.rs, with boxes that carry the TypeId of their value
--   Exit, Error        src/exit.rs, src/error.rs
--   Task, Middleware   src/middleware/chain.rs, core.rs, erased.rs, next.rs; async code is a
--                      function of the session and a log, which returns or panics
--   Middleware/Builtins  src/middleware/builtins: access_control.rs, active_term.rs,
--                      comment.rs, elapsed.rs, logging.rs, recover.rs
--   Sftp               src/middleware/builtins/sftp/filesystem.rs, and below it handler.rs: Handler,
--                      ReadDir and PathRequests have the requests, Protocol the statuses and
--                      Longname the listing line; Calls has the requests as data
--   Sftp/Local         src/middleware/builtins/sftp/local.rs, on Sftp/Directory: cap-std's directory
--   Sftp/Serving       src/middleware/builtins/sftp/core.rs
--   Auth/TrustedCa     src/auth/trusted_ca.rs, on Lines for str::lines and str::trim
--   Auth/AuthorizedKeys  src/auth/authorized_keys.rs
--   Middleware/Builtins/RateLimit  src/middleware/builtins/rate_limit.rs
--   Events             src/events/event.rs and interceptor.rs
--   Events/Merging     src/events/core.rs; which source is ready first is a choice in each turn
--   Tui/Codes, Tui/Key src/tui/key.rs: the keys, and the parser of a packet
--   Tui/Loop           the loop of next in src/tui/core.rs, on the list of the events to come
--   Tui/Reading        the same loop on the stream of Events/Merging
--   Tui/Drawing        the rest of src/tui/core.rs, src/tui/writer.rs, and the size of a terminal in
--                      src/session/pty.rs
--   Utf8, Format       what the code uses of Rust's String and format!
--   HashMap            std's HashMap as an association list
--   Apps/Echo          examples/echo.rs, an application of the library
--   Apps/Looping       the loop over Session::next that examples/echo.rs and signal.rs have
--   Apps/Signal        examples/signal.rs
--   Apps/Exec          examples/exec.rs
--   Apps/Subsystem     examples/subsystem.rs
--   Apps/Context       examples/context.rs, which attaches values to logins and sessions
--   Examples           concrete servers, sessions and file systems
--
-- Numbers. Handles, the checks of the rate limiter and the session numbers of Apps/Context are
-- counted modulo 2 ^ 64. Other machine integers are only compared, stored, and added where the sum
-- cannot reach their width, and stand as numbers.
--
-- Fuel. The loop of Session::input runs on one more than the number of messages that are still to
-- come, since each turn takes one at least, and so do the loops of the applications. The loop over
-- a packet of keys runs on its length, since each turn takes a byte at least. The loop of Tui::next
-- needs one turn more than there are events in the stream. A client that reads a directory page by
-- page needs one request more than there are entries, since each page has an entry. A loop over the
-- events of a session needs one turn more than there are events and messages, since each turn gives
-- one of them.
--
-- Parameters. The keys and certificates of russh, the public key of a certificate and whether a
-- list of fingerprints validates it; the authentication handlers; whether russh takes a message;
-- shell_words::split; chrono's printing of a time and how a signal prints; governor's limiter;
-- terminput's parser of one event; ratatui's rendering of a frame; what russh and ssh-key do with
-- private keys and with the files of keys; the failures of system calls, and what other processes
-- do on disk; the file system behind the SFTP handler, and cap-std's directory behind the one on
-- disk.
--
-- Not modelled. Sockets and the listener that src/server/core.rs starts, what ratatui draws, and
-- the loop of russh_sftp that src/middleware/builtins/sftp/core.rs starts. Files has no symbolic
-- links and no umask. Log lines are kept, but not their formatting. Tasks of one connection
-- interleave at the callbacks of the connection; a session belongs to one task.
pub mod Common
pub mod HashMap
pub mod Error
pub mod Files
pub mod Exit
pub mod Extensions
pub mod Utf8
pub mod Lines
pub mod Channel
pub mod Session
pub mod Format
pub mod Task
pub mod Middleware
pub mod Auth
pub mod Sftp
pub mod Examples
pub mod Server
pub mod Tui
pub mod Apps
pub mod Events
