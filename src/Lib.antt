-- ===== src/Lib.antt =====
-- mpdcron executes hooks and modules when the music player daemon (MPD) reports an event. This
-- library models its daemon loop, the dispatch of events to modules, the submission state machine of
-- the scrobbler module with its journal and its player events, and the statistics server with its
-- database functions and its client.
--
-- The parts, and the files of this library that model them (C paths from the repository's root):
--
-- - src/cron-loop.c, in Loop.antt. The connection, the id of the idle watch and the id of the
--   reconnection timer are the fields of `Loop`, with the number of watches and timers that are
--   attached to the main loop. `loop_connect`, `loop_disconnect`, `loop_reconnect`, `loop_idle`,
--   `loop_schedule_idle`, `loop_schedule_reconnect` and `loop_failure` are the functions of those
--   names, and `run_events` is the loop of loop_idle over the bits of an idle mask, which calls
--   event_run of the next part.
-- - src/cron-event.c, in Event.antt: `event_run` and one function for each event. What MPD answers to
--   an event's requests is the record `Mpd`; what the daemon does, in order, is a list of calls:
--   run the modules, set variables, run the hook.
-- - src/cron-gmodule.c and src/gmodule/gmodule.h, in Modules.antt, Modules/Walk.antt (`walk_modules`, the
--   loop of module_database_run and of its seven copies, with `process_ret` for module_process_ret)
--   and Modules/Loading.antt (`module_load` with `module_path`, `open_library` and `load_library`,
--   the parts of module_init_one). The GSList of modules is a list, and the loop variable, a pointer
--   to a link, is a position in it. What the modules share is a world, which their functions for an
--   event and their `destroy` change.
-- - src/gmodule/scrobbler/scrobbler-submit.c with scrobbler-record.c and scrobbler-defs.h, in
--   Scrobbler/Record.antt, Scrobbler/Types.antt (struct scrobbler is `Scrobbler`),
--   Scrobbler/Response.antt (the parsers of answers), Scrobbler/Request.antt (the bodies of requests)
--   and Scrobbler/Submit.antt (the handlers). A handler takes the scrobbler and returns an `Outcome`:
--   the new scrobbler with the timers and requests that it asks for, or an abort where an assertion
--   fails. Scrobbler/Submit/System.antt puts one scrobbler into the main loop: `Reach` is the step
--   relation of the timers, answers and songs that can come in any order.
-- - src/gmodule/scrobbler/scrobbler-journal.c, in Scrobbler/Journal.antt: `journal_write` and
--   `journal_read` over the text of the file, with the lines of fgets and the flag
--   journal_file_empty, which is global in the source and a field of `Journal` here.
-- - src/gmodule/scrobbler/scrobbler-module.c and song_check_tags of src/gmodule/utils.h, in
--   Scrobbler/Player.antt: `event_player` over the statics of the file, `Player`. What it does is a
--   list of calls: records to announce, records to submit, calls on the timer of the song; it returns
--   what the module asks of the daemon.
-- - src/gmodule/stats, the statistics server and its client. tokenizer.c is Stats/Tokenizer.antt.
--   stats-command.c is Stats/Command.antt with Stats/Command/Table.antt (the table and its binary
--   search) and Stats/Command/Process.antt (from a line to the call of a handler), and
--   Stats/Server.antt with Stats/Server/Changes.antt and Stats/Server/Lists.antt (the handlers) and
--   Stats/Server/Serve.antt (command_process with its answers, `serve_line`). struct client, the
--   database, what was written and current_command are the record `Server`, and a failed assertion leaves the
--   database as it then is; the handlers are found by
--   the names that stand in the table for their pointers. stats-sqlite.c is Stats/Database.antt with
--   Stats/Database/Change.antt, Stats/Database/Tags.antt and Stats/Database/Select.antt: the functions
--   that the handlers call, over the record `Sqlite`. eugene-connection.c is Stats/Protocol.antt (what
--   the client writes), Stats/Client.antt (the parser of answers), Stats/Client/Welcome.antt (the
--   greeting) and Stats/Client/Calls.antt (its functions, over a `Peer` that answers a line).
--   Stats/Session.antt joins both: the server's event_read_line (stats-server.c) as the peer of the
--   client. The table of clients of stats-server.c is Stats/Server/Clients.antt. quote of eugene-utils.c is in Stats/Protocol.antt.
--
-- Strings are lists of bytes without the closing zero. Numbers are the native ones, and C's int is an
-- integer over them; strtol and atoi are functions of Prelude/Number.antt, over a long of 64 bits.
-- GLib, libcurl, libmpdclient and SQLite are parameters: their answers are arguments or fields of
-- `Mpd`, `Env`, `Loader` and `Host`, the ASCII functions of GLib are the record `Ascii` for the
-- tokenizer and `Strings` for the journal, `Split` is g_strsplit, `LineReader` the line reader of GIO,
-- and `Sqlite` what SQLite makes of the text of a statement, each with the documented facts that are
-- relied on. The ids that GLib gives to timers and watches are positive where a theorem needs it, as
-- GLib documents.
--
-- Fuel: `walk_modules` runs on fuel, and `rounds` of its state and one more is enough; Modules/Run.antt
-- gives the loop as a function without fuel. The search of the command table has 50 rounds for its
-- 50 commands. The digits of a number n are written on fuel n + 1. All other loops are structural.
--
-- Not modelled: the loops over the list of scrobblers, the notification module, the configuration
-- files, the curl client, the creation and migration of the database and its update when a song was
-- played (db_process), the authorizer of SQLite, the sockets of the server,
-- the command line clients, logging, the variables of the environment, the spawning of hooks, and
-- unloading a module by name. They are input and output, calls of libraries, or parts that no modelled
-- part depends on. The scrobbler's interval stays within two hours, so that its doubling reaches no
-- wrap-around.
mod Prelude
pub mod Modules
pub mod Event
pub mod Loop
pub mod Scrobbler
pub mod Stats
