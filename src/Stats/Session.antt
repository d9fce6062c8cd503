-- ===== src/Stats/Session.antt =====
-- A client and the statistics server at the two ends of a connection: event_read_line of stats-server.c,
-- and the functions of eugene-connection.c that change the database.
pub mod Safety
pub mod Exchange
pub mod Change
pub mod Dispatch
pub mod Refinement
pub mod Listing
pub mod Rows
pub mod Lists
pub mod Handlers
pub mod Listed
mod Tests
use mpdcron.Prelude.{
  ℕ, zero, suc, ◌≡◌, refl, Bytes, codes, Bool, true, false, Option, none, some, List, [], ◌∷◌, ◌++◌,
}
use mpdcron.Prelude.Int.{ℤ}
use mpdcron.Stats.Tokenizer.{Ascii}
use mpdcron.Stats.Database.{Sqlite}
use mpdcron.Stats.Database.Tags.{Split}
use mpdcron.Stats.Client.{LineReader}
use mpdcron.Stats.Client.Calls.{Peer}
use mpdcron.Stats.Server.{Server, Served, aborted, served, Host}
use mpdcron.Stats.Server.Serve.{serve_line}

-- A client's connection behind the lines that were read: the daemon is gone, or it waits for a line.
pub data Connection (D : Type 0) : Type 0 where
  stopped : D → Connection D
  connected : Server D → Connection D

module _ (a : Ascii) (r : LineReader) {D : Type 0} (q : Sqlite D) (g : Split) (h : Host) where
  unfoldable pub after_line : (Server D → Connection D) → Served D → Connection D
  after_line next (aborted d) = stopped d
  after_line next (served ret s) = next s

  -- event_read_line for each line that can be read: it does not look at what command_process returns,
  -- and without a line nothing is processed. SQLite takes every authorizer.
  unfoldable pub event_read_line : List Bytes → Server D → Connection D
  unfolding after_line serve_line
  event_read_line [] s = connected s
  event_read_line (line ∷ lines) s =
      after_line (event_read_line lines) (serve_line q g h a true true line s)

  -- What the client can read: nothing from a server that is gone.
  unfoldable pub answer : Server D → Connection D → Option (List Bytes) × Server D
  answer s (stopped d) = (some [], record s { database = d })
  answer s (connected s') = (some (r.lines s'.output), s')

  -- The server as the other end of a connection: it gets the line with the newline that
  -- mpdcron_send_command puts behind it, and what it writes is flushed to the client.
  unfoldable pub server_peer : Peer (Server D)
  unfolding event_read_line after_line answer
  server_peer line s =
      let asked = record s { output = [] } in
      answer asked (event_read_line (r.lines (line ++ (b'\n' ∷ []))) asked)
