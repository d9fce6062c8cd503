-- ===== src/Stats/Server/Safety.antt =====
-- Who may not update does not: the permissions of stats-command.c.
use mpdcron.Prelude.{◌≡◌, refl, Bytes, codes, Bool, true, false, some, ◌++◌, arith}
use mpdcron.Stats.Tokenizer.{Ascii}
use mpdcron.Stats.Database.{Sqlite, select_text}
use mpdcron.Stats.Database.Tags.{Split}
use mpdcron.Stats.Command.{ack_code}
use mpdcron.Stats.Command.Process.{
  Processed, refused, rejected, database_refused, crashed, invoked, command_process,
}
use mpdcron.Stats.Server.{Server, Served, aborted, served, Host, command_error}
use mpdcron.Stats.Server.Serve.{
  call_handler, auth_error, ack_error_database_auth, released, perform, serve_line,
}
use mpdcron.Stats.Server.Readers.{
  readers, All-is_one_of, IsKept, command_error-IsKept, Reads, readers-Reads,
}
use mpdcron.Stats.Server.Guard.{IsAllowed, command_process-IsAllowed}

module _ {D C : Type 0} (content : D → C) (q : Sqlite D) (g : Split) (h : Host)
    (select_keeps : (columns tbl expr : Bytes) (d : D)
      → content (q.select (select_text columns tbl expr) d).1 ≡ content d)
    (strict : (password : Bytes) → (h.passwords password).update ≡ false) where
  auth_error-IsKept :
      (c : C) (s : Server D)
      → content s.database ≡ c
      → s.permission.update ≡ false
      → IsKept content c (auth_error q g h s)
  unfolding auth_error
  auth_error-IsKept c s =
      command_error-IsKept content ack_error_database_auth
        (codes "sqlite3_set_authorizer: " ++ q.errmsg s.database) c s

  released-IsKept :
      (works : Bool) (c : C) (x : Served D)
      → IsKept content c x
      → IsKept content c (released q g h works x)
  unfolding released
  released-IsKept works c (aborted d) k = k
  released-IsKept true c (served r s) k = k
  released-IsKept false c (served r s) k = auth_error-IsKept c s k.0 k.1

  perform-IsKept :
      (works : Bool) (p : Processed) (s : Server D)
      → s.permission.update ≡ false
      → IsAllowed s.permission p
      → IsKept content (content s.database) (perform q g h works p s)
  unfolding perform IsAllowed
  perform-IsKept works (refused ack command message) s k allowed =
      command_error-IsKept content (ack_code ack) message (content s.database)
        (record s { current_command = some command }) refl k
  perform-IsKept works (rejected ack command message) s k allowed =
      released-IsKept works (content s.database)
        (command_error (ack_code ack) message (record s { current_command = some command }))
        (command_error-IsKept content (ack_code ack) message (content s.database)
          (record s { current_command = some command }) refl k)
  perform-IsKept works (database_refused command) s k allowed =
      auth_error-IsKept (content s.database) (record s { current_command = some command }) refl k
  perform-IsKept works crashed s k allowed = refl
  perform-IsKept works (invoked c name args) s k (guarded, permitted) =
      released-IsKept works (content s.database)
        (call_handler q g h c.handler name args (record s { current_command = some c.cmd }))
        (All-is_one_of (Reads content q g h select_keeps strict) readers c.handler
          (readers-Reads content q g h select_keeps strict) (ground arith) name args
          (record s { current_command = some c.cmd }) k)

  pub serve_line-IsKept :
      (a : Ascii) (authorized works : Bool) (line : Bytes) (s : Server D)
      → s.permission.update ≡ false
      → IsKept content (content s.database) (serve_line q g h a authorized works line s)
  unfolding serve_line
  serve_line-IsKept a authorized works line s k =
      perform-IsKept works (command_process a authorized s.permission line) s k
        (command_process-IsAllowed a authorized s.permission line)
