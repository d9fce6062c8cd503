-- ===== src/Stats/Session/Safety.antt =====
-- A session of a client that may not update.
use mpdcron.Prelude.{◌≡◌, subst, refl, Bytes, true, false, List, [], ◌∷◌}
use mpdcron.Stats.Tokenizer.{Ascii}
use mpdcron.Stats.Database.{Sqlite, select_text}
use mpdcron.Stats.Database.Tags.{Split}
use mpdcron.Stats.Client.{LineReader}
use mpdcron.Stats.Server.{Server, Served, aborted, served, Host}
use mpdcron.Stats.Server.Serve.{serve_line}
use mpdcron.Stats.Server.Readers.{IsKept}
use mpdcron.Stats.Server.Safety.{serve_line-IsKept}
use mpdcron.Stats.Session.{Connection, stopped, connected, after_line, event_read_line}

-- What is stored is as it was, and a client that is still connected still may not update.
abbrev pub IsUntouched : {D C : Type 0} → (D → C) → C → Connection D → Type 0
IsUntouched content c (stopped d) = content d ≡ c
IsUntouched content c (connected s) = (content s.database ≡ c) × (s.permission.update ≡ false)

-- `content` is what the tables hold, as opposed to the state of the connection to the database.
module _ (a : Ascii) (r : LineReader) {D C : Type 0} (content : D → C) (q : Sqlite D) (g : Split)
    (h : Host)
    (select_keeps : (columns tbl expr : Bytes) (d : D)
      → content (q.select (select_text columns tbl expr) d).1 ≡ content d)
    (strict : (password : Bytes) → (h.passwords password).update ≡ false) where
  after_line-IsUntouched :
      (next : Server D → Connection D) (c : C) (x : Served D)
      → ((s : Server D)
          → s.permission.update ≡ false
          → IsUntouched content (content s.database) (next s))
      → IsKept content c x
      → IsUntouched content c (after_line a r q g h next x)
  unfolding after_line
  after_line-IsUntouched next c (aborted d) keeps k = k
  after_line-IsUntouched next c (served ret s) keeps k =
      subst (λ (e : C). IsUntouched content e (next s)) k.0 (keeps s k.1)

  -- Whatever lines a client sends that may not update, the content of the database is unchanged,
  -- whether the server answers them, with success or errors, or stops at a failed assertion, and if
  -- it goes on the client still may not update; a select of the form that stats-sqlite.c prepares,
  -- with any columns, table and condition, leaves the content as it is, and none of the passwords
  -- of the server gives the permission to update.
  pub event_read_line-IsUntouched :
      (lines : List Bytes) (s : Server D)
      → s.permission.update ≡ false
      → IsUntouched content (content s.database) (event_read_line a r q g h lines s)
  unfolding event_read_line
  event_read_line-IsUntouched [] s k = (refl, k)
  event_read_line-IsUntouched (line ∷ lines) s k =
      after_line-IsUntouched (event_read_line a r q g h lines) (content s.database)
        (serve_line q g h a true true line s) (event_read_line-IsUntouched lines)
        (serve_line-IsKept content q g h select_keeps strict a true true line s k)
