-- ===== src/Stats/Server/Serve.antt =====
-- command_process of stats-command.c as a whole: the line, the authorizer, the handler, the answer.
use mpdcron.Prelude.{
  ℕ, Bytes, codes, bytes_eq, Bool, true, false, none, some, List, [], ◌∷◌, ◌++◌, if◌then◌else◌,
}
use mpdcron.Stats.Tokenizer.{Ascii}
use mpdcron.Stats.Database.{Sqlite}
use mpdcron.Stats.Database.Tags.{Split}
use mpdcron.Stats.Command.{ack_code}
use mpdcron.Stats.Command.Process.{
  refused, rejected, database_refused, crashed, invoked, Processed, command_process,
}
use mpdcron.Stats.Server.{Server, Served, aborted, served, Host, command_error}
use mpdcron.Stats.Server.Changes.{
  handle_addtag, handle_addtag_album, handle_addtag_artist, handle_addtag_genre, handle_count,
  handle_count_album, handle_count_artist, handle_count_genre, handle_karma, handle_kill,
  handle_kill_album, handle_kill_artist, handle_kill_genre, handle_love, handle_love_album,
  handle_love_artist, handle_love_genre, handle_password, handle_rate, handle_rate_album,
  handle_rate_artist, handle_rate_genre, handle_rate_absolute, handle_rate_absolute_album,
  handle_rate_absolute_artist, handle_rate_absolute_genre, handle_rmtag, handle_rmtag_album,
  handle_rmtag_artist, handle_rmtag_genre,
}
use mpdcron.Stats.Server.Lists.{
  handle_list, handle_list_album, handle_list_artist, handle_list_genre, handle_listinfo,
  handle_listinfo_album, handle_listinfo_artist, handle_listinfo_genre, handle_listtags,
  handle_listtags_album, handle_listtags_artist, handle_listtags_genre,
}

abbrev pub ack_error_database_auth : ℕ
ack_error_database_auth = 53

-- A handler takes argv[0] and the arguments behind it.
abbrev pub Handler : Type 0 → Type 0
Handler D = Bytes → List Bytes → Server D → Served D

module _ {D : Type 0} (q : Sqlite D) (g : Split) (h : Host) where
  -- The functions by the names that the table of commands holds for their pointers.
  unfoldable pub handlers : List (Bytes × Handler D)
  unfolding handle_addtag handle_addtag_album handle_addtag_artist handle_addtag_genre handle_count
      handle_count_album handle_count_artist handle_count_genre handle_karma handle_kill
      handle_kill_album handle_kill_artist handle_kill_genre handle_list handle_list_album
      handle_list_artist handle_list_genre handle_listinfo handle_listinfo_album
      handle_listinfo_artist handle_listinfo_genre handle_listtags handle_listtags_album
      handle_listtags_artist handle_listtags_genre handle_love handle_love_album handle_love_artist
      handle_love_genre handle_password handle_rate handle_rate_album handle_rate_artist
      handle_rate_genre handle_rate_absolute handle_rate_absolute_album handle_rate_absolute_artist
      handle_rate_absolute_genre handle_rmtag handle_rmtag_album handle_rmtag_artist
      handle_rmtag_genre
  handlers =
      (codes "handle_addtag", (λ name. handle_addtag q))
      ∷ (codes "handle_addtag_album", (λ name. handle_addtag_album q))
      ∷ (codes "handle_addtag_artist", (λ name. handle_addtag_artist q))
      ∷ (codes "handle_addtag_genre", (λ name. handle_addtag_genre q))
      ∷ (codes "handle_count", (λ name. handle_count q h))
      ∷ (codes "handle_count_album", (λ name. handle_count_album q h))
      ∷ (codes "handle_count_artist", (λ name. handle_count_artist q h))
      ∷ (codes "handle_count_genre", (λ name. handle_count_genre q h))
      ∷ (codes "handle_karma", (λ name. handle_karma q h))
      ∷ (codes "handle_kill", (handle_kill q))
      ∷ (codes "handle_kill_album", (handle_kill_album q))
      ∷ (codes "handle_kill_artist", (handle_kill_artist q))
      ∷ (codes "handle_kill_genre", (handle_kill_genre q))
      ∷ (codes "handle_list", (λ name. handle_list q))
      ∷ (codes "handle_list_album", (λ name. handle_list_album q))
      ∷ (codes "handle_list_artist", (λ name. handle_list_artist q))
      ∷ (codes "handle_list_genre", (λ name. handle_list_genre q))
      ∷ (codes "handle_listinfo", (λ name. handle_listinfo q h))
      ∷ (codes "handle_listinfo_album", (λ name. handle_listinfo_album q))
      ∷ (codes "handle_listinfo_artist", (λ name. handle_listinfo_artist q))
      ∷ (codes "handle_listinfo_genre", (λ name. handle_listinfo_genre q))
      ∷ (codes "handle_listtags", (λ name. handle_listtags q g))
      ∷ (codes "handle_listtags_album", (λ name. handle_listtags_album q g))
      ∷ (codes "handle_listtags_artist", (λ name. handle_listtags_artist q g))
      ∷ (codes "handle_listtags_genre", (λ name. handle_listtags_genre q g))
      ∷ (codes "handle_love", (handle_love q))
      ∷ (codes "handle_love_album", (handle_love_album q))
      ∷ (codes "handle_love_artist", (handle_love_artist q))
      ∷ (codes "handle_love_genre", (handle_love_genre q))
      ∷ (codes "handle_password", (λ name. handle_password h))
      ∷ (codes "handle_rate", (λ name. handle_rate q h))
      ∷ (codes "handle_rate_album", (λ name. handle_rate_album q h))
      ∷ (codes "handle_rate_artist", (λ name. handle_rate_artist q h))
      ∷ (codes "handle_rate_genre", (λ name. handle_rate_genre q h))
      ∷ (codes "handle_rate_absolute", (λ name. handle_rate_absolute q h))
      ∷ (codes "handle_rate_absolute_album", (λ name. handle_rate_absolute_album q h))
      ∷ (codes "handle_rate_absolute_artist", (λ name. handle_rate_absolute_artist q h))
      ∷ (codes "handle_rate_absolute_genre", (λ name. handle_rate_absolute_genre q h))
      ∷ (codes "handle_rmtag", (λ name. handle_rmtag q g))
      ∷ (codes "handle_rmtag_album", (λ name. handle_rmtag_album q g))
      ∷ (codes "handle_rmtag_artist", (λ name. handle_rmtag_artist q g))
      ∷ (codes "handle_rmtag_genre", (λ name. handle_rmtag_genre q g))
      ∷ []

  find_handler : Bytes → List (Bytes × Handler D) → Handler D
  unfolding bytes_eq
  find_handler handler [] = λ name args s. aborted s.database
  find_handler handler ((named, run) ∷ rest) =
      let other = find_handler handler rest in if bytes_eq handler named then run else other

  -- cmd->handler(client, argc, argv)
  unfoldable pub call_handler : Bytes → Handler D
  unfolding find_handler handlers
  call_handler handler = find_handler handler handlers

  unfoldable pub auth_error : Server D → Served D
  unfolding command_error
  auth_error s =
      command_error ack_error_database_auth
        (codes "sqlite3_set_authorizer: " ++ q.errmsg s.database) s

  -- The authorizer is taken away again, if SQLite lets it be.
  unfoldable pub released : Bool → Served D → Served D
  unfolding auth_error
  released works (aborted d) = aborted d
  released true (served r s) = served r (record s { current_command = none })
  released false (served r s) = auth_error s

  unfoldable pub perform : Bool → Processed → Server D → Served D
  unfolding command_error ack_code auth_error released call_handler
  perform works (refused ack command message) s =
      command_error (ack_code ack) message (record s { current_command = some command })
  perform works (rejected ack command message) s =
      released works
        (command_error (ack_code ack) message (record s { current_command = some command }))
  perform works (database_refused command) s =
      auth_error (record s { current_command = some command })
  perform works crashed s = aborted s.database
  perform works (invoked c name args) s =
      released works (call_handler c.handler name args (record s { current_command = some c.cmd }))

  -- command_process on a line. `authorized` says that the first two calls of db_set_authorizer
  -- succeed, `works` that the last does.
  unfoldable pub serve_line : Ascii → Bool → Bool → Bytes → Server D → Served D
  unfolding command_process perform
  serve_line a authorized works line s =
      perform works (command_process a authorized s.permission line) s
