-- ===== src/Stats/Session/Handlers.antt =====
-- The commands and the handlers of stats-command.c that a list of the client reaches.
use mpdcron.Prelude.{◌≡◌, refl, Bytes, codes, true, none, some, [], ◌∷◌}
use mpdcron.Stats.Tokenizer.{Ascii}
use mpdcron.Stats.Database.{Sqlite, select_text, db_select, selected}
use mpdcron.Stats.Database.Tags.{Split}
use mpdcron.Stats.Database.Select.{
  db_list_artist_expr, db_list_album_expr, db_list_genre_expr, db_listinfo_artist_expr,
  db_listinfo_album_expr, db_listinfo_genre_expr,
}
use mpdcron.Stats.Command.{Command, permission_select, command_check_request, found}
use mpdcron.Stats.Command.Table.{command_lookup}
use mpdcron.Stats.Server.{Server, Host}
use mpdcron.Stats.Server.Lists.{
  answer_values, handle_list_artist, handle_list_album, handle_list_genre, handle_listinfo_artist,
  handle_listinfo_album, handle_listinfo_genre,
}
use mpdcron.Stats.Client.{LineReader, new_entity, parse_values}
use mpdcron.Prelude.Int.{pos}
use mpdcron.Stats.Client.{mpdcron_parse_artists, mpdcron_parse_albums, mpdcron_parse_genres}
use mpdcron.Stats.Client.Calls.{
  exchange, mpdcron_list_artist_expr, mpdcron_list_album_expr, mpdcron_list_genre_expr,
  mpdcron_listinfo_artist_expr, mpdcron_listinfo_album_expr, mpdcron_listinfo_genre_expr,
}
use mpdcron.Stats.Server.Serve.{call_handler}
use mpdcron.Stats.Session.{server_peer}
use mpdcron.Stats.Session.Dispatch.{is_name}
use mpdcron.Stats.Session.Listing.{
  Listing, list_artists, list_albums, list_genres, info_artists, info_albums, info_genres, field_of,
  lines_of,
}
use mpdcron.Stats.Session.Lists.{listed, value_of}
use mpdcron.Stats.Session.Rows.{selection}

module _ (a : Ascii) (r : LineReader) {D : Type 0} (q : Sqlite D) (g : Split) (h : Host) where
  -- The handler that the server calls for a list, and the answer.
  pub record Lists (l : Listing) (expr : Bytes) : Type 0 where
    pub name : Bytes
    pub command : Command
    pub requests :
        (s : Server D)
        → listed (server_peer a r q g h) l expr s
          ≡ exchange
              (server_peer a r q g h)
              name
              (expr ∷ [])
              (parse_values new_entity (field_of l) none [])
              s
    pub word : is_name name ≡ true
    pub here : command_lookup name ≡ found command
    pub permission : command.permission ≡ permission_select
    pub passes : command_check_request command permission_select name 2 ≡ none
    pub handles :
        (s : Server D)
        → call_handler q g h command.handler name (expr ∷ []) s
          ≡ answer_values
              (λ x. some (lines_of l x))
              (selected q (value_of l) (q.select (selection l expr) s.database))
              s

  pub listed-Lists : (l : Listing) (expr : Bytes) → Lists l expr
  unfolding listed selection command_lookup command_check_request call_handler db_select select_text
      mpdcron_list_artist_expr handle_list_artist db_list_artist_expr mpdcron_list_album_expr
      handle_list_album db_list_album_expr mpdcron_list_genre_expr handle_list_genre
      db_list_genre_expr mpdcron_listinfo_artist_expr handle_listinfo_artist db_listinfo_artist_expr
      mpdcron_listinfo_album_expr handle_listinfo_album db_listinfo_album_expr
      mpdcron_listinfo_genre_expr handle_listinfo_genre db_listinfo_genre_expr mpdcron_parse_artists
      mpdcron_parse_albums mpdcron_parse_genres
  listed-Lists list_artists expr = record {
    name = codes "list_artist";
    command = record {
      cmd = codes "list_artist";
      permission = permission_select;
      min = pos 1;
      max = pos 1;
      handler = codes "handle_list_artist";
    };
    requests = λ s. refl;
    word = refl;
    here = refl;
    permission = refl;
    passes = refl;
    handles = λ s. refl;
  }
  listed-Lists list_albums expr = record {
    name = codes "list_album";
    command = record {
      cmd = codes "list_album";
      permission = permission_select;
      min = pos 1;
      max = pos 1;
      handler = codes "handle_list_album";
    };
    requests = λ s. refl;
    word = refl;
    here = refl;
    permission = refl;
    passes = refl;
    handles = λ s. refl;
  }
  listed-Lists list_genres expr = record {
    name = codes "list_genre";
    command = record {
      cmd = codes "list_genre";
      permission = permission_select;
      min = pos 1;
      max = pos 1;
      handler = codes "handle_list_genre";
    };
    requests = λ s. refl;
    word = refl;
    here = refl;
    permission = refl;
    passes = refl;
    handles = λ s. refl;
  }
  listed-Lists info_artists expr = record {
    name = codes "listinfo_artist";
    command = record {
      cmd = codes "listinfo_artist";
      permission = permission_select;
      min = pos 1;
      max = pos 1;
      handler = codes "handle_listinfo_artist";
    };
    requests = λ s. refl;
    word = refl;
    here = refl;
    permission = refl;
    passes = refl;
    handles = λ s. refl;
  }
  listed-Lists info_albums expr = record {
    name = codes "listinfo_album";
    command = record {
      cmd = codes "listinfo_album";
      permission = permission_select;
      min = pos 1;
      max = pos 1;
      handler = codes "handle_listinfo_album";
    };
    requests = λ s. refl;
    word = refl;
    here = refl;
    permission = refl;
    passes = refl;
    handles = λ s. refl;
  }
  listed-Lists info_genres expr = record {
    name = codes "listinfo_genre";
    command = record {
      cmd = codes "listinfo_genre";
      permission = permission_select;
      min = pos 1;
      max = pos 1;
      handler = codes "handle_listinfo_genre";
    };
    requests = λ s. refl;
    word = refl;
    here = refl;
    permission = refl;
    passes = refl;
    handles = λ s. refl;
  }
