-- ===== src/Stats/Session/Refinement.antt =====
-- What a client asks for is made of the database, and the client gets the result.
use mpdcron.Prelude.{◌≡◌, refl, Bytes, codes, Bool, true, false, [], ◌∷◌, All, arith}
use mpdcron.Prelude.Int.{ℤ}
use mpdcron.Stats.Tokenizer.{Ascii}
use mpdcron.Stats.Database.{Sqlite}
use mpdcron.Stats.Database.Change.{
  db_karma_song_expr, db_love_song_expr, db_love_album_expr, db_love_artist_expr,
  db_love_genre_expr, db_kill_song_expr, db_kill_album_expr, db_kill_artist_expr,
  db_kill_genre_expr, db_rate_song_expr, db_rate_absolute_song_expr, db_rate_absolute_album_expr,
  db_rate_absolute_artist_expr, db_rate_absolute_genre_expr, db_count_song_expr,
  db_count_album_expr, db_count_artist_expr, db_count_genre_expr,
}
use mpdcron.Stats.Database.Tags.{
  Split, db_add_song_tag_expr, db_add_album_tag_expr, db_add_artist_tag_expr, db_add_genre_tag_expr,
  db_remove_song_tag_expr, db_remove_album_tag_expr, db_remove_artist_tag_expr,
  db_remove_genre_tag_expr,
}
use mpdcron.Stats.Command.{command_check_request}
use mpdcron.Stats.Command.Table.{command_lookup}
use mpdcron.Stats.Client.{LineReader}
use mpdcron.Stats.Client.Calls.{
  mpdcron_love_expr, mpdcron_love_album_expr, mpdcron_love_artist_expr, mpdcron_love_genre_expr,
  mpdcron_kill_expr, mpdcron_kill_album_expr, mpdcron_kill_artist_expr, mpdcron_kill_genre_expr,
  mpdcron_rate_expr, mpdcron_rate_album_expr, mpdcron_rate_artist_expr, mpdcron_rate_genre_expr,
  mpdcron_rate_absolute_expr, mpdcron_rate_absolute_album_expr, mpdcron_rate_absolute_artist_expr,
  mpdcron_rate_absolute_genre_expr, mpdcron_count_expr, mpdcron_count_album_expr,
  mpdcron_count_artist_expr, mpdcron_count_genre_expr, mpdcron_addtag_expr,
  mpdcron_addtag_album_expr, mpdcron_addtag_artist_expr, mpdcron_addtag_genre_expr,
  mpdcron_rmtag_expr, mpdcron_rmtag_album_expr, mpdcron_rmtag_artist_expr, mpdcron_rmtag_genre_expr,
  mpdcron_karma_expr,
}
use mpdcron.Stats.Server.{Server, Host}
use mpdcron.Stats.Server.Changes.{
  handle_love, handle_love_album, handle_love_artist, handle_love_genre, handle_kill,
  handle_kill_album, handle_kill_artist, handle_kill_genre, handle_rate, handle_rate_album,
  handle_rate_artist, handle_rate_genre, handle_rate_absolute, handle_rate_absolute_album,
  handle_rate_absolute_artist, handle_rate_absolute_genre, handle_count, handle_count_album,
  handle_count_artist, handle_count_genre, handle_addtag, handle_addtag_album, handle_addtag_artist,
  handle_addtag_genre, handle_rmtag, handle_rmtag_album, handle_rmtag_artist, handle_rmtag_genre,
  handle_karma,
}
use mpdcron.Stats.Server.Serve.{call_handler}
use mpdcron.Stats.Session.{server_peer}
use mpdcron.Stats.Session.Exchange.{IsLine, IsSendable, reported, asked}
use mpdcron.Stats.Session.Dispatch.{answer_update, with_number-numbered, handle_karma-percentage}
use mpdcron.Stats.Session.Change.{
  Target, on_song, on_album, on_artist, on_genre, Change, change_love, change_kill, change_rate,
  change_rate_absolute, change_count, add_tag, remove_tag, change_karma, request, texts, IsKnown,
  change_database, numbered, converted, percentage,
}

module _ (a : Ascii) (r : LineReader) {D : Type 0} (q : Sqlite D) (g : Split) (h : Host) where
  Answered : Change → Type 0
  Answered c =
      (changes : ℤ) (s : Server D)
      → s.permission.update ≡ true
      → All IsLine (texts c)
      → IsSendable (change_database q g h c s.database).0
      → ((request (server_peer a r q g h) c changes s).0
          ≡ reported (change_database q g h c s.database).0)
        × ((request (server_peer a r q g h) c changes s).1.database
            ≡ (change_database q g h c s.database).1)

  love-Answered : (t : Target) (on : Bool) (expr : Bytes) → Answered (change_love t on expr)
  unfolding request change_database call_handler Answered command_lookup command_check_request asked
      mpdcron_love_expr mpdcron_love_album_expr mpdcron_love_artist_expr mpdcron_love_genre_expr
      handle_love handle_love_album handle_love_artist handle_love_genre
  love-Answered on_song true expr changes s u k m =
      answer_update a r q g h (codes "love") (expr ∷ []) s
        (db_love_song_expr q expr true s.database) changes u k m (omega arith) refl refl refl refl
        refl refl
  love-Answered on_song false expr changes s u k m =
      answer_update a r q g h (codes "hate") (expr ∷ []) s
        (db_love_song_expr q expr false s.database) changes u k m (omega arith) refl refl refl refl
        refl refl
  love-Answered on_album true expr changes s u k m =
      answer_update a r q g h (codes "love_album") (expr ∷ []) s
        (db_love_album_expr q expr true s.database) changes u k m (omega arith) refl refl refl refl
        refl refl
  love-Answered on_album false expr changes s u k m =
      answer_update a r q g h (codes "hate_album") (expr ∷ []) s
        (db_love_album_expr q expr false s.database) changes u k m (omega arith) refl refl refl refl
        refl refl
  love-Answered on_artist true expr changes s u k m =
      answer_update a r q g h (codes "love_artist") (expr ∷ []) s
        (db_love_artist_expr q expr true s.database) changes u k m (omega arith) refl refl refl refl
        refl refl
  love-Answered on_artist false expr changes s u k m =
      answer_update a r q g h (codes "hate_artist") (expr ∷ []) s
        (db_love_artist_expr q expr false s.database) changes u k m (omega arith) refl refl refl
        refl refl refl
  love-Answered on_genre true expr changes s u k m =
      answer_update a r q g h (codes "love_genre") (expr ∷ []) s
        (db_love_genre_expr q expr true s.database) changes u k m (omega arith) refl refl refl refl
        refl refl
  love-Answered on_genre false expr changes s u k m =
      answer_update a r q g h (codes "hate_genre") (expr ∷ []) s
        (db_love_genre_expr q expr false s.database) changes u k m (omega arith) refl refl refl refl
        refl refl

  kill-Answered : (t : Target) (on : Bool) (expr : Bytes) → Answered (change_kill t on expr)
  unfolding request change_database call_handler Answered command_lookup command_check_request asked
      mpdcron_kill_expr mpdcron_kill_album_expr mpdcron_kill_artist_expr mpdcron_kill_genre_expr
      handle_kill handle_kill_album handle_kill_artist handle_kill_genre
  kill-Answered on_song true expr changes s u k m =
      answer_update a r q g h (codes "kill") (expr ∷ []) s
        (db_kill_song_expr q expr true s.database) changes u k m (omega arith) refl refl refl refl
        refl refl
  kill-Answered on_song false expr changes s u k m =
      answer_update a r q g h (codes "unkill") (expr ∷ []) s
        (db_kill_song_expr q expr false s.database) changes u k m (omega arith) refl refl refl refl
        refl refl
  kill-Answered on_album true expr changes s u k m =
      answer_update a r q g h (codes "kill_album") (expr ∷ []) s
        (db_kill_album_expr q expr true s.database) changes u k m (omega arith) refl refl refl refl
        refl refl
  kill-Answered on_album false expr changes s u k m =
      answer_update a r q g h (codes "unkill_album") (expr ∷ []) s
        (db_kill_album_expr q expr false s.database) changes u k m (omega arith) refl refl refl refl
        refl refl
  kill-Answered on_artist true expr changes s u k m =
      answer_update a r q g h (codes "kill_artist") (expr ∷ []) s
        (db_kill_artist_expr q expr true s.database) changes u k m (omega arith) refl refl refl refl
        refl refl
  kill-Answered on_artist false expr changes s u k m =
      answer_update a r q g h (codes "unkill_artist") (expr ∷ []) s
        (db_kill_artist_expr q expr false s.database) changes u k m (omega arith) refl refl refl
        refl refl refl
  kill-Answered on_genre true expr changes s u k m =
      answer_update a r q g h (codes "kill_genre") (expr ∷ []) s
        (db_kill_genre_expr q expr true s.database) changes u k m (omega arith) refl refl refl refl
        refl refl
  kill-Answered on_genre false expr changes s u k m =
      answer_update a r q g h (codes "unkill_genre") (expr ∷ []) s
        (db_kill_genre_expr q expr false s.database) changes u k m (omega arith) refl refl refl refl
        refl refl

  rate-Answered :
      (t : Target) (expr value : Bytes)
      → IsKnown (change_rate t expr value)
      → Answered (change_rate t expr value)
  unfolding request change_database call_handler Answered command_lookup command_check_request asked
      mpdcron_rate_expr mpdcron_rate_album_expr mpdcron_rate_artist_expr mpdcron_rate_genre_expr
      handle_rate handle_rate_album handle_rate_artist handle_rate_genre numbered
  rate-Answered on_song expr value known changes s u k m =
      answer_update a r q g h (codes "rate") (expr ∷ value ∷ []) s
        (numbered h value (db_rate_song_expr q expr) s.database) changes u k m (omega arith) refl
        refl refl refl refl (with_number-numbered h value (db_rate_song_expr q expr) (asked _ s))
  rate-Answered on_album expr value known changes s u k m = absurd known
  rate-Answered on_artist expr value known changes s u k m = absurd known
  rate-Answered on_genre expr value known changes s u k m = absurd known

  rate_absolute-Answered :
      (t : Target) (expr value : Bytes) → Answered (change_rate_absolute t expr value)
  unfolding request change_database call_handler Answered command_lookup command_check_request asked
      mpdcron_rate_absolute_expr mpdcron_rate_absolute_album_expr mpdcron_rate_absolute_artist_expr
      mpdcron_rate_absolute_genre_expr handle_rate_absolute handle_rate_absolute_album
      handle_rate_absolute_artist handle_rate_absolute_genre numbered
  rate_absolute-Answered on_song expr value changes s u k m =
      answer_update a r q g h (codes "rate_absolute") (expr ∷ value ∷ []) s
        (numbered h value (db_rate_absolute_song_expr q expr) s.database) changes u k m
        (omega arith) refl refl refl refl refl
        (with_number-numbered h value (db_rate_absolute_song_expr q expr) (asked _ s))
  rate_absolute-Answered on_album expr value changes s u k m =
      answer_update a r q g h (codes "rate_absolute_album") (expr ∷ value ∷ []) s
        (numbered h value (db_rate_absolute_album_expr q expr) s.database) changes u k m
        (omega arith) refl refl refl refl refl
        (with_number-numbered h value (db_rate_absolute_album_expr q expr) (asked _ s))
  rate_absolute-Answered on_artist expr value changes s u k m =
      answer_update a r q g h (codes "rate_absolute_artist") (expr ∷ value ∷ []) s
        (numbered h value (db_rate_absolute_artist_expr q expr) s.database) changes u k m
        (omega arith) refl refl refl refl refl
        (with_number-numbered h value (db_rate_absolute_artist_expr q expr) (asked _ s))
  rate_absolute-Answered on_genre expr value changes s u k m =
      answer_update a r q g h (codes "rate_absolute_genre") (expr ∷ value ∷ []) s
        (numbered h value (db_rate_absolute_genre_expr q expr) s.database) changes u k m
        (omega arith) refl refl refl refl refl
        (with_number-numbered h value (db_rate_absolute_genre_expr q expr) (asked _ s))

  count-Answered : (t : Target) (expr value : Bytes) → Answered (change_count t expr value)
  unfolding request change_database call_handler Answered command_lookup command_check_request asked
      mpdcron_count_expr mpdcron_count_album_expr mpdcron_count_artist_expr mpdcron_count_genre_expr
      handle_count handle_count_album handle_count_artist handle_count_genre numbered
  count-Answered on_song expr value changes s u k m =
      answer_update a r q g h (codes "count") (expr ∷ value ∷ []) s
        (numbered h value (db_count_song_expr q expr) s.database) changes u k m (omega arith) refl
        refl refl refl refl (with_number-numbered h value (db_count_song_expr q expr) (asked _ s))
  count-Answered on_album expr value changes s u k m =
      answer_update a r q g h (codes "count_album") (expr ∷ value ∷ []) s
        (numbered h value (db_count_album_expr q expr) s.database) changes u k m (omega arith) refl
        refl refl refl refl (with_number-numbered h value (db_count_album_expr q expr) (asked _ s))
  count-Answered on_artist expr value changes s u k m =
      answer_update a r q g h (codes "count_artist") (expr ∷ value ∷ []) s
        (numbered h value (db_count_artist_expr q expr) s.database) changes u k m (omega arith) refl
        refl refl refl refl (with_number-numbered h value (db_count_artist_expr q expr) (asked _ s))
  count-Answered on_genre expr value changes s u k m =
      answer_update a r q g h (codes "count_genre") (expr ∷ value ∷ []) s
        (numbered h value (db_count_genre_expr q expr) s.database) changes u k m (omega arith) refl
        refl refl refl refl (with_number-numbered h value (db_count_genre_expr q expr) (asked _ s))

  add_tag-Answered : (t : Target) (expr value : Bytes) → Answered (add_tag t expr value)
  unfolding request change_database call_handler Answered command_lookup command_check_request asked
      mpdcron_addtag_expr mpdcron_addtag_album_expr mpdcron_addtag_artist_expr
      mpdcron_addtag_genre_expr handle_addtag handle_addtag_album handle_addtag_artist
      handle_addtag_genre
  add_tag-Answered on_song expr value changes s u k m =
      answer_update a r q g h (codes "addtag") (expr ∷ value ∷ []) s
        (db_add_song_tag_expr q expr value s.database) changes u k m (omega arith) refl refl refl
        refl refl refl
  add_tag-Answered on_album expr value changes s u k m =
      answer_update a r q g h (codes "addtag_album") (expr ∷ value ∷ []) s
        (db_add_album_tag_expr q expr value s.database) changes u k m (omega arith) refl refl refl
        refl refl refl
  add_tag-Answered on_artist expr value changes s u k m =
      answer_update a r q g h (codes "addtag_artist") (expr ∷ value ∷ []) s
        (db_add_artist_tag_expr q expr value s.database) changes u k m (omega arith) refl refl refl
        refl refl refl
  add_tag-Answered on_genre expr value changes s u k m =
      answer_update a r q g h (codes "addtag_genre") (expr ∷ value ∷ []) s
        (db_add_genre_tag_expr q expr value s.database) changes u k m (omega arith) refl refl refl
        refl refl refl

  remove_tag-Answered : (t : Target) (expr value : Bytes) → Answered (remove_tag t expr value)
  unfolding request change_database call_handler Answered command_lookup command_check_request asked
      mpdcron_rmtag_expr mpdcron_rmtag_album_expr mpdcron_rmtag_artist_expr mpdcron_rmtag_genre_expr
      handle_rmtag handle_rmtag_album handle_rmtag_artist handle_rmtag_genre
  remove_tag-Answered on_song expr value changes s u k m =
      answer_update a r q g h (codes "rmtag") (expr ∷ value ∷ []) s
        (db_remove_song_tag_expr q g expr value s.database) changes u k m (omega arith) refl refl
        refl refl refl refl
  remove_tag-Answered on_album expr value changes s u k m =
      answer_update a r q g h (codes "rmtag_album") (expr ∷ value ∷ []) s
        (db_remove_album_tag_expr q g expr value s.database) changes u k m (omega arith) refl refl
        refl refl refl refl
  remove_tag-Answered on_artist expr value changes s u k m =
      answer_update a r q g h (codes "rmtag_artist") (expr ∷ value ∷ []) s
        (db_remove_artist_tag_expr q g expr value s.database) changes u k m (omega arith) refl refl
        refl refl refl refl
  remove_tag-Answered on_genre expr value changes s u k m =
      answer_update a r q g h (codes "rmtag_genre") (expr ∷ value ∷ []) s
        (db_remove_genre_tag_expr q g expr value s.database) changes u k m (omega arith) refl refl
        refl refl refl refl

  karma-Answered : (expr value : Bytes) → Answered (change_karma expr value)
  unfolding request change_database call_handler Answered command_lookup command_check_request asked
      mpdcron_karma_expr handle_karma
  karma-Answered expr value changes s u k m =
      answer_update a r q g h (codes "karma") (expr ∷ value ∷ []) s
        (converted h value (percentage (db_karma_song_expr q expr)) s.database) changes u k m
        (omega arith) refl refl refl refl refl (handle_karma-percentage h q expr value (asked _ s))

  -- For every change that a client can ask for by the functions of eugene-connection.c, but rating
  -- albums, artists and genres, whose commands the server does not find, the call of the client
  -- over a connection to the server makes of the database of the server what the functions of
  -- stats-sqlite.c make of it for that change, with the number that a text stands for checked, and
  -- gives the client the number of changed rows, or the code and the message of the error; the
  -- client may update, its texts have no newline, the number of changes and the code of an error
  -- fit into an int, and the message of an error is one line that does not begin with a blank.
  pub request-change_database :
      (c : Change) (changes : ℤ) (s : Server D)
      → IsKnown c
      → s.permission.update ≡ true
      → All IsLine (texts c)
      → IsSendable (change_database q g h c s.database).0
      → ((request (server_peer a r q g h) c changes s).0
          ≡ reported (change_database q g h c s.database).0)
        × ((request (server_peer a r q g h) c changes s).1.database
            ≡ (change_database q g h c s.database).1)
  unfolding Answered
  request-change_database (change_love t on expr) changes s known =
      love-Answered t on expr changes s
  request-change_database (change_kill t on expr) changes s known =
      kill-Answered t on expr changes s
  request-change_database (change_rate t expr value) changes s known =
      rate-Answered t expr value known changes s
  request-change_database (change_rate_absolute t expr value) changes s known =
      rate_absolute-Answered t expr value changes s
  request-change_database (change_count t expr value) changes s known =
      count-Answered t expr value changes s
  request-change_database (add_tag t expr value) changes s known =
      add_tag-Answered t expr value changes s
  request-change_database (remove_tag t expr value) changes s known =
      remove_tag-Answered t expr value changes s
  request-change_database (change_karma expr value) changes s known =
      karma-Answered expr value changes s
