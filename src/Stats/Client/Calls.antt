-- ===== src/Stats/Client/Calls.antt =====
-- The global functions of eugene-connection.c: a command is sent, and its answer parsed.
use mpdcron.Prelude.{Bytes, codes, Bool, Option, none, some, List, [], ◌∷◌, if◌then◌else◌}
use mpdcron.Prelude.Int.{ℤ}
use mpdcron.Stats.Protocol.{send_commandv}
use mpdcron.Stats.Client.{
  Received, write_failed, Entity, Song, mpdcron_parse_single, mpdcron_parse_changes,
  mpdcron_parse_albums, mpdcron_parse_artists, mpdcron_parse_genres, mpdcron_parse_songs,
}

-- The other end of the connection: given the line that is sent, it says what lines can be read then, or
-- `none` if the line cannot be written.
abbrev pub Peer : Type 0 → Type 0
Peer S = Bytes → S → Option (List Bytes) × S

-- The answer is parsed, unless the line could not be written.
abbrev pub read_reply : {A : Type 0} → Option (List Bytes) → (List Bytes → Received A) → Received A
read_reply none parse = write_failed
read_reply (some lines) parse = parse lines

module _ {S : Type 0} (peer : Peer S) where
  -- mpdcron_send_command, and the parsing of the answer.
  unfoldable pub exchange :
      {A : Type 0} → Bytes → List Bytes → (List Bytes → Received A) → S → Received A × S
  unfolding send_commandv
  exchange command args parse s =
      let (reply, s') = peer (send_commandv command args) s in (read_reply reply parse, s')

  unfoldable pub mpdcron_password : Bytes → S → Received Unit × S
  unfolding exchange mpdcron_parse_single
  mpdcron_password password = exchange (codes "password") (password ∷ []) mpdcron_parse_single

  unfoldable pub mpdcron_list_album_expr : Bytes → S → Received (List Entity) × S
  unfolding exchange mpdcron_parse_albums
  mpdcron_list_album_expr expr = exchange (codes "list_album") (expr ∷ []) mpdcron_parse_albums

  unfoldable pub mpdcron_listinfo_album_expr : Bytes → S → Received (List Entity) × S
  unfolding exchange mpdcron_parse_albums
  mpdcron_listinfo_album_expr expr =
      exchange (codes "listinfo_album") (expr ∷ []) mpdcron_parse_albums

  unfoldable pub mpdcron_listtags_album_expr : Bytes → S → Received (List Entity) × S
  unfolding exchange mpdcron_parse_albums
  mpdcron_listtags_album_expr expr =
      exchange (codes "listtags_album") (expr ∷ []) mpdcron_parse_albums

  unfoldable pub mpdcron_list_artist_expr : Bytes → S → Received (List Entity) × S
  unfolding exchange mpdcron_parse_artists
  mpdcron_list_artist_expr expr = exchange (codes "list_artist") (expr ∷ []) mpdcron_parse_artists

  unfoldable pub mpdcron_listinfo_artist_expr : Bytes → S → Received (List Entity) × S
  unfolding exchange mpdcron_parse_artists
  mpdcron_listinfo_artist_expr expr =
      exchange (codes "listinfo_artist") (expr ∷ []) mpdcron_parse_artists

  unfoldable pub mpdcron_listtags_artist_expr : Bytes → S → Received (List Entity) × S
  unfolding exchange mpdcron_parse_artists
  mpdcron_listtags_artist_expr expr =
      exchange (codes "listtags_artist") (expr ∷ []) mpdcron_parse_artists

  unfoldable pub mpdcron_list_genre_expr : Bytes → S → Received (List Entity) × S
  unfolding exchange mpdcron_parse_genres
  mpdcron_list_genre_expr expr = exchange (codes "list_genre") (expr ∷ []) mpdcron_parse_genres

  unfoldable pub mpdcron_listinfo_genre_expr : Bytes → S → Received (List Entity) × S
  unfolding exchange mpdcron_parse_genres
  mpdcron_listinfo_genre_expr expr =
      exchange (codes "listinfo_genre") (expr ∷ []) mpdcron_parse_genres

  unfoldable pub mpdcron_listtags_genre_expr : Bytes → S → Received (List Entity) × S
  unfolding exchange mpdcron_parse_genres
  mpdcron_listtags_genre_expr expr =
      exchange (codes "listtags_genre") (expr ∷ []) mpdcron_parse_genres

  unfoldable pub mpdcron_list_expr : (Bytes → ℤ) → Bytes → S → Received (List Song) × S
  unfolding exchange mpdcron_parse_songs
  mpdcron_list_expr time expr = exchange (codes "list") (expr ∷ []) (mpdcron_parse_songs time)

  unfoldable pub mpdcron_listinfo_expr : (Bytes → ℤ) → Bytes → S → Received (List Song) × S
  unfolding exchange mpdcron_parse_songs
  mpdcron_listinfo_expr time expr =
      exchange (codes "listinfo") (expr ∷ []) (mpdcron_parse_songs time)

  unfoldable pub mpdcron_listtags_expr : (Bytes → ℤ) → Bytes → S → Received (List Song) × S
  unfolding exchange mpdcron_parse_songs
  mpdcron_listtags_expr time expr =
      exchange (codes "listtags") (expr ∷ []) (mpdcron_parse_songs time)

  unfoldable pub mpdcron_love_album_expr : Bool → Bytes → ℤ → S → Received ℤ × S
  unfolding exchange mpdcron_parse_changes
  mpdcron_love_album_expr love expr changes =
      exchange (if love then codes "love_album" else codes "hate_album") (expr ∷ [])
        (mpdcron_parse_changes changes)

  unfoldable pub mpdcron_love_artist_expr : Bool → Bytes → ℤ → S → Received ℤ × S
  unfolding exchange mpdcron_parse_changes
  mpdcron_love_artist_expr love expr changes =
      exchange (if love then codes "love_artist" else codes "hate_artist") (expr ∷ [])
        (mpdcron_parse_changes changes)

  unfoldable pub mpdcron_love_genre_expr : Bool → Bytes → ℤ → S → Received ℤ × S
  unfolding exchange mpdcron_parse_changes
  mpdcron_love_genre_expr love expr changes =
      exchange (if love then codes "love_genre" else codes "hate_genre") (expr ∷ [])
        (mpdcron_parse_changes changes)

  unfoldable pub mpdcron_love_expr : Bool → Bytes → ℤ → S → Received ℤ × S
  unfolding exchange mpdcron_parse_changes
  mpdcron_love_expr love expr changes =
      exchange (if love then codes "love" else codes "hate") (expr ∷ [])
        (mpdcron_parse_changes changes)

  unfoldable pub mpdcron_kill_album_expr : Bool → Bytes → ℤ → S → Received ℤ × S
  unfolding exchange mpdcron_parse_changes
  mpdcron_kill_album_expr kkill expr changes =
      exchange (if kkill then codes "kill_album" else codes "unkill_album") (expr ∷ [])
        (mpdcron_parse_changes changes)

  unfoldable pub mpdcron_kill_artist_expr : Bool → Bytes → ℤ → S → Received ℤ × S
  unfolding exchange mpdcron_parse_changes
  mpdcron_kill_artist_expr kkill expr changes =
      exchange (if kkill then codes "kill_artist" else codes "unkill_artist") (expr ∷ [])
        (mpdcron_parse_changes changes)

  unfoldable pub mpdcron_kill_genre_expr : Bool → Bytes → ℤ → S → Received ℤ × S
  unfolding exchange mpdcron_parse_changes
  mpdcron_kill_genre_expr kkill expr changes =
      exchange (if kkill then codes "kill_genre" else codes "unkill_genre") (expr ∷ [])
        (mpdcron_parse_changes changes)

  unfoldable pub mpdcron_kill_expr : Bool → Bytes → ℤ → S → Received ℤ × S
  unfolding exchange mpdcron_parse_changes
  mpdcron_kill_expr kkill expr changes =
      exchange (if kkill then codes "kill" else codes "unkill") (expr ∷ [])
        (mpdcron_parse_changes changes)

  unfoldable pub mpdcron_rate_album_expr : Bytes → Bytes → ℤ → S → Received ℤ × S
  unfolding exchange mpdcron_parse_changes
  mpdcron_rate_album_expr expr rating changes =
      exchange (codes "rate_album") (expr ∷ rating ∷ []) (mpdcron_parse_changes changes)

  unfoldable pub mpdcron_rate_artist_expr : Bytes → Bytes → ℤ → S → Received ℤ × S
  unfolding exchange mpdcron_parse_changes
  mpdcron_rate_artist_expr expr rating changes =
      exchange (codes "rate_artist") (expr ∷ rating ∷ []) (mpdcron_parse_changes changes)

  unfoldable pub mpdcron_rate_genre_expr : Bytes → Bytes → ℤ → S → Received ℤ × S
  unfolding exchange mpdcron_parse_changes
  mpdcron_rate_genre_expr expr rating changes =
      exchange (codes "rate_genre") (expr ∷ rating ∷ []) (mpdcron_parse_changes changes)

  unfoldable pub mpdcron_rate_expr : Bytes → Bytes → ℤ → S → Received ℤ × S
  unfolding exchange mpdcron_parse_changes
  mpdcron_rate_expr expr rating changes =
      exchange (codes "rate") (expr ∷ rating ∷ []) (mpdcron_parse_changes changes)

  unfoldable pub mpdcron_rate_absolute_album_expr : Bytes → Bytes → ℤ → S → Received ℤ × S
  unfolding exchange mpdcron_parse_changes
  mpdcron_rate_absolute_album_expr expr rating changes =
      exchange (codes "rate_absolute_album") (expr ∷ rating ∷ []) (mpdcron_parse_changes changes)

  unfoldable pub mpdcron_rate_absolute_artist_expr : Bytes → Bytes → ℤ → S → Received ℤ × S
  unfolding exchange mpdcron_parse_changes
  mpdcron_rate_absolute_artist_expr expr rating changes =
      exchange (codes "rate_absolute_artist") (expr ∷ rating ∷ []) (mpdcron_parse_changes changes)

  unfoldable pub mpdcron_rate_absolute_genre_expr : Bytes → Bytes → ℤ → S → Received ℤ × S
  unfolding exchange mpdcron_parse_changes
  mpdcron_rate_absolute_genre_expr expr rating changes =
      exchange (codes "rate_absolute_genre") (expr ∷ rating ∷ []) (mpdcron_parse_changes changes)

  unfoldable pub mpdcron_rate_absolute_expr : Bytes → Bytes → ℤ → S → Received ℤ × S
  unfolding exchange mpdcron_parse_changes
  mpdcron_rate_absolute_expr expr rating changes =
      exchange (codes "rate_absolute") (expr ∷ rating ∷ []) (mpdcron_parse_changes changes)

  unfoldable pub mpdcron_addtag_album_expr : Bytes → Bytes → ℤ → S → Received ℤ × S
  unfolding exchange mpdcron_parse_changes
  mpdcron_addtag_album_expr expr tag changes =
      exchange (codes "addtag_album") (expr ∷ tag ∷ []) (mpdcron_parse_changes changes)

  unfoldable pub mpdcron_addtag_artist_expr : Bytes → Bytes → ℤ → S → Received ℤ × S
  unfolding exchange mpdcron_parse_changes
  mpdcron_addtag_artist_expr expr tag changes =
      exchange (codes "addtag_artist") (expr ∷ tag ∷ []) (mpdcron_parse_changes changes)

  unfoldable pub mpdcron_addtag_genre_expr : Bytes → Bytes → ℤ → S → Received ℤ × S
  unfolding exchange mpdcron_parse_changes
  mpdcron_addtag_genre_expr expr tag changes =
      exchange (codes "addtag_genre") (expr ∷ tag ∷ []) (mpdcron_parse_changes changes)

  unfoldable pub mpdcron_addtag_expr : Bytes → Bytes → ℤ → S → Received ℤ × S
  unfolding exchange mpdcron_parse_changes
  mpdcron_addtag_expr expr tag changes =
      exchange (codes "addtag") (expr ∷ tag ∷ []) (mpdcron_parse_changes changes)

  unfoldable pub mpdcron_rmtag_album_expr : Bytes → Bytes → ℤ → S → Received ℤ × S
  unfolding exchange mpdcron_parse_changes
  mpdcron_rmtag_album_expr expr tag changes =
      exchange (codes "rmtag_album") (expr ∷ tag ∷ []) (mpdcron_parse_changes changes)

  unfoldable pub mpdcron_rmtag_artist_expr : Bytes → Bytes → ℤ → S → Received ℤ × S
  unfolding exchange mpdcron_parse_changes
  mpdcron_rmtag_artist_expr expr tag changes =
      exchange (codes "rmtag_artist") (expr ∷ tag ∷ []) (mpdcron_parse_changes changes)

  unfoldable pub mpdcron_rmtag_genre_expr : Bytes → Bytes → ℤ → S → Received ℤ × S
  unfolding exchange mpdcron_parse_changes
  mpdcron_rmtag_genre_expr expr tag changes =
      exchange (codes "rmtag_genre") (expr ∷ tag ∷ []) (mpdcron_parse_changes changes)

  unfoldable pub mpdcron_rmtag_expr : Bytes → Bytes → ℤ → S → Received ℤ × S
  unfolding exchange mpdcron_parse_changes
  mpdcron_rmtag_expr expr tag changes =
      exchange (codes "rmtag") (expr ∷ tag ∷ []) (mpdcron_parse_changes changes)

  unfoldable pub mpdcron_count_album_expr : Bytes → Bytes → ℤ → S → Received ℤ × S
  unfolding exchange mpdcron_parse_changes
  mpdcron_count_album_expr expr count changes =
      exchange (codes "count_album") (expr ∷ count ∷ []) (mpdcron_parse_changes changes)

  unfoldable pub mpdcron_count_artist_expr : Bytes → Bytes → ℤ → S → Received ℤ × S
  unfolding exchange mpdcron_parse_changes
  mpdcron_count_artist_expr expr count changes =
      exchange (codes "count_artist") (expr ∷ count ∷ []) (mpdcron_parse_changes changes)

  unfoldable pub mpdcron_count_genre_expr : Bytes → Bytes → ℤ → S → Received ℤ × S
  unfolding exchange mpdcron_parse_changes
  mpdcron_count_genre_expr expr count changes =
      exchange (codes "count_genre") (expr ∷ count ∷ []) (mpdcron_parse_changes changes)

  unfoldable pub mpdcron_count_expr : Bytes → Bytes → ℤ → S → Received ℤ × S
  unfolding exchange mpdcron_parse_changes
  mpdcron_count_expr expr count changes =
      exchange (codes "count") (expr ∷ count ∷ []) (mpdcron_parse_changes changes)

  unfoldable pub mpdcron_karma_expr : Bytes → Bytes → ℤ → S → Received ℤ × S
  unfolding exchange mpdcron_parse_changes
  mpdcron_karma_expr expr karma changes =
      exchange (codes "karma") (expr ∷ karma ∷ []) (mpdcron_parse_changes changes)
