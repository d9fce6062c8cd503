-- ===== src/Stats/Server/Lists.antt =====
-- The handlers of stats-command.c that list.
use mpdcron.Prelude.{
  zero, suc, Bytes, codes, decimal_ℤ, Bool, true, false, Option, none, some, List, [], ◌∷◌, ◌++◌,
  is_empty, if◌then◌else◌,
}
use mpdcron.Prelude.Int.{ℤ, pos, negsuc}
use mpdcron.Stats.Database.{Result, ok, error, Sqlite}
use mpdcron.Stats.Database.Tags.{Split}
use mpdcron.Stats.Database.Select.{
  GenericData, SongData, db_list_song_expr, db_list_artist_expr, db_list_album_expr,
  db_list_genre_expr, db_listinfo_song_expr, db_listinfo_artist_expr, db_listinfo_album_expr,
  db_listinfo_genre_expr, db_list_song_tag_expr, db_list_album_tag_expr, db_list_artist_tag_expr,
  db_list_genre_tag_expr,
}
use mpdcron.Stats.Server.{
  Server, Served, aborted, served, return_ok, Host, command_puts, command_ok, command_error,
  with_one,
}

-- "%s" of a null pointer, as the C library of GNU prints it.
abbrev pub shown : Option Bytes → Bytes
shown none = codes "(null)"
shown (some text) = text

unfoldable pub put_number : Bytes → ℤ → Bytes
put_number name n = name ++ (codes ": " ++ decimal_ℤ n)

unfoldable pub put_text : Bytes → Option Bytes → Bytes
put_text name text = name ++ (codes ": " ++ shown text)

-- The loop over the tags that leaves out empty ones; a missing vector is followed.
unfoldable pub tag_lines : List Bytes → List Bytes
unfolding put_text
tag_lines [] = []
tag_lines (tag ∷ tags) =
    let rest = tag_lines tags in
    if is_empty tag then rest else put_text (codes "Tag") (some tag) ∷ rest

-- More lines behind those given, if there is a vector of tags.
unfoldable pub behind : List Bytes → Option (List Bytes) → Option (List Bytes)
unfolding tag_lines
behind lines none = none
behind lines (some tags) = some (lines ++ tag_lines tags)

unfoldable pub song_lines : SongData → List Bytes
unfolding put_number put_text
song_lines a = put_number (codes "id") a.id ∷ put_text (codes "file") a.uri ∷ []

unfoldable pub artist_lines : GenericData → List Bytes
unfolding put_number put_text
artist_lines a = put_number (codes "id") a.id ∷ put_text (codes "Artist") a.name ∷ []

unfoldable pub album_lines : GenericData → List Bytes
unfolding put_number put_text
album_lines a =
    put_number (codes "id") a.id
    ∷ put_text (codes "Album") a.name
    ∷ put_text (codes "Artist") a.artist
    ∷ []

unfoldable pub genre_lines : GenericData → List Bytes
unfolding put_number put_text
genre_lines a = put_number (codes "id") a.id ∷ put_text (codes "Genre") a.name ∷ []

-- The counts that listinfo shows of an artist, an album or a genre.
unfoldable pub info_lines : GenericData → List Bytes
unfolding put_number
info_lines a =
    put_number (codes "Play Count") a.play_count
    ∷ put_number (codes "Love") a.love
    ∷ put_number (codes "Kill") a.kill
    ∷ put_number (codes "Rating") a.rating
    ∷ []

is_zero : ℤ → Bool
is_zero (pos zero) = true
is_zero (pos (suc n)) = false
is_zero (negsuc n) = false

unfoldable pub song_info_lines : Host → SongData → List Bytes
unfolding put_number put_text is_zero
song_info_lines h song =
    put_number (codes "id") song.id
    ∷ put_text (codes "file") song.uri
    ∷ put_number (codes "Play Count") song.play_count
    ∷ put_number (codes "Love") song.love
    ∷ put_number (codes "Kill") song.kill
    ∷ put_number (codes "Rating") song.rating
    ∷ put_number (codes "Karma") song.karma
    ∷ (if is_zero song.last_played
        then []
        else put_text (codes "Last Played") (some (h.strftime song.last_played)) ∷ [])

module _ {D : Type 0} where
  unfoldable pub put_lines : List Bytes → Server D → Server D
  unfolding command_puts
  put_lines [] s = s
  put_lines (line ∷ lines) s = put_lines lines (command_puts line s)

  -- The loop over the values.
  unfoldable pub put_values :
      {A : Type 0} → (A → Option (List Bytes)) → List A → Server D → Served D
  unfolding put_lines command_ok
  put_values lines [] s = served return_ok (command_ok s)
  put_values lines (x ∷ xs) s = elim (lines x) [
    | none ↦ aborted s.database
    | some ls ↦ put_values lines xs (put_lines ls s)
  ]

  unfoldable pub answer_values :
      {A : Type 0} → (A → Option (List Bytes)) → Result (List A) × D → Server D → Served D
  unfolding put_values command_error
  answer_values lines (ok values, d) s = put_values lines values (record s { database = d })
  answer_values lines (error code message, d) s =
      command_error code message (record s { database = d })

module _ {D : Type 0} (q : Sqlite D) where
  unfoldable pub handle_list : List Bytes → Server D → Served D
  unfolding answer_values song_lines
  handle_list args s =
      with_one args s
        λ expr. answer_values (λ a. some (song_lines a)) (db_list_song_expr q expr s.database) s

  unfoldable pub handle_list_artist : List Bytes → Server D → Served D
  unfolding answer_values artist_lines
  handle_list_artist args s =
      with_one args s
        λ expr. answer_values (λ a. some (artist_lines a)) (db_list_artist_expr q expr s.database) s

  unfoldable pub handle_list_album : List Bytes → Server D → Served D
  unfolding answer_values album_lines
  handle_list_album args s =
      with_one args s
        λ expr. answer_values (λ a. some (album_lines a)) (db_list_album_expr q expr s.database) s

  unfoldable pub handle_list_genre : List Bytes → Server D → Served D
  unfolding answer_values genre_lines
  handle_list_genre args s =
      with_one args s
        λ expr. answer_values (λ a. some (genre_lines a)) (db_list_genre_expr q expr s.database) s

  unfoldable pub handle_listinfo : Host → List Bytes → Server D → Served D
  unfolding answer_values song_info_lines
  handle_listinfo h args s = with_one args s λ expr.
      answer_values (λ a. some (song_info_lines h a)) (db_listinfo_song_expr q expr s.database) s

  unfoldable pub handle_listinfo_artist : List Bytes → Server D → Served D
  unfolding answer_values artist_lines info_lines
  handle_listinfo_artist args s = with_one args s λ expr.
      answer_values (λ a. some (artist_lines a ++ info_lines a))
        (db_listinfo_artist_expr q expr s.database) s

  unfoldable pub handle_listinfo_album : List Bytes → Server D → Served D
  unfolding answer_values album_lines info_lines
  handle_listinfo_album args s = with_one args s λ expr.
      answer_values (λ a. some (album_lines a ++ info_lines a))
        (db_listinfo_album_expr q expr s.database) s

  unfoldable pub handle_listinfo_genre : List Bytes → Server D → Served D
  unfolding answer_values genre_lines info_lines
  handle_listinfo_genre args s = with_one args s λ expr.
      answer_values (λ a. some (genre_lines a ++ info_lines a))
        (db_listinfo_genre_expr q expr s.database) s

  module _ (g : Split) where
    unfoldable pub handle_listtags : List Bytes → Server D → Served D
    unfolding answer_values song_lines behind
    handle_listtags args s = with_one args s λ expr.
        answer_values (λ a. behind (song_lines a) a.tags)
          (db_list_song_tag_expr q g expr s.database) s

    unfoldable pub handle_listtags_album : List Bytes → Server D → Served D
    unfolding answer_values album_lines behind
    handle_listtags_album args s = with_one args s λ expr.
        answer_values (λ a. behind (album_lines a) a.tags)
          (db_list_album_tag_expr q g expr s.database) s

    unfoldable pub handle_listtags_artist : List Bytes → Server D → Served D
    unfolding answer_values artist_lines behind
    handle_listtags_artist args s = with_one args s λ expr.
        answer_values (λ a. behind (artist_lines a) a.tags)
          (db_list_artist_tag_expr q g expr s.database) s

    unfoldable pub handle_listtags_genre : List Bytes → Server D → Served D
    unfolding answer_values genre_lines behind
    handle_listtags_genre args s = with_one args s λ expr.
        answer_values (λ a. behind (genre_lines a) a.tags)
          (db_list_genre_tag_expr q g expr s.database) s
