-- ===== src/Stats/Database/Select.antt =====
-- The functions of stats-sqlite.c that list songs, artists, albums and genres.
use mpdcron.Prelude.{Bytes, codes, Option, none, some, List}
use mpdcron.Prelude.Int.{ℤ, pos}
use mpdcron.Stats.Database.{Result, Sqlite, Row, db_select}
use mpdcron.Stats.Database.Tags.{Split}

-- struct db_generic_data, without what g_new0 leaves zero and nothing sets; `tags` is `none` for NULL.
pub record GenericData : Type 0 where
  pub id : ℤ
  pub play_count : ℤ
  pub love : ℤ
  pub kill : ℤ
  pub rating : ℤ
  pub name : Option Bytes
  pub artist : Option Bytes
  pub tags : Option (List Bytes)

-- struct db_song_data, likewise.
pub record SongData : Type 0 where
  pub id : ℤ
  pub play_count : ℤ
  pub love : ℤ
  pub kill : ℤ
  pub rating : ℤ
  pub karma : ℤ
  pub uri : Option Bytes
  pub last_played : ℤ
  pub tags : Option (List Bytes)

-- g_new0
abbrev pub generic_zero : GenericData
generic_zero = record {
  id = pos 0;
  play_count = pos 0;
  love = pos 0;
  kill = pos 0;
  rating = pos 0;
  name = none;
  artist = none;
  tags = none;
}

abbrev pub song_zero : SongData
song_zero = record {
  id = pos 0;
  play_count = pos 0;
  love = pos 0;
  kill = pos 0;
  rating = pos 0;
  karma = pos 0;
  uri = none;
  last_played = pos 0;
  tags = none;
}

-- What becomes of a row of id and name, as for artists and genres.
abbrev pub named : Row → GenericData
named r = record generic_zero { id = r.column_int 0; name = r.column_text 1 }

abbrev pub named_album : Row → GenericData
named_album r = record generic_zero {
  id = r.column_int 0;
  name = r.column_text 1;
  artist = r.column_text 2;
}

abbrev pub listed_song : Row → SongData
listed_song r = record song_zero { id = r.column_int 0; uri = r.column_text 1 }

abbrev pub informed : Row → GenericData
informed r = record generic_zero {
  id = r.column_int 0;
  play_count = r.column_int 1;
  name = r.column_text 2;
  love = r.column_int 3;
  kill = r.column_int 4;
  rating = r.column_int 5;
}

abbrev pub informed_album : Row → GenericData
informed_album r = record generic_zero {
  id = r.column_int 0;
  play_count = r.column_int 1;
  name = r.column_text 2;
  artist = r.column_text 3;
  love = r.column_int 4;
  kill = r.column_int 5;
  rating = r.column_int 6;
}

abbrev pub informed_song : Row → SongData
informed_song r = record song_zero {
  id = r.column_int 0;
  play_count = r.column_int 1;
  love = r.column_int 2;
  kill = r.column_int 3;
  rating = r.column_int 4;
  karma = r.column_int 5;
  last_played = r.column_int64 6;
  uri = r.column_text 7;
}

module _ (g : Split) where
  -- g_strsplit of a column; it returns NULL for NULL.
  abbrev split_column : Option Bytes → Option (List Bytes)
  split_column none = none
  split_column (some tags) = some (g.strsplit tags)

  abbrev pub tagged : Row → GenericData
  tagged r = record generic_zero {
    id = r.column_int 0;
    name = r.column_text 1;
    tags = split_column (r.column_text 2);
  }

  abbrev pub tagged_album : Row → GenericData
  tagged_album r = record generic_zero {
    id = r.column_int 0;
    name = r.column_text 1;
    artist = r.column_text 2;
    tags = split_column (r.column_text 3);
  }

  abbrev pub tagged_song : Row → SongData
  tagged_song r = record song_zero {
    id = r.column_int 0;
    uri = r.column_text 1;
    tags = split_column (r.column_text 2);
  }

module _ {D : Type 0} (q : Sqlite D) where
  unfoldable pub db_list_artist_expr : Bytes → D → Result (List GenericData) × D
  unfolding db_select
  db_list_artist_expr = db_select q named (codes "id, name") (codes "artist")

  unfoldable pub db_list_album_expr : Bytes → D → Result (List GenericData) × D
  unfolding db_select
  db_list_album_expr = db_select q named_album (codes "id, name, artist") (codes "album")

  unfoldable pub db_list_genre_expr : Bytes → D → Result (List GenericData) × D
  unfolding db_select
  db_list_genre_expr = db_select q named (codes "id, name") (codes "genre")

  unfoldable pub db_list_song_expr : Bytes → D → Result (List SongData) × D
  unfolding db_select
  db_list_song_expr = db_select q listed_song (codes "id, uri") (codes "song")

  unfoldable pub db_listinfo_artist_expr : Bytes → D → Result (List GenericData) × D
  unfolding db_select
  db_listinfo_artist_expr =
      db_select q informed (codes "id, play_count, name, love, kill, rating") (codes "artist")

  unfoldable pub db_listinfo_album_expr : Bytes → D → Result (List GenericData) × D
  unfolding db_select
  db_listinfo_album_expr =
      db_select q informed_album (codes "id, play_count, name, artist, love, kill, rating")
        (codes "album")

  unfoldable pub db_listinfo_genre_expr : Bytes → D → Result (List GenericData) × D
  unfolding db_select
  db_listinfo_genre_expr =
      db_select q informed (codes "id, play_count, name, love, kill, rating") (codes "genre")

  unfoldable pub db_listinfo_song_expr : Bytes → D → Result (List SongData) × D
  unfolding db_select
  db_listinfo_song_expr =
      db_select q informed_song
        (codes "id, play_count, love, kill, rating, karma, last_played, uri") (codes "song")

  module _ (g : Split) where
    unfoldable pub db_list_artist_tag_expr : Bytes → D → Result (List GenericData) × D
    unfolding db_select
    db_list_artist_tag_expr = db_select q (tagged g) (codes "id, name, tags") (codes "artist")

    unfoldable pub db_list_album_tag_expr : Bytes → D → Result (List GenericData) × D
    unfolding db_select
    db_list_album_tag_expr =
        db_select q (tagged_album g) (codes "id, name, artist, tags") (codes "album")

    unfoldable pub db_list_genre_tag_expr : Bytes → D → Result (List GenericData) × D
    unfolding db_select
    db_list_genre_tag_expr = db_select q (tagged g) (codes "id, name, tags") (codes "genre")

    unfoldable pub db_list_song_tag_expr : Bytes → D → Result (List SongData) × D
    unfolding db_select
    db_list_song_tag_expr = db_select q (tagged_song g) (codes "id, uri, tags") (codes "song")
