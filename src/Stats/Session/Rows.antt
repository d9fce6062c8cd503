-- ===== src/Stats/Session/Rows.antt =====
-- What the database stores of artists, albums and genres, the rows of it that a list selects, and
-- what a client is to see of it.
use mpdcron.Prelude.{ℕ, suc, ◌≡◌, Bytes, codes, Option, some, none, List, [], ◌∷◌, ◌++◌}
use mpdcron.Prelude.Int.{ℤ, pos}
use mpdcron.Prelude.Number.{IsInt}
use mpdcron.Stats.Database.{Row, select_text}
use mpdcron.Stats.Server.Lists.{shown}
use mpdcron.Stats.Client.{Entity}
use mpdcron.Stats.Session.Exchange.{IsLine}
use mpdcron.Stats.Session.Listing.{
  Listing, list_artists, list_albums, list_genres, info_artists, info_albums, info_genres,
}

-- A record of one of the tables; only albums have an artist.
pub record Stored : Type 0 where
  pub id : ℤ
  pub play_count : ℤ
  pub name : Option Bytes
  pub artist : Option Bytes
  pub love : ℤ
  pub kill : ℤ
  pub rating : ℤ

pub data Column : Type 0 where
  id_column play_count_column name_column artist_column love_column kill_column rating_column :
      Column

abbrev column_name : Column → Bytes
column_name id_column = codes "id"
column_name play_count_column = codes "play_count"
column_name name_column = codes "name"
column_name artist_column = codes "artist"
column_name love_column = codes "love"
column_name kill_column = codes "kill"
column_name rating_column = codes "rating"

abbrev column_names : List Column → Bytes
column_names [] = []
column_names (c ∷ []) = column_name c
column_names (c ∷ (d ∷ cs)) = column_name c ++ (codes ", " ++ column_names (d ∷ cs))

abbrev pub columns_of : Listing → List Column
columns_of list_artists = id_column ∷ name_column ∷ []
columns_of list_albums = id_column ∷ name_column ∷ artist_column ∷ []
columns_of list_genres = id_column ∷ name_column ∷ []
columns_of info_artists =
    id_column ∷ play_count_column ∷ name_column ∷ love_column ∷ kill_column ∷ rating_column ∷ []
columns_of info_albums =
    id_column ∷ play_count_column ∷ name_column ∷ artist_column ∷ love_column ∷ kill_column
    ∷ rating_column ∷ []
columns_of info_genres =
    id_column ∷ play_count_column ∷ name_column ∷ love_column ∷ kill_column ∷ rating_column ∷ []

abbrev table_of : Listing → Bytes
table_of list_artists = codes "artist"
table_of list_albums = codes "album"
table_of list_genres = codes "genre"
table_of info_artists = codes "artist"
table_of info_albums = codes "album"
table_of info_genres = codes "genre"

-- The select for a list.
unfoldable pub selection : Listing → Bytes → Bytes
unfolding select_text
selection l expr = select_text (column_names (columns_of l)) (table_of l) expr

-- Column `n` of a row has what is stored under the name of the column.
abbrev HasColumn : Column → ℕ → Stored → Row → Type 0
HasColumn id_column n x row = row.column_int n ≡ x.id
HasColumn play_count_column n x row = row.column_int n ≡ x.play_count
HasColumn name_column n x row = row.column_text n ≡ x.name
HasColumn artist_column n x row = row.column_text n ≡ x.artist
HasColumn love_column n x row = row.column_int n ≡ x.love
HasColumn kill_column n x row = row.column_int n ≡ x.kill
HasColumn rating_column n x row = row.column_int n ≡ x.rating

abbrev pub HasColumns : List Column → ℕ → Stored → Row → Type 0
HasColumns [] n x row = Unit
HasColumns (c ∷ cs) n x row = HasColumn c n x row × HasColumns cs (suc n) x row

-- The rows are those of the stored records, one by one and under the columns of the list.
abbrev pub AreRows : Listing → List Stored → List Row → Type 0
AreRows l [] [] = Unit
AreRows l [] (row ∷ rs) = ⊥
AreRows l (x ∷ xs) [] = ⊥
AreRows l (x ∷ xs) (row ∷ rs) = HasColumns (columns_of l) 0 x row × AreRows l xs rs

-- What can be sent: ints, and texts of one line.
abbrev pub IsListable : Stored → Type 0
IsListable x =
    IsLine (shown x.name)
    × (IsLine (shown x.artist)
        × (IsInt x.id × (IsInt x.play_count × (IsInt x.love × (IsInt x.kill × IsInt x.rating)))))

-- What a client is to know: a list gives the id and the names, and listinfo the counts as well.
abbrev names_view : Stored → Option Bytes → Entity
names_view x artist = record {
  id = x.id;
  play_count = pos 0;
  name = some (shown x.name);
  artist = artist;
  love = pos 0;
  kill = pos 0;
  rating = pos 0;
  tags = [];
}

abbrev counts_view : Stored → Option Bytes → Entity
counts_view x artist = record {
  id = x.id;
  play_count = x.play_count;
  name = some (shown x.name);
  artist = artist;
  love = x.love;
  kill = x.kill;
  rating = x.rating;
  tags = [];
}

abbrev pub client_view : Listing → Stored → Entity
client_view list_artists x = names_view x none
client_view list_albums x = names_view x (some (shown x.artist))
client_view list_genres x = names_view x none
client_view info_artists x = counts_view x none
client_view info_albums x = counts_view x (some (shown x.artist))
client_view info_genres x = counts_view x none
