-- ===== src/Stats/Database/Change.antt =====
-- The functions of stats-sqlite.c that change counts, karma, love, kill marks and ratings.
use mpdcron.Prelude.{ℕ, Bytes, codes, Bool, ◌++◌, decimal_ℤ, if◌then◌else◌}
use mpdcron.Prelude.Int.{ℤ}
use mpdcron.Stats.Database.{
  Result, Sqlite, sql_update_artist, sql_update_album, sql_update_genre, sql_update_song,
  with_changes,
}

-- "%s(%d)"
unfoldable pub number_text : Bytes → ℤ → Bytes
number_text prefix n = prefix ++ (codes "(" ++ (decimal_ℤ n ++ codes ")"))

-- "love = love %s 1"
unfoldable pub love_text : Bool → Bytes
love_text love = codes "love = love " ++ ((if love then codes "+" else codes "-") ++ codes " 1")

-- "kill = %s"
unfoldable pub kill_text : Bool → Bytes
kill_text kkill = codes "kill = " ++ (if kkill then codes "kill + 1" else codes "0")

module _ {D : Type 0} (q : Sqlite D) where
  unfoldable pub db_count_artist_expr : Bytes → ℤ → D → Result ℕ × D
  unfolding with_changes number_text
  db_count_artist_expr expr count d =
      with_changes q
        (sql_update_artist q (number_text (codes "play_count = play_count + ") count) expr d)

  unfoldable pub db_count_album_expr : Bytes → ℤ → D → Result ℕ × D
  unfolding with_changes number_text
  db_count_album_expr expr count d =
      with_changes q
        (sql_update_album q (number_text (codes "play_count = play_count + ") count) expr d)

  unfoldable pub db_count_genre_expr : Bytes → ℤ → D → Result ℕ × D
  unfolding with_changes number_text
  db_count_genre_expr expr count d =
      with_changes q
        (sql_update_genre q (number_text (codes "play_count = play_count + ") count) expr d)

  unfoldable pub db_count_song_expr : Bytes → ℤ → D → Result ℕ × D
  unfolding with_changes number_text
  db_count_song_expr expr count d =
      with_changes q
        (sql_update_song q (number_text (codes "play_count = play_count + ") count) expr d)

  unfoldable pub db_love_artist_expr : Bytes → Bool → D → Result ℕ × D
  unfolding with_changes love_text
  db_love_artist_expr expr love d = with_changes q (sql_update_artist q (love_text love) expr d)

  unfoldable pub db_love_album_expr : Bytes → Bool → D → Result ℕ × D
  unfolding with_changes love_text
  db_love_album_expr expr love d = with_changes q (sql_update_album q (love_text love) expr d)

  unfoldable pub db_love_genre_expr : Bytes → Bool → D → Result ℕ × D
  unfolding with_changes love_text
  db_love_genre_expr expr love d = with_changes q (sql_update_genre q (love_text love) expr d)

  unfoldable pub db_love_song_expr : Bytes → Bool → D → Result ℕ × D
  unfolding with_changes love_text
  db_love_song_expr expr love d = with_changes q (sql_update_song q (love_text love) expr d)

  unfoldable pub db_kill_artist_expr : Bytes → Bool → D → Result ℕ × D
  unfolding with_changes kill_text
  db_kill_artist_expr expr kkill d = with_changes q (sql_update_artist q (kill_text kkill) expr d)

  unfoldable pub db_kill_album_expr : Bytes → Bool → D → Result ℕ × D
  unfolding with_changes kill_text
  db_kill_album_expr expr kkill d = with_changes q (sql_update_album q (kill_text kkill) expr d)

  unfoldable pub db_kill_genre_expr : Bytes → Bool → D → Result ℕ × D
  unfolding with_changes kill_text
  db_kill_genre_expr expr kkill d = with_changes q (sql_update_genre q (kill_text kkill) expr d)

  unfoldable pub db_kill_song_expr : Bytes → Bool → D → Result ℕ × D
  unfolding with_changes kill_text
  db_kill_song_expr expr kkill d = with_changes q (sql_update_song q (kill_text kkill) expr d)

  unfoldable pub db_rate_artist_expr : Bytes → ℤ → D → Result ℕ × D
  unfolding with_changes number_text
  db_rate_artist_expr expr rating d =
      with_changes q (sql_update_artist q (number_text (codes "rating = rating + ") rating) expr d)

  unfoldable pub db_rate_album_expr : Bytes → ℤ → D → Result ℕ × D
  unfolding with_changes number_text
  db_rate_album_expr expr rating d =
      with_changes q (sql_update_album q (number_text (codes "rating = rating + ") rating) expr d)

  unfoldable pub db_rate_genre_expr : Bytes → ℤ → D → Result ℕ × D
  unfolding with_changes number_text
  db_rate_genre_expr expr rating d =
      with_changes q (sql_update_genre q (number_text (codes "rating = rating + ") rating) expr d)

  unfoldable pub db_rate_song_expr : Bytes → ℤ → D → Result ℕ × D
  unfolding with_changes number_text
  db_rate_song_expr expr rating d =
      with_changes q (sql_update_song q (number_text (codes "rating = rating + ") rating) expr d)

  unfoldable pub db_rate_absolute_artist_expr : Bytes → ℤ → D → Result ℕ × D
  unfolding with_changes number_text
  db_rate_absolute_artist_expr expr rating d =
      with_changes q (sql_update_artist q (number_text (codes "rating = ") rating) expr d)

  unfoldable pub db_rate_absolute_album_expr : Bytes → ℤ → D → Result ℕ × D
  unfolding with_changes number_text
  db_rate_absolute_album_expr expr rating d =
      with_changes q (sql_update_album q (number_text (codes "rating = ") rating) expr d)

  unfoldable pub db_rate_absolute_genre_expr : Bytes → ℤ → D → Result ℕ × D
  unfolding with_changes number_text
  db_rate_absolute_genre_expr expr rating d =
      with_changes q (sql_update_genre q (number_text (codes "rating = ") rating) expr d)

  unfoldable pub db_rate_absolute_song_expr : Bytes → ℤ → D → Result ℕ × D
  unfolding with_changes number_text
  db_rate_absolute_song_expr expr rating d =
      with_changes q (sql_update_song q (number_text (codes "rating = ") rating) expr d)

  -- handle_karma calls it for percentages only, so its assertion holds.
  unfoldable pub db_karma_song_expr : Bytes → ℤ → D → Result ℕ × D
  unfolding with_changes number_text
  db_karma_song_expr expr karma d =
      with_changes q (sql_update_song q (number_text (codes "karma = ") karma) expr d)
