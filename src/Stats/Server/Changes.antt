-- ===== src/Stats/Server/Changes.antt =====
-- The handlers of stats-command.c that change the database, and the one of passwords.
use mpdcron.Prelude.{Bytes, codes, bytes_eq, decimal_ℤ, ◌||◌, not, List, ◌++◌, if◌then◌else◌}
use mpdcron.Prelude.Int.{pos, ltb_ℤ}
use mpdcron.Prelude.Number.{strtol}
use mpdcron.Stats.Database.{Sqlite}
use mpdcron.Stats.Database.Change.{
  db_karma_song_expr, db_love_song_expr, db_love_album_expr, db_love_artist_expr,
  db_love_genre_expr, db_kill_song_expr, db_kill_album_expr, db_kill_artist_expr,
  db_kill_genre_expr, db_rate_song_expr, db_rate_album_expr, db_rate_artist_expr,
  db_rate_genre_expr, db_rate_absolute_song_expr, db_rate_absolute_album_expr,
  db_rate_absolute_artist_expr, db_rate_absolute_genre_expr, db_count_song_expr,
  db_count_album_expr, db_count_artist_expr, db_count_genre_expr,
}
use mpdcron.Stats.Database.Tags.{
  Split, db_add_song_tag_expr, db_add_album_tag_expr, db_add_artist_tag_expr, db_add_genre_tag_expr,
  db_remove_song_tag_expr, db_remove_album_tag_expr, db_remove_artist_tag_expr,
  db_remove_genre_tag_expr,
}
use mpdcron.Stats.Command.{ack_code, ack_arg, ack_password}
use mpdcron.Stats.Server.{
  Server, Served, served, return_ok, Host, command_ok, command_error, answer_changes, with_one,
  with_two, with_number,
}

module _ {D : Type 0} (q : Sqlite D) where
  -- argv[0] is "love", or the opposite.
  unfoldable pub handle_love : Bytes → List Bytes → Server D → Served D
  unfolding answer_changes bytes_eq
  handle_love name args s =
      with_one args s λ expr.
        answer_changes (db_love_song_expr q expr (bytes_eq name (codes "love")) s.database) s

  -- argv[0] is "love_album", or the opposite.
  unfoldable pub handle_love_album : Bytes → List Bytes → Server D → Served D
  unfolding answer_changes bytes_eq
  handle_love_album name args s = with_one args s λ expr.
      answer_changes (db_love_album_expr q expr (bytes_eq name (codes "love_album")) s.database) s

  -- argv[0] is "love_artist", or the opposite.
  unfoldable pub handle_love_artist : Bytes → List Bytes → Server D → Served D
  unfolding answer_changes bytes_eq
  handle_love_artist name args s = with_one args s λ expr.
      answer_changes (db_love_artist_expr q expr (bytes_eq name (codes "love_artist")) s.database) s

  -- argv[0] is "love_genre", or the opposite.
  unfoldable pub handle_love_genre : Bytes → List Bytes → Server D → Served D
  unfolding answer_changes bytes_eq
  handle_love_genre name args s = with_one args s λ expr.
      answer_changes (db_love_genre_expr q expr (bytes_eq name (codes "love_genre")) s.database) s

  -- argv[0] is "kill", or the opposite.
  unfoldable pub handle_kill : Bytes → List Bytes → Server D → Served D
  unfolding answer_changes bytes_eq
  handle_kill name args s =
      with_one args s λ expr.
        answer_changes (db_kill_song_expr q expr (bytes_eq name (codes "kill")) s.database) s

  -- argv[0] is "kill_album", or the opposite.
  unfoldable pub handle_kill_album : Bytes → List Bytes → Server D → Served D
  unfolding answer_changes bytes_eq
  handle_kill_album name args s = with_one args s λ expr.
      answer_changes (db_kill_album_expr q expr (bytes_eq name (codes "kill_album")) s.database) s

  -- argv[0] is "kill_artist", or the opposite.
  unfoldable pub handle_kill_artist : Bytes → List Bytes → Server D → Served D
  unfolding answer_changes bytes_eq
  handle_kill_artist name args s = with_one args s λ expr.
      answer_changes (db_kill_artist_expr q expr (bytes_eq name (codes "kill_artist")) s.database) s

  -- argv[0] is "kill_genre", or the opposite.
  unfoldable pub handle_kill_genre : Bytes → List Bytes → Server D → Served D
  unfolding answer_changes bytes_eq
  handle_kill_genre name args s = with_one args s λ expr.
      answer_changes (db_kill_genre_expr q expr (bytes_eq name (codes "kill_genre")) s.database) s

  unfoldable pub handle_addtag : List Bytes → Server D → Served D
  unfolding answer_changes
  handle_addtag args s =
      with_two args s λ expr tag. answer_changes (db_add_song_tag_expr q expr tag s.database) s

  unfoldable pub handle_addtag_album : List Bytes → Server D → Served D
  unfolding answer_changes
  handle_addtag_album args s =
      with_two args s λ expr tag. answer_changes (db_add_album_tag_expr q expr tag s.database) s

  unfoldable pub handle_addtag_artist : List Bytes → Server D → Served D
  unfolding answer_changes
  handle_addtag_artist args s =
      with_two args s λ expr tag. answer_changes (db_add_artist_tag_expr q expr tag s.database) s

  unfoldable pub handle_addtag_genre : List Bytes → Server D → Served D
  unfolding answer_changes
  handle_addtag_genre args s =
      with_two args s λ expr tag. answer_changes (db_add_genre_tag_expr q expr tag s.database) s

  module _ (g : Split) where
    unfoldable pub handle_rmtag : List Bytes → Server D → Served D
    unfolding answer_changes
    handle_rmtag args s =
        with_two args s
          λ expr tag. answer_changes (db_remove_song_tag_expr q g expr tag s.database) s

    unfoldable pub handle_rmtag_album : List Bytes → Server D → Served D
    unfolding answer_changes
    handle_rmtag_album args s =
        with_two args s
          λ expr tag. answer_changes (db_remove_album_tag_expr q g expr tag s.database) s

    unfoldable pub handle_rmtag_artist : List Bytes → Server D → Served D
    unfolding answer_changes
    handle_rmtag_artist args s =
        with_two args s
          λ expr tag. answer_changes (db_remove_artist_tag_expr q g expr tag s.database) s

    unfoldable pub handle_rmtag_genre : List Bytes → Server D → Served D
    unfolding answer_changes
    handle_rmtag_genre args s =
        with_two args s
          λ expr tag. answer_changes (db_remove_genre_tag_expr q g expr tag s.database) s

  module _ (h : Host) where
    unfoldable pub handle_rate : List Bytes → Server D → Served D
    unfolding answer_changes with_number
    handle_rate args s = with_two args s λ expr value.
        with_number h value
          (λ number. answer_changes (db_rate_song_expr q expr number s.database) s) s

    unfoldable pub handle_rate_album : List Bytes → Server D → Served D
    unfolding answer_changes with_number
    handle_rate_album args s = with_two args s λ expr value.
        with_number h value
          (λ number. answer_changes (db_rate_album_expr q expr number s.database) s) s

    unfoldable pub handle_rate_artist : List Bytes → Server D → Served D
    unfolding answer_changes with_number
    handle_rate_artist args s = with_two args s λ expr value.
        with_number h value
          (λ number. answer_changes (db_rate_artist_expr q expr number s.database) s) s

    unfoldable pub handle_rate_genre : List Bytes → Server D → Served D
    unfolding answer_changes with_number
    handle_rate_genre args s = with_two args s λ expr value.
        with_number h value
          (λ number. answer_changes (db_rate_genre_expr q expr number s.database) s) s

    unfoldable pub handle_rate_absolute : List Bytes → Server D → Served D
    unfolding answer_changes with_number
    handle_rate_absolute args s = with_two args s λ expr value.
        with_number h value
          (λ number. answer_changes (db_rate_absolute_song_expr q expr number s.database) s) s

    unfoldable pub handle_rate_absolute_album : List Bytes → Server D → Served D
    unfolding answer_changes with_number
    handle_rate_absolute_album args s = with_two args s λ expr value.
        with_number h value
          (λ number. answer_changes (db_rate_absolute_album_expr q expr number s.database) s) s

    unfoldable pub handle_rate_absolute_artist : List Bytes → Server D → Served D
    unfolding answer_changes with_number
    handle_rate_absolute_artist args s = with_two args s λ expr value.
        with_number h value
          (λ number. answer_changes (db_rate_absolute_artist_expr q expr number s.database) s) s

    unfoldable pub handle_rate_absolute_genre : List Bytes → Server D → Served D
    unfolding answer_changes with_number
    handle_rate_absolute_genre args s = with_two args s λ expr value.
        with_number h value
          (λ number. answer_changes (db_rate_absolute_genre_expr q expr number s.database) s) s

    unfoldable pub handle_count : List Bytes → Server D → Served D
    unfolding answer_changes with_number
    handle_count args s = with_two args s λ expr value.
        with_number h value
          (λ number. answer_changes (db_count_song_expr q expr number s.database) s) s

    unfoldable pub handle_count_album : List Bytes → Server D → Served D
    unfolding answer_changes with_number
    handle_count_album args s = with_two args s λ expr value.
        with_number h value
          (λ number. answer_changes (db_count_album_expr q expr number s.database) s) s

    unfoldable pub handle_count_artist : List Bytes → Server D → Served D
    unfolding answer_changes with_number
    handle_count_artist args s = with_two args s λ expr value.
        with_number h value
          (λ number. answer_changes (db_count_artist_expr q expr number s.database) s) s

    unfoldable pub handle_count_genre : List Bytes → Server D → Served D
    unfolding answer_changes with_number
    handle_count_genre args s = with_two args s λ expr value.
        with_number h value
          (λ number. answer_changes (db_count_genre_expr q expr number s.database) s) s

    -- The value is tested against 0 and 100 in place of the range of an int.
    unfoldable pub handle_karma : List Bytes → Server D → Served D
    unfolding answer_changes command_error ack_code
    handle_karma args s = with_two args s λ expr value.
        let karma = strtol value in
        if karma.erange
        then command_error (ack_code ack_arg)
            (codes "Failed to convert to number: " ++ h.strerror_erange) s
        else if not karma.converted
        then command_error (ack_code ack_arg) (codes "No digits found") s
        else if not (ltb_ℤ karma.value (pos 100)) || not (ltb_ℤ (pos 0) karma.value)
        then command_error (ack_code ack_arg)
            (codes "Karma '"
              ++ (decimal_ℤ karma.value ++ codes "' should be a percentage between 0 and 100"))
            s
        else answer_changes (db_karma_song_expr q expr karma.value s.database) s

-- client->perm |= perm, where there is one.
unfoldable pub handle_password : {D : Type 0} → Host → List Bytes → Server D → Served D
unfolding command_ok command_error ack_code
handle_password h args s = with_one args s λ password.
    let perm = h.passwords password in
    if perm.select || perm.update
    then served return_ok (
        command_ok (record s {
          permission = record {
            select = s.permission.select || perm.select;
            update = s.permission.update || perm.update;
          };
        }))
    else command_error (ack_code ack_password) (codes "Invalid password") s
