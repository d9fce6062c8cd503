-- ===== src/Stats/Session/Change.antt =====
-- The changes of the database that a client can ask for: what it calls for each, and what each is to
-- make of the database.
use mpdcron.Prelude.{
  ℕ, Bytes, codes, decimal_ℤ, Bool, ◌||◌, not, List, [], ◌∷◌, ◌++◌, if◌then◌else◌,
}
use mpdcron.Prelude.Int.{ℤ, pos, ltb_ℤ}
use mpdcron.Prelude.Number.{strtol}
use mpdcron.Stats.Database.{Result, error, Sqlite}
use mpdcron.Stats.Database.Change.{
  db_karma_song_expr, db_love_song_expr, db_love_album_expr, db_love_artist_expr,
  db_love_genre_expr, db_kill_song_expr, db_kill_album_expr, db_kill_artist_expr,
  db_kill_genre_expr, db_rate_song_expr, db_rate_album_expr, db_rate_artist_expr,
  db_rate_genre_expr, db_rate_absolute_song_expr, db_rate_absolute_album_expr,
  db_rate_absolute_artist_expr, db_rate_absolute_genre_expr, db_count_song_expr,
  db_count_album_expr, db_count_artist_expr, db_count_genre_expr,
}
use mpdcron.Stats.Database.Tags.{
  Split, db_add_song_tag_expr, db_add_album_tag_expr, db_add_artist_tag_expr, db_add_genre_tag_expr,
  db_remove_song_tag_expr, db_remove_album_tag_expr, db_remove_artist_tag_expr,
  db_remove_genre_tag_expr,
}
use mpdcron.Stats.Command.{ack_code, ack_arg}
use mpdcron.Stats.Server.{Host, int_max, int_min}
use mpdcron.Stats.Client.{Received}
use mpdcron.Stats.Client.Calls.{
  Peer, mpdcron_love_expr, mpdcron_love_album_expr, mpdcron_love_artist_expr,
  mpdcron_love_genre_expr, mpdcron_kill_expr, mpdcron_kill_album_expr, mpdcron_kill_artist_expr,
  mpdcron_kill_genre_expr, mpdcron_rate_expr, mpdcron_rate_album_expr, mpdcron_rate_artist_expr,
  mpdcron_rate_genre_expr, mpdcron_rate_absolute_expr, mpdcron_rate_absolute_album_expr,
  mpdcron_rate_absolute_artist_expr, mpdcron_rate_absolute_genre_expr, mpdcron_count_expr,
  mpdcron_count_album_expr, mpdcron_count_artist_expr, mpdcron_count_genre_expr,
  mpdcron_addtag_expr, mpdcron_addtag_album_expr, mpdcron_addtag_artist_expr,
  mpdcron_addtag_genre_expr, mpdcron_rmtag_expr, mpdcron_rmtag_album_expr,
  mpdcron_rmtag_artist_expr, mpdcron_rmtag_genre_expr, mpdcron_karma_expr,
}

pub data Target : Type 0 where
  on_song on_album on_artist on_genre : Target

pub data Change : Type 0 where
  change_love change_kill : Target → Bool → Bytes → Change
  change_rate change_rate_absolute change_count add_tag remove_tag : Target → Bytes → Bytes → Change
  change_karma : Bytes → Bytes → Change

-- The function of the client for a change.
unfoldable pub request : {S : Type 0} → Peer S → Change → ℤ → S → Received ℤ × S
unfolding mpdcron_love_expr mpdcron_love_album_expr mpdcron_love_artist_expr mpdcron_love_genre_expr
    mpdcron_kill_expr mpdcron_kill_album_expr mpdcron_kill_artist_expr mpdcron_kill_genre_expr
    mpdcron_rate_expr mpdcron_rate_album_expr mpdcron_rate_artist_expr mpdcron_rate_genre_expr
    mpdcron_rate_absolute_expr mpdcron_rate_absolute_album_expr mpdcron_rate_absolute_artist_expr
    mpdcron_rate_absolute_genre_expr mpdcron_count_expr mpdcron_count_album_expr
    mpdcron_count_artist_expr mpdcron_count_genre_expr mpdcron_addtag_expr mpdcron_addtag_album_expr
    mpdcron_addtag_artist_expr mpdcron_addtag_genre_expr mpdcron_rmtag_expr mpdcron_rmtag_album_expr
    mpdcron_rmtag_artist_expr mpdcron_rmtag_genre_expr mpdcron_karma_expr
request peer (change_love on_song on expr) changes = mpdcron_love_expr peer on expr changes
request peer (change_love on_album on expr) changes = mpdcron_love_album_expr peer on expr changes
request peer (change_love on_artist on expr) changes = mpdcron_love_artist_expr peer on expr changes
request peer (change_love on_genre on expr) changes = mpdcron_love_genre_expr peer on expr changes
request peer (change_kill on_song on expr) changes = mpdcron_kill_expr peer on expr changes
request peer (change_kill on_album on expr) changes = mpdcron_kill_album_expr peer on expr changes
request peer (change_kill on_artist on expr) changes = mpdcron_kill_artist_expr peer on expr changes
request peer (change_kill on_genre on expr) changes = mpdcron_kill_genre_expr peer on expr changes
request peer (change_rate on_song expr value) changes = mpdcron_rate_expr peer expr value changes
request peer (change_rate on_album expr value) changes =
    mpdcron_rate_album_expr peer expr value changes
request peer (change_rate on_artist expr value) changes =
    mpdcron_rate_artist_expr peer expr value changes
request peer (change_rate on_genre expr value) changes =
    mpdcron_rate_genre_expr peer expr value changes
request peer (change_rate_absolute on_song expr value) changes =
    mpdcron_rate_absolute_expr peer expr value changes
request peer (change_rate_absolute on_album expr value) changes =
    mpdcron_rate_absolute_album_expr peer expr value changes
request peer (change_rate_absolute on_artist expr value) changes =
    mpdcron_rate_absolute_artist_expr peer expr value changes
request peer (change_rate_absolute on_genre expr value) changes =
    mpdcron_rate_absolute_genre_expr peer expr value changes
request peer (change_count on_song expr value) changes = mpdcron_count_expr peer expr value changes
request peer (change_count on_album expr value) changes =
    mpdcron_count_album_expr peer expr value changes
request peer (change_count on_artist expr value) changes =
    mpdcron_count_artist_expr peer expr value changes
request peer (change_count on_genre expr value) changes =
    mpdcron_count_genre_expr peer expr value changes
request peer (add_tag on_song expr value) changes = mpdcron_addtag_expr peer expr value changes
request peer (add_tag on_album expr value) changes =
    mpdcron_addtag_album_expr peer expr value changes
request peer (add_tag on_artist expr value) changes =
    mpdcron_addtag_artist_expr peer expr value changes
request peer (add_tag on_genre expr value) changes =
    mpdcron_addtag_genre_expr peer expr value changes
request peer (remove_tag on_song expr value) changes = mpdcron_rmtag_expr peer expr value changes
request peer (remove_tag on_album expr value) changes =
    mpdcron_rmtag_album_expr peer expr value changes
request peer (remove_tag on_artist expr value) changes =
    mpdcron_rmtag_artist_expr peer expr value changes
request peer (remove_tag on_genre expr value) changes =
    mpdcron_rmtag_genre_expr peer expr value changes
request peer (change_karma expr value) changes = mpdcron_karma_expr peer expr value changes

-- The texts that are sent.
abbrev pub texts : Change → List Bytes
texts (change_love t on expr) = expr ∷ []
texts (change_kill t on expr) = expr ∷ []
texts (change_rate t expr value) = expr ∷ value ∷ []
texts (change_rate_absolute t expr value) = expr ∷ value ∷ []
texts (change_count t expr value) = expr ∷ value ∷ []
texts (add_tag t expr value) = expr ∷ value ∷ []
texts (remove_tag t expr value) = expr ∷ value ∷ []
texts (change_karma expr value) = expr ∷ value ∷ []

-- A change whose command the server finds in its table.
abbrev pub IsKnown : Change → Type 0
IsKnown (change_love t on expr) = Unit
IsKnown (change_kill t on expr) = Unit
IsKnown (change_rate on_song expr value) = Unit
IsKnown (change_rate on_album expr value) = ⊥
IsKnown (change_rate on_artist expr value) = ⊥
IsKnown (change_rate on_genre expr value) = ⊥
IsKnown (change_rate_absolute t expr value) = Unit
IsKnown (change_count t expr value) = Unit
IsKnown (add_tag t expr value) = Unit
IsKnown (remove_tag t expr value) = Unit
IsKnown (change_karma expr value) = Unit

-- A text that stands for a number: the error for one that stands for none, or what follows with it.
unfoldable pub converted : {D : Type 0} → Host → Bytes → (ℤ → D → Result ℕ × D) → D → Result ℕ × D
unfolding ack_code
converted h value rest d =
    let number = strtol value in
    if number.erange
    then (error (ack_code ack_arg) (codes "Failed to convert to number: " ++ h.strerror_erange), d)
    else if not number.converted
    then (error (ack_code ack_arg) (codes "No digits found"), d)
    else rest number.value d

-- A number that must be an int.
unfoldable pub bounded : {D : Type 0} → (ℤ → D → Result ℕ × D) → ℤ → D → Result ℕ × D
unfolding ack_code
bounded rest number d =
    if ltb_ℤ int_max number
    then (error (ack_code ack_arg) (codes "Number too big"), d)
    else if ltb_ℤ number int_min
    then (error (ack_code ack_arg) (codes "Number too small"), d)
    else rest number d

-- A number that must lie between 0 and 100.
unfoldable pub percentage : {D : Type 0} → (ℤ → D → Result ℕ × D) → ℤ → D → Result ℕ × D
unfolding ack_code
percentage rest number d =
    if not (ltb_ℤ number (pos 100)) || not (ltb_ℤ (pos 0) number)
    then (
      error (ack_code ack_arg) (
          codes "Karma '"
          ++ (decimal_ℤ number ++ codes "' should be a percentage between 0 and 100")),
      d,
    )
    else rest number d

unfoldable pub numbered : {D : Type 0} → Host → Bytes → (ℤ → D → Result ℕ × D) → D → Result ℕ × D
unfolding converted bounded
numbered h value rest = converted h value (bounded rest)

module _ {D : Type 0} (q : Sqlite D) (g : Split) (h : Host) where
  -- What a change is to make of the database.
  unfoldable pub change_database : Change → D → Result ℕ × D
  unfolding numbered percentage converted
  change_database (change_love on_song on expr) = db_love_song_expr q expr on
  change_database (change_love on_album on expr) = db_love_album_expr q expr on
  change_database (change_love on_artist on expr) = db_love_artist_expr q expr on
  change_database (change_love on_genre on expr) = db_love_genre_expr q expr on
  change_database (change_kill on_song on expr) = db_kill_song_expr q expr on
  change_database (change_kill on_album on expr) = db_kill_album_expr q expr on
  change_database (change_kill on_artist on expr) = db_kill_artist_expr q expr on
  change_database (change_kill on_genre on expr) = db_kill_genre_expr q expr on
  change_database (change_rate on_song expr value) = numbered h value (db_rate_song_expr q expr)
  change_database (change_rate on_album expr value) = numbered h value (db_rate_album_expr q expr)
  change_database (change_rate on_artist expr value) = numbered h value (db_rate_artist_expr q expr)
  change_database (change_rate on_genre expr value) = numbered h value (db_rate_genre_expr q expr)
  change_database (change_rate_absolute on_song expr value) =
      numbered h value (db_rate_absolute_song_expr q expr)
  change_database (change_rate_absolute on_album expr value) =
      numbered h value (db_rate_absolute_album_expr q expr)
  change_database (change_rate_absolute on_artist expr value) =
      numbered h value (db_rate_absolute_artist_expr q expr)
  change_database (change_rate_absolute on_genre expr value) =
      numbered h value (db_rate_absolute_genre_expr q expr)
  change_database (change_count on_song expr value) = numbered h value (db_count_song_expr q expr)
  change_database (change_count on_album expr value) = numbered h value (db_count_album_expr q expr)
  change_database (change_count on_artist expr value) =
      numbered h value (db_count_artist_expr q expr)
  change_database (change_count on_genre expr value) = numbered h value (db_count_genre_expr q expr)
  change_database (add_tag on_song expr value) = db_add_song_tag_expr q expr value
  change_database (add_tag on_album expr value) = db_add_album_tag_expr q expr value
  change_database (add_tag on_artist expr value) = db_add_artist_tag_expr q expr value
  change_database (add_tag on_genre expr value) = db_add_genre_tag_expr q expr value
  change_database (remove_tag on_song expr value) = db_remove_song_tag_expr q g expr value
  change_database (remove_tag on_album expr value) = db_remove_album_tag_expr q g expr value
  change_database (remove_tag on_artist expr value) = db_remove_artist_tag_expr q g expr value
  change_database (remove_tag on_genre expr value) = db_remove_genre_tag_expr q g expr value
  change_database (change_karma expr value) =
      converted h value (percentage (db_karma_song_expr q expr))
