-- ===== src/Stats/Database/Tags.antt =====
-- The functions of stats-sqlite.c that add and remove tags.
pub mod Laws
pub mod Album
use mpdcron.Prelude.{
  ℕ, ◌+◌, ◌≡◌, ◌≢◌, Bytes, codes, bytes_eq, Bool, true, false, ◌||◌, Option, none, some, List, [],
  ◌∷◌, ◌++◌, All, decimal_ℤ, ◌==◌, is_empty, if◌then◌else◌,
}
use mpdcron.Prelude.Int.{ℤ}
use mpdcron.Stats.Database.{
  Result, ok, error, Sqlite, Row, Rows, rows, rows_prepare_failed, rows_step_failed, Maintenance,
  sync_off, start_transaction, end_transaction, sync_on, ack_error_invalid_tag, sql_update_artist,
  sql_update_album, sql_update_genre, sql_update_song, with_changes, db_select,
}

abbrev pub colon : ℕ
colon = 58

unfoldable pub has_colon : Bytes → Bool
has_colon [] = false
has_colon (c ∷ s) = c == colon || has_colon s

-- validate_tag, without the error that it sets.
unfoldable pub validate_tag : Bytes → Bool
unfolding has_colon
validate_tag tag = if is_empty tag || has_colon tag then false else true

-- g_strsplit(text, ":", -1): the pieces between the colons, none of an empty text.
pub record Split : Type 0 where
  pub strsplit : Bytes → List Bytes
  pub strsplit_nil : strsplit [] ≡ []
  pub strsplit_piece : (p : Bytes) → p ≢ [] → All (λ c. c ≢ colon) p → strsplit p ≡ p ∷ []
  pub strsplit_colon :
      (p rest : Bytes)
      → All (λ c. c ≢ colon) p
      → strsplit (p ++ (colon ∷ rest)) ≡ p ∷ (if is_empty rest then [] ∷ [] else strsplit rest)

-- The loop of remove_tag over the pieces.
unfoldable pub keep_tags : Bytes → List Bytes → Bytes
keep_tags tag [] = []
keep_tags tag (p ∷ ps) =
    let rest = keep_tags tag ps in
    if is_empty p then rest else if bytes_eq p tag then rest else p ++ (colon ∷ rest)

unfoldable pub remove_tag : Split → Bytes → Bytes → Bytes
unfolding keep_tags
remove_tag g tags tag = colon ∷ keep_tags tag (g.strsplit tags)

abbrev pub invalid_tag : {A : Type 0} → Bytes → Result A
invalid_tag tag = error ack_error_invalid_tag (codes "Invalid tag `" ++ (tag ++ codes "'"))

-- "tags = tags || '%s:'"
unfoldable pub add_text : Bytes → Bytes
add_text tag = codes "tags = tags || '" ++ (tag ++ codes ":'")

-- "tags = %s" of the escaped tags, and the format of db_remove_album_tag_expr, "tags = %s'".
unfoldable pub tags_text : Bytes → Bytes
tags_text tags = codes "tags = " ++ tags

unfoldable pub album_tags_text : Bytes → Bytes
album_tags_text tags = codes "tags = " ++ (tags ++ codes "'")

module _ {D : Type 0} (q : Sqlite D) where
  unfoldable pub db_add_artist_tag_expr : Bytes → Bytes → D → Result ℕ × D
  unfolding validate_tag add_text with_changes
  db_add_artist_tag_expr expr tag d =
      if validate_tag tag
      then with_changes q (sql_update_artist q (add_text tag) expr d)
      else (invalid_tag tag, d)

  unfoldable pub db_add_album_tag_expr : Bytes → Bytes → D → Result ℕ × D
  unfolding validate_tag add_text with_changes
  db_add_album_tag_expr expr tag d =
      if validate_tag tag
      then with_changes q (sql_update_album q (add_text tag) expr d)
      else (invalid_tag tag, d)

  unfoldable pub db_add_genre_tag_expr : Bytes → Bytes → D → Result ℕ × D
  unfolding validate_tag add_text with_changes
  db_add_genre_tag_expr expr tag d =
      if validate_tag tag
      then with_changes q (sql_update_genre q (add_text tag) expr d)
      else (invalid_tag tag, d)

  unfoldable pub db_add_song_tag_expr : Bytes → Bytes → D → Result ℕ × D
  unfolding validate_tag add_text with_changes
  db_add_song_tag_expr expr tag d =
      if validate_tag tag
      then with_changes q (sql_update_song q (add_text tag) expr d)
      else (invalid_tag tag, d)

  -- The loop over the ids: the updates go on while they work, and their changes are added up.
  unfoldable pub update_tags :
      (Bytes → Bytes → D → Result Unit × D)
      → (Bytes → Bytes)
      → List (ℤ × Bytes)
      → ℕ
      → D
      → Result ℕ × D
  update_tags sql_update text [] changes d = (ok changes, d)
  update_tags sql_update text ((id, tags) ∷ ids) changes d =
      let (r, d') = sql_update (text (q.escape_string tags)) (codes "id = " ++ decimal_ℤ id) d in
      elim r [
        | ok u ↦ update_tags sql_update text ids (changes + q.changes d') d'
        | error code message ↦ (error code message, d')
      ]

  -- Between the switches of the transaction.
  unfoldable pub transaction : (D → Result ℕ × D) → D → Result ℕ × D
  transaction body d =
      let (r, d') = body (q.maintain start_transaction (q.maintain sync_off d)) in
      (r, q.maintain sync_on (q.maintain end_transaction d'))

  module _ (g : Split) where
    -- The row of a select of id and tags: struct map. The column of the tags is declared NOT NULL, so
    -- there is a text.
    abbrev pub untagged : Bytes → Row → ℤ × Bytes
    untagged tag r = (
      r.column_int 0,
      elim (r.column_text 1) [ none ↦ codes ":" | some tags ↦ remove_tag g tags tag ],
    )

    unfoldable pub removed :
        (Bytes → Bytes → D → Result Unit × D)
        → (Bytes → Bytes)
        → Result (List (ℤ × Bytes)) × D
        → Result ℕ × D
    unfolding transaction update_tags
    removed sql_update text (ok ids, d) = transaction (update_tags sql_update text ids 0) d
    removed sql_update text (error code message, d) = (error code message, d)

    -- The body that db_remove_artist_tag_expr and its three copies share.
    unfoldable pub remove_tag_expr :
        Bytes
        → (Bytes → Bytes → D → Result Unit × D)
        → (Bytes → Bytes)
        → Bytes
        → Bytes
        → D
        → Result ℕ × D
    unfolding validate_tag removed db_select remove_tag
    remove_tag_expr tbl sql_update text expr tag d =
        if validate_tag tag
        then removed sql_update text (db_select q (untagged tag) (codes "id, tags") tbl expr d)
        else (invalid_tag tag, d)

    unfoldable pub db_remove_artist_tag_expr : Bytes → Bytes → D → Result ℕ × D
    unfolding remove_tag_expr tags_text
    db_remove_artist_tag_expr = remove_tag_expr (codes "artist") (sql_update_artist q) tags_text

    unfoldable pub db_remove_album_tag_expr : Bytes → Bytes → D → Result ℕ × D
    unfolding remove_tag_expr album_tags_text
    db_remove_album_tag_expr = remove_tag_expr (codes "album") (sql_update_album q) album_tags_text

    unfoldable pub db_remove_genre_tag_expr : Bytes → Bytes → D → Result ℕ × D
    unfolding remove_tag_expr tags_text
    db_remove_genre_tag_expr = remove_tag_expr (codes "genre") (sql_update_genre q) tags_text

    unfoldable pub db_remove_song_tag_expr : Bytes → Bytes → D → Result ℕ × D
    unfolding remove_tag_expr tags_text
    db_remove_song_tag_expr = remove_tag_expr (codes "song") (sql_update_song q) tags_text
