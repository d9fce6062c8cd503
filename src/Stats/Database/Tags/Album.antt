-- ===== src/Stats/Database/Tags/Album.antt =====
-- Removing a tag from albums: the statement of db_remove_album_tag_expr.
use mpdcron.Prelude.{
  ◌≡◌, ◌≢◌, refl, ap, ◌∙◌, Bytes, codes, decimal, decimal_ℤ, ◌+◌, true, Bool-cases, inl, inr, none,
  List, [], ◌∷◌, ◌++◌, All, ◌==◌, arith,
}
use mathlib.Core.List.{append_assoc}
use mpdcron.Prelude.Int.{ℤ, pos, negsuc}
use mpdcron.Prelude.Number.{is_digit, decimal-All}
use mpdcron.Stats.Protocol.{quote, quote_rest}
use mpdcron.Stats.Protocol.Quote.{literal, literal-plain, literal-doubled, put}
use mpdcron.Stats.Database.{
  ok, error, Sqlite, Row, rows, Ran, prepare_failed, prepend_rows, db_select, selected, sync_off,
  start_transaction, select_text, updated, sql_update_entry, update_text, sql_update_album,
  prepare_error, ack_error_database_prepare,
}
use mpdcron.Stats.Database.Tags.{
  Split, validate_tag, album_tags_text, update_tags, transaction, removed, remove_tag_expr,
  untagged, db_remove_album_tag_expr,
}

abbrev NoQuote : Bytes → Type 0
NoQuote = All λ c. c ≢ 39

literal-NoQuote : (s : Bytes) → NoQuote s → literal s ≡ none
unfolding literal
literal-NoQuote [] h = refl
literal-NoQuote (c ∷ s) h = elim (Bool-cases (c == 39)) [
  | inl special ↦ absurd (ground (arith, special, h.0))
  | inr plain ↦ literal-plain c s plain ∙ ap (put c) (literal-NoQuote s h.1)
]

-- Behind a quoted text and one more quote the literal goes on, up to the end.
literal-stray : (src rest : Bytes) → NoQuote rest → literal (quote_rest src ++ (39 ∷ rest)) ≡ none
unfolding quote_rest
literal-stray [] rest h = literal-doubled rest ∙ ap (put 39) (literal-NoQuote rest h)
literal-stray (c ∷ src) rest h = elim (Bool-cases (c == 39)) [
  | inl special ↦
      rw (special, quote_rest)
        (literal-doubled (quote_rest src ++ (39 ∷ rest)) ∙ ap (put 39) (literal-stray src rest h))
  | inr plain ↦
      rw (plain, quote_rest)
        (literal-plain c (quote_rest src ++ (39 ∷ rest)) plain
          ∙ ap (put c) (literal-stray src rest h))
]

digits-NoQuote : (s : Bytes) → All (λ c. is_digit c ≡ true) s → NoQuote s
digits-NoQuote [] h = tt
digits-NoQuote (c ∷ s) h = ((λ e. absurd (ground (arith, e, h.0))), digits-NoQuote s h.1)

NoQuote-append : (s t : Bytes) → NoQuote s → NoQuote t → NoQuote (s ++ t)
NoQuote-append [] t h k = k
NoQuote-append (c ∷ s) t h k = (h.0, NoQuote-append s t h.1 k)

decimal_ℤ-NoQuote : (z : ℤ) → NoQuote (decimal_ℤ z)
unfolding decimal_ℤ
decimal_ℤ-NoQuote (pos n) = digits-NoQuote (decimal n) (decimal-All n)
decimal_ℤ-NoQuote (negsuc n) =
    ((λ e. absurd (omega (arith, e))), digits-NoQuote (decimal (n + 1)) (decimal-All (n + 1)))

-- What stands behind the tags.
condition : ℤ → Bytes
condition id = codes " where " ++ ((codes "id = " ++ decimal_ℤ id) ++ codes " ;")

condition-NoQuote : (id : ℤ) → NoQuote (condition id)
unfolding condition
condition-NoQuote id =
    NoQuote-append (codes " where id = ") (decimal_ℤ id ++ codes " ;") (ground arith)
      (NoQuote-append (decimal_ℤ id) (codes " ;") (decimal_ℤ-NoQuote id) (ground arith))

prepend_rows-cons :
    {A : Type 0} (make : Row → A) (rs : List Row) (values : List A)
    → values ≢ []
    → prepend_rows make rs values ≢ []
unfolding prepend_rows
prepend_rows-cons make [] values h = h
prepend_rows-cons make (r ∷ rs) values h =
    prepend_rows-cons make rs (make r ∷ values) (λ e. absurd (ground (arith, e)))

module _ {D : Type 0} (q : Sqlite D) where
  updated-failed :
      (x : Ran × D)
      → x.0 ≡ prepare_failed
      → (message : Bytes) × ((updated q x).0 ≡ error ack_error_database_prepare message)
  unfolding updated prepare_error
  updated-failed (ran, d) h = rw (h, updated) (codes "sqlite3_prepare_v2: " ++ q.errmsg d, refl)

module _ {D : Type 0} (q : Sqlite D) (g : Split)
    (escapes : (text : Bytes) → q.escape_string text ≡ quote text)
    (unterminated : (rest : Bytes) (d : D)
      → literal rest ≡ none
      → (q.update (codes "update album set tags = " ++ (39 ∷ rest)) d).0 ≡ prepare_failed) where
  update-stray :
      (tags : Bytes) (id : ℤ) (d : D)
      → (message : Bytes) × ((sql_update_album q
            (album_tags_text (q.escape_string tags))
            (codes "id = " ++ decimal_ℤ id)
            d).0
          ≡ error ack_error_database_prepare message)
  unfolding sql_update_entry album_tags_text update_text condition quote
  update-stray tags id d =
      updated-failed q
        (q.update
          (codes "update album set tags = "
            ++ ((q.escape_string tags ++ (39 ∷ [])) ++ condition id))
          d)
        (ap (λ (text : Bytes). (q.update (codes "update album set tags = " ++ text) d).0)
            (ap (λ (text : Bytes). (text ++ (39 ∷ [])) ++ condition id) (escapes tags)
              ∙ ap (λ (text : Bytes). 39 ∷ text)
                  (append_assoc (quote_rest tags) (39 ∷ []) (condition id)))
          ∙ unterminated (quote_rest tags ++ (39 ∷ condition id)) d
              (literal-stray tags (condition id) (condition-NoQuote id)))

  update_tags-stray :
      (id : ℤ) (tags : Bytes) (ids : List (ℤ × Bytes)) (d : D)
      → (message : Bytes) × ((update_tags q
            (sql_update_album q)
            album_tags_text
            ((id, tags) ∷ ids)
            0
            d).0
          ≡ error ack_error_database_prepare message)
  unfolding update_tags
  update_tags-stray id tags ids d =
      let (message, failed) = update-stray tags id d in (message, rw (failed, update_tags) refl)

  removed-stray :
      (ids : List (ℤ × Bytes)) (d : D)
      → ids ≢ []
      → (message : Bytes) × ((removed q g (sql_update_album q) album_tags_text (ok ids, d)).0
          ≡ error ack_error_database_prepare message)
  unfolding removed transaction
  removed-stray [] d some_id = absurd (some_id refl)
  removed-stray ((id, tags) ∷ ids) d some_id =
      update_tags-stray id tags ids (q.maintain start_transaction (q.maintain sync_off d))

  -- Removing a valid tag from albums, where the select finds a row, fails with the error of
  -- preparing a statement, if the text of %Q is what quote writes and SQLite does not prepare an
  -- update of the tags of albums whose string does not end.
  pub db_remove_album_tag_expr-fails :
      (expr tag : Bytes) (d d' : D) (r : Row) (rs : List Row)
      → validate_tag tag ≡ true
      → q.select (select_text (codes "id, tags") (codes "album") expr) d ≡ (rows (r ∷ rs), d')
      → (message : Bytes) × ((db_remove_album_tag_expr q g expr tag d).0
          ≡ error ack_error_database_prepare message)
  unfolding db_remove_album_tag_expr remove_tag_expr db_select selected prepend_rows
  db_remove_album_tag_expr-fails expr tag d d' r rs valid found =
      rw (valid, found, remove_tag_expr)
        (removed-stray (prepend_rows (untagged q g tag) (r ∷ rs) []) d'
          (prepend_rows-cons (untagged q g tag) rs _ (λ e. absurd (ground (arith, e)))))
