-- ===== src/Stats/Server/Readers.antt =====
-- The handlers of stats-command.c that only read, and what they keep.
use mpdcron.Prelude.{
  ℕ, suc, ◌≡◌, refl, sym, subst, ◌∙◌, ap, inl, inr, Bytes, codes, bytes_eq, bytes_eq_iff, Bool,
  true, false, Bool-cases, Option-cases, ◌||◌, Option, some, List, [], ◌∷◌, ◌++◌, All, arith, zero,
}
use mpdcron.Stats.Database.{
  Result, ok, error, Sqlite, Row, Rows, rows, rows_prepare_failed, rows_step_failed, select_text,
  selected, db_select,
}
use mpdcron.Stats.Database.Tags.{Split}
use mpdcron.Stats.Command.{Permission, get_elem?, ack_code, ack_password}
use mpdcron.Stats.Command.Table.{commands}
use mpdcron.Stats.Server.{
  Server, Served, aborted, served, Host, command_puts, command_ok, command_error, with_one,
}
use mpdcron.Stats.Server.Changes.{handle_password}
use mpdcron.Stats.Database.Select.{
  listed_song, named_album, named, informed, informed_album, informed_song, tagged, tagged_album,
  tagged_song, db_list_album_expr, db_list_album_tag_expr, db_list_artist_expr,
  db_list_artist_tag_expr, db_list_genre_expr, db_list_genre_tag_expr, db_list_song_expr,
  db_list_song_tag_expr, db_listinfo_album_expr, db_listinfo_artist_expr, db_listinfo_genre_expr,
  db_listinfo_song_expr,
}
use mpdcron.Stats.Server.Lists.{
  song_lines, album_lines, artist_lines, genre_lines, info_lines, song_info_lines, behind,
  handle_list, handle_list_album, handle_list_artist, handle_list_genre, handle_listinfo,
  handle_listinfo_album, handle_listinfo_artist, handle_listinfo_genre, handle_listtags,
  handle_listtags_album, handle_listtags_artist, handle_listtags_genre, put_lines, put_values,
  answer_values,
}
use mpdcron.Stats.Server.Serve.{call_handler}

-- The handlers that need no permission for updates.
abbrev pub readers : List Bytes
readers =
    codes "handle_list"
    ∷ codes "handle_list_album"
    ∷ codes "handle_list_artist"
    ∷ codes "handle_list_genre"
    ∷ codes "handle_listinfo"
    ∷ codes "handle_listinfo_album"
    ∷ codes "handle_listinfo_artist"
    ∷ codes "handle_listinfo_genre"
    ∷ codes "handle_listtags"
    ∷ codes "handle_listtags_album"
    ∷ codes "handle_listtags_artist"
    ∷ codes "handle_listtags_genre"
    ∷ codes "handle_password"
    ∷ []

abbrev pub is_one_of : Bytes → List Bytes → Bool
is_one_of handler [] = false
is_one_of handler (name ∷ names) = bytes_eq handler name || is_one_of handler names

-- Every command of the table needs the permission for updates or has one of those handlers.
pub commands-readers :
    All (λ c. (c.permission.update || is_one_of c.handler readers) ≡ true) commands
unfolding bytes_eq commands
commands-readers = assumption refl

some-injective : {A : Type 0} (x y : A) → some x ≡ some y → x ≡ y
some-injective x y h = cc

pub All-get_elem? :
    {A : Type 0} (P : A → Type 0) (xs : List A) (i : ℕ) (x : A)
    → All P xs
    → get_elem? xs i ≡ some x
    → P x
unfolding get_elem?
All-get_elem? P [] i x h here = absurd (ground (arith, here))
All-get_elem? P (y ∷ ys) zero x h here = subst P (some-injective y x here) h.0
All-get_elem? P (y ∷ ys) (suc i) x h here = All-get_elem? P ys i x h.1 here

pub All-is_one_of :
    (P : Bytes → Type 0) (names : List Bytes) (handler : Bytes)
    → All P names
    → is_one_of handler names ≡ true
    → P handler
All-is_one_of P [] handler h k = absurd (ground (arith, k))
All-is_one_of P (name ∷ names) handler h k = elim (Bool-cases (bytes_eq handler name)) [
  | inl same ↦ subst P (sym ((bytes_eq_iff handler name).0 same)) h.0
  | inr other ↦ All-is_one_of P names handler h.1 (ground (arith, k, other))
]

-- What is stored is as it was, and the client still may not update.
abbrev pub IsKept : {D C : Type 0} → (D → C) → C → Served D → Type 0
IsKept content c (aborted d) = content d ≡ c
IsKept content c (served r s) = (content s.database ≡ c) × (s.permission.update ≡ false)

module _ {D C : Type 0} (content : D → C) where
  pub command_error-IsKept :
      (code : ℕ) (message : Bytes) (c : C) (s : Server D)
      → content s.database ≡ c
      → s.permission.update ≡ false
      → IsKept content c (command_error code message s)
  unfolding command_error
  command_error-IsKept code message c s same h = elim (Option-cases s.current_command) [
    | inl nothing ↦ rw (nothing, command_error) same
    | inr (command, here) ↦ rw (here, command_error) (same, h)
  ]

  put_lines-keeps :
      (lines : List Bytes) (s : Server D)
      → ((put_lines lines s).database ≡ s.database)
        × ((put_lines lines s).permission ≡ s.permission)
  unfolding put_lines command_puts
  put_lines-keeps [] s = (refl, refl)
  put_lines-keeps (line ∷ lines) s = put_lines-keeps lines (command_puts line s)

  put_values-IsKept :
      {A : Type 0} (lines : A → Option (List Bytes)) (values : List A) (c : C) (s : Server D)
      → content s.database ≡ c
      → s.permission.update ≡ false
      → IsKept content c (put_values lines values s)
  unfolding put_values command_ok
  put_values-IsKept lines [] c s same h = (same, h)
  put_values-IsKept lines (x ∷ xs) c s same h = elim (Option-cases (lines x)) [
    | inl nothing ↦ rw (nothing, put_values) same
    | inr (ls, here) ↦
        rw (here, put_values)
          (put_values-IsKept lines xs c (put_lines ls s)
            (ap content (put_lines-keeps ls s).0 ∙ same)
            (ap (λ (p : Permission). p.update) (put_lines-keeps ls s).1 ∙ h))
  ]

  answer_values-IsKept :
      {A : Type 0} (lines : A → Option (List Bytes)) (x : Result (List A) × D) (c : C)
      (s : Server D)
      → content x.1 ≡ c
      → s.permission.update ≡ false
      → IsKept content c (answer_values lines x s)
  unfolding answer_values
  answer_values-IsKept lines (ok values, d) c s same h =
      put_values-IsKept lines values c (record s { database = d }) same h
  answer_values-IsKept lines (error code message, d) c s same h =
      command_error-IsKept code message c (record s { database = d }) same h

  listing-IsKept :
      {A : Type 0} (lines : A → Option (List Bytes)) (select : Bytes → D → Result (List A) × D)
      → ((expr : Bytes) (d : D) → content (select expr d).1 ≡ content d)
      → (args : List Bytes) (s : Server D) → s.permission.update ≡ false
      → IsKept content
          (content s.database)
          (with_one args s (λ expr. answer_values lines (select expr s.database) s))
  listing-IsKept lines select keeps [] s h = refl
  listing-IsKept lines select keeps (x ∷ (y ∷ args)) s h = refl
  listing-IsKept lines select keeps (expr ∷ []) s h =
      answer_values-IsKept lines (select expr s.database) (content s.database) s
        (keeps expr s.database) h

module _ {D C : Type 0} (content : D → C) (q : Sqlite D) (g : Split) (h : Host)
    (select_keeps : (columns tbl expr : Bytes) (d : D)
      → content (q.select (select_text columns tbl expr) d).1 ≡ content d)
    (strict : (password : Bytes) → (h.passwords password).update ≡ false) where
  selected-keeps : {A : Type 0} (make : Row → A) (x : Rows × D) → (selected q make x).1 ≡ x.1
  unfolding selected
  selected-keeps make (rows rs, d) = refl
  selected-keeps make (rows_prepare_failed, d) = refl
  selected-keeps make (rows_step_failed, d) = refl

  db_select-keeps :
      {A : Type 0} (make : Row → A) (columns tbl expr : Bytes) (d : D)
      → content (db_select q make columns tbl expr d).1 ≡ content d
  unfolding db_select
  db_select-keeps make columns tbl expr d =
      ap content (selected-keeps make (q.select (select_text columns tbl expr) d))
      ∙ select_keeps columns tbl expr d

  db_select-IsKept :
      {A : Type 0} (lines : A → Option (List Bytes)) (make : Row → A) (columns tbl : Bytes)
      (name : Bytes) (args : List Bytes) (s : Server D)
      → s.permission.update ≡ false
      → IsKept content (content s.database) (
          with_one args s
            (λ expr. answer_values lines (db_select q make columns tbl expr s.database) s))
  db_select-IsKept lines make columns tbl name =
      listing-IsKept content lines (db_select q make columns tbl) (db_select-keeps make columns tbl)

  handle_password-IsKept :
      (args : List Bytes) (s : Server D)
      → s.permission.update ≡ false
      → IsKept content (content s.database) (handle_password h args s)
  unfolding handle_password command_ok
  handle_password-IsKept [] s k = refl
  handle_password-IsKept (x ∷ (y ∷ args)) s k = refl
  handle_password-IsKept (password ∷ []) s k =
      elim (Bool-cases ((h.passwords password).select || (h.passwords password).update)) [
        | inl granted ↦ rw (granted, handle_password) (refl, ground (arith, k, strict password))
        | inr denied ↦
            rw (denied, handle_password)
              (command_error-IsKept content (ack_code ack_password) (codes "Invalid password")
                (content s.database) s refl k)
      ]

  abbrev pub Reads : Bytes → Type 0
  Reads handler =
      (name : Bytes) (args : List Bytes) (s : Server D)
      → s.permission.update ≡ false
      → IsKept content (content s.database) (call_handler q g h handler name args s)

  pub readers-Reads : All Reads readers
  unfolding call_handler handle_list handle_list_album handle_list_artist handle_list_genre
      handle_listinfo handle_listinfo_album handle_listinfo_artist handle_listinfo_genre
      handle_listtags handle_listtags_album handle_listtags_artist handle_listtags_genre
      handle_password db_list_song_expr db_list_album_expr db_list_artist_expr db_list_genre_expr
      db_listinfo_song_expr db_listinfo_album_expr db_listinfo_artist_expr db_listinfo_genre_expr
      db_list_song_tag_expr db_list_album_tag_expr db_list_artist_tag_expr db_list_genre_tag_expr
  readers-Reads = (
    db_select-IsKept (λ a. some (song_lines a)) listed_song (codes "id, uri") (codes "song"),
    (
      db_select-IsKept (λ a. some (album_lines a)) named_album (codes "id, name, artist")
          (codes "album"),
      (
        db_select-IsKept (λ a. some (artist_lines a)) named (codes "id, name") (codes "artist"),
        (
          db_select-IsKept (λ a. some (genre_lines a)) named (codes "id, name") (codes "genre"),
          (
            db_select-IsKept (λ a. some (song_info_lines h a)) informed_song
                (codes "id, play_count, love, kill, rating, karma, last_played, uri")
                (codes "song"),
            (
              db_select-IsKept (λ a. some (album_lines a ++ info_lines a)) informed_album
                  (codes "id, play_count, name, artist, love, kill, rating") (codes "album"),
              (
                db_select-IsKept (λ a. some (artist_lines a ++ info_lines a)) informed
                    (codes "id, play_count, name, love, kill, rating") (codes "artist"),
                (
                  db_select-IsKept (λ a. some (genre_lines a ++ info_lines a)) informed
                      (codes "id, play_count, name, love, kill, rating") (codes "genre"),
                  (
                    db_select-IsKept (λ a. behind (song_lines a) a.tags) (tagged_song g)
                        (codes "id, uri, tags") (codes "song"),
                    (
                      db_select-IsKept (λ a. behind (album_lines a) a.tags) (tagged_album g)
                          (codes "id, name, artist, tags") (codes "album"),
                      (
                        db_select-IsKept (λ a. behind (artist_lines a) a.tags) (tagged g)
                            (codes "id, name, tags") (codes "artist"),
                        (
                          db_select-IsKept (λ a. behind (genre_lines a) a.tags) (tagged g)
                              (codes "id, name, tags") (codes "genre"),
                          ((λ name. handle_password-IsKept), tt),
                        ),
                      ),
                    ),
                  ),
                ),
              ),
            ),
          ),
        ),
      ),
    ),
  )
