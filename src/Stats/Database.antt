-- ===== src/Stats/Database.antt =====
-- stats-sqlite.c: the statements that the commands of the statistics server run.
pub mod Change
pub mod Tags
pub mod Select
use mpdcron.Prelude.{
  ℕ, ◌+◌, Bytes, codes, Bool, Option, none, some, List, [], ◌∷◌, ◌++◌, if◌then◌else◌,
}
use mpdcron.Prelude.Int.{ℤ}

-- What a function with a GError argument returns: its result, or the code and the message.
pub data Result (A : Type 0) : Type 0 where
  ok : A → Result A
  error : ℕ → Bytes → Result A

-- enum dback
abbrev pub ack_error_database_prepare : ℕ
ack_error_database_prepare = 57

abbrev pub ack_error_database_step : ℕ
ack_error_database_step = 59

abbrev pub ack_error_invalid_tag : ℕ
ack_error_invalid_tag = 101

-- The columns of a row that a select returns, by number.
pub record Row : Type 0 where
  pub column_int : ℕ → ℤ
  pub column_int64 : ℕ → ℤ
  pub column_text : ℕ → Option Bytes

-- What comes of preparing a text and stepping through it; a step that says SQLITE_BUSY is repeated.
pub data Ran : Type 0 where
  done prepare_failed step_failed : Ran

pub data Rows : Type 0 where
  rows : List Row → Rows
  rows_prepare_failed rows_step_failed : Rows

-- The statements around the removal of tags, whose errors are not looked at.
pub data Maintenance : Type 0 where
  sync_off start_transaction end_transaction sync_on : Maintenance

-- SQLite, over the state of a connection and its database: an update, sqlite3_changes, a select, the
-- maintenance statements, sqlite3_errmsg, and %Q of sqlite3_mprintf.
pub record Sqlite (D : Type 0) : Type 0 where
  pub update : Bytes → D → Ran × D
  pub changes : D → ℕ
  pub select : Bytes → D → Rows × D
  pub maintain : Maintenance → D → D
  pub errmsg : D → Bytes
  pub escape_string : Bytes → Bytes

-- The text of sql_update_entry.
unfoldable pub update_text : Bytes → Bytes → Bytes → Bytes
update_text tbl stmt expr =
    codes "update "
    ++ (tbl ++ (codes " set " ++ (stmt ++ (codes " where " ++ (expr ++ codes " ;")))))

-- "select %s from %s where %s ;"
unfoldable pub select_text : Bytes → Bytes → Bytes → Bytes
select_text columns tbl expr =
    codes "select "
    ++ (columns ++ (codes " from " ++ (tbl ++ (codes " where " ++ (expr ++ codes " ;")))))

-- The loop over the rows, which puts each in front of the values.
unfoldable pub prepend_rows : {A : Type 0} → (Row → A) → List Row → List A → List A
prepend_rows make [] values = values
prepend_rows make (r ∷ rs) values = prepend_rows make rs (make r ∷ values)

module _ {D : Type 0} (q : Sqlite D) where
  -- "sqlite3_prepare_v2: %s" and "sqlite3_step: %s"
  unfoldable pub prepare_error : {A : Type 0} → D → Result A
  prepare_error d = error ack_error_database_prepare (codes "sqlite3_prepare_v2: " ++ q.errmsg d)

  step_error : {A : Type 0} → D → Result A
  step_error d = error ack_error_database_step (codes "sqlite3_step: " ++ q.errmsg d)

  unfoldable pub updated : Ran × D → Result Unit × D
  unfolding prepare_error step_error
  updated (done, d) = (ok tt, d)
  updated (prepare_failed, d) = (prepare_error d, d)
  updated (step_failed, d) = (step_error d, d)

  unfoldable pub sql_update_entry : Bytes → Bytes → Bytes → D → Result Unit × D
  unfolding updated update_text
  sql_update_entry tbl stmt expr d = updated (q.update (update_text tbl stmt expr) d)

  abbrev pub sql_update_artist : Bytes → Bytes → D → Result Unit × D
  sql_update_artist = sql_update_entry (codes "artist")

  abbrev pub sql_update_album : Bytes → Bytes → D → Result Unit × D
  sql_update_album = sql_update_entry (codes "album")

  abbrev pub sql_update_genre : Bytes → Bytes → D → Result Unit × D
  sql_update_genre = sql_update_entry (codes "genre")

  abbrev pub sql_update_song : Bytes → Bytes → D → Result Unit × D
  sql_update_song = sql_update_entry (codes "song")

  -- `*changes = sqlite3_changes(gdb)` behind an update that worked.
  unfoldable pub with_changes : Result Unit × D → Result ℕ × D
  with_changes (ok u, d) = (ok (q.changes d), d)
  with_changes (error code message, d) = (error code message, d)

  unfoldable pub selected : {A : Type 0} → (Row → A) → Rows × D → Result (List A) × D
  unfolding prepend_rows prepare_error step_error
  selected make (rows rs, d) = (ok (prepend_rows make rs []), d)
  selected make (rows_prepare_failed, d) = (prepare_error d, d)
  selected make (rows_step_failed, d) = (step_error d, d)

  -- A select, and what becomes of each row.
  unfoldable pub db_select :
      {A : Type 0} → (Row → A) → Bytes → Bytes → Bytes → D → Result (List A) × D
  unfolding selected select_text
  db_select make columns tbl expr d = selected make (q.select (select_text columns tbl expr) d)
