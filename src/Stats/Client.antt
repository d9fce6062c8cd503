-- ===== src/Stats/Client.antt =====
-- eugene-connection.c: what the client reads of an answer.
pub mod Calls
pub mod Welcome
pub mod Replies
use mpdcron.Prelude.{
  ℕ, Bytes, codes, bytes_eq, starts_with, Bool, Option, none, some, List, [], ◌∷◌, ◌++◌, drop, ◌==◌,
  if◌then◌else◌, ◌≡◌, ◌≢◌, All,
}
use mpdcron.Prelude.Int.{ℤ, pos}
use mpdcron.Prelude.Number.{strtol, Strtol, to_int, atoi}

-- enum mpdcron_error
abbrev pub mpdcron_error_malformed : ℤ
mpdcron_error_malformed = pos 2

abbrev pub mpdcron_error_eof : ℤ
mpdcron_error_eof = pos 4

abbrev pub mpdcron_error_server_unk : ℤ
mpdcron_error_server_unk = pos 5

-- enum mpdcron_parser_result, with what the parser holds: the code and the message of the server, or
-- the name and the value.
pub data Fed : Type 0 where
  parser_malformed parser_success : Fed
  parser_error : ℤ → Option Bytes → Fed
  parser_pair : Bytes → Bytes → Fed

-- strchr: what stands before the character, and what stands behind it.
unfoldable pub split_at_char : ℕ → Bytes → Option (Bytes × Bytes)
split_at_char d [] = none
split_at_char d (c ∷ s) =
    let rest = split_at_char d s in
    if c == d
    then some ([], s)
    else elim rest [ none ↦ none | some (before, after) ↦ some (c ∷ before, after) ]

-- The text behind a character, or the text itself without one.
unfoldable pub after_char : ℕ → Bytes → Bytes
unfolding split_at_char
after_char d s = elim (split_at_char d s) [ none ↦ s | some (before, after) ↦ after ]

-- Skip the {COMMAND}: to the first closing brace, if there is an opening one.
unfoldable pub skip_command : Bytes → Bytes
unfolding after_char split_at_char
skip_command s = elim (split_at_char b'{' s) [ none ↦ s | some found ↦ after_char b'}' s ]

unfoldable pub skip_blanks : Bytes → Bytes
skip_blanks [] = []
skip_blanks (c ∷ s) = let rest = skip_blanks s in if c == 32 then rest else c ∷ s

unfoldable pub message_of : Bytes → Option Bytes
message_of [] = none
message_of (c ∷ s) = some (c ∷ s)

-- "@AT" behind the code is skipped.
skip_at : Bytes → Bytes
unfolding strtol
skip_at [] = []
skip_at (c ∷ s) = if c == b'@' then (strtol s).rest else c ∷ s

-- What stands behind the bracket that closes the code, or nothing without one.
unfoldable pub feed_message : ℤ → Option (Bytes × Bytes) → Fed
unfolding skip_command skip_blanks message_of
feed_message code none = parser_malformed
feed_message code (some (before, after)) =
    parser_error (to_int code) (message_of (skip_blanks (skip_command after)))

unfoldable pub feed_code : Strtol → Fed
unfolding skip_at split_at_char feed_message
feed_code code = feed_message code.value (split_at_char b']' (skip_at code.rest))

-- The part of an ACK line behind the opening bracket.
unfoldable pub feed_error : Bytes → Fed
unfolding strtol feed_code
feed_error s = feed_code (strtol s)

feed_value : Bytes → Bytes → Fed
feed_value name [] = parser_malformed
feed_value name (c ∷ value) = if c == 32 then parser_pair name value else parser_malformed

feed_pair : Option (Bytes × Bytes) → Fed
unfolding feed_value
feed_pair none = parser_malformed
feed_pair (some (name, rest)) = feed_value name rest

feed_ack : Option (Bytes × Bytes) → Fed
unfolding feed_error
feed_ack none = parser_error mpdcron_error_server_unk none
feed_ack (some (before, after)) = feed_error after

-- mpdcron_parser_feed. The memcmp of three bytes differs before it reads past a shorter line's end.
unfoldable pub mpdcron_parser_feed : Bytes → Fed
unfolding bytes_eq starts_with split_at_char feed_ack feed_pair
mpdcron_parser_feed line =
    if bytes_eq line (codes "OK")
    then parser_success
    else if starts_with line (codes "ACK")
    then feed_ack (split_at_char b'[' (drop 3 line))
    else feed_pair (split_at_char 58 line)

-- The result with the lines that are left to read; conn->error with its code and message; an error of
-- the output stream; or a failed assertion.
pub data Received (A : Type 0) : Type 0 where
  received : A → List Bytes → Received A
  connection_error : ℤ → Bytes → Received A
  write_failed aborted : Received A

-- "%s" of a message that may be a null pointer.
abbrev shown : Option Bytes → Bytes
shown none = codes "(null)"
shown (some text) = text

-- The lines that g_data_input_stream_read_line returns one after another, up to NULL.
pub record LineReader : Type 0 where
  pub lines : Bytes → List Bytes
  pub lines_nil : lines [] ≡ []
  pub lines_newline :
      (line rest : Bytes)
      → All (λ c. c ≢ b'\n') line
      → lines (line ++ (b'\n' ∷ rest)) ≡ line ∷ lines rest

-- mpdcron_recv_line at the end of the input.
eof_error : {A : Type 0} → Received A
eof_error = connection_error mpdcron_error_eof (codes "EOF while trying to read a line")

malformed_error : {A : Type 0} → Bytes → Received A
malformed_error line =
    connection_error mpdcron_error_malformed
      (codes "Malformed line `" ++ (line ++ codes "' received from server"))

-- The line has been cut behind the name.
unexpected_error : {A : Type 0} → Bytes → Received A
unexpected_error name =
    connection_error mpdcron_error_malformed
      (codes "Received unexpected name/value pair `" ++ (name ++ codes "'"))

unfoldable pub mpdcron_parse_single : List Bytes → Received Unit
unfolding mpdcron_parser_feed eof_error malformed_error unexpected_error
mpdcron_parse_single [] = eof_error
mpdcron_parse_single (line ∷ lines) = elim (mpdcron_parser_feed line) [
  | parser_success ↦ received tt lines
  | parser_error code message ↦ connection_error code (shown message)
  | parser_malformed ↦ malformed_error line
  | parser_pair name value ↦ unexpected_error name
]

-- The loop of mpdcron_parse_changes; `changes` is what the caller's variable holds.
unfoldable pub mpdcron_parse_changes : ℤ → List Bytes → Received ℤ
unfolding mpdcron_parser_feed eof_error malformed_error unexpected_error bytes_eq atoi
mpdcron_parse_changes changes [] = eof_error
mpdcron_parse_changes changes (line ∷ lines) = elim (mpdcron_parser_feed line) [
  | parser_success ↦ received changes lines
  | parser_error code message ↦ connection_error code (shown message)
  | parser_malformed ↦ malformed_error line
  | parser_pair name value ↦
      if bytes_eq name (codes "changes")
      then mpdcron_parse_changes (atoi value) lines
      else unexpected_error name
]

-- g_slist_prepend of the value at hand, if there is one.
abbrev pub prepend : {A : Type 0} → Option A → List A → List A
prepend none values = values
prepend (some x) values = x ∷ values

-- The loop that the four functions below share: `begin` makes the value that an "id" begins, and
-- `field` says what a name sets, `none` for a name that is not known.
unfoldable pub parse_values :
    {A : Type 0}
    → (ℤ → A)
    → (Bytes → Option (Bytes → A → A))
    → Option A
    → List A
    → List Bytes
    → Received (List A)
unfolding mpdcron_parser_feed eof_error malformed_error unexpected_error bytes_eq atoi
parse_values begin field current values [] = eof_error
parse_values begin field current values (line ∷ lines) = elim (mpdcron_parser_feed line) [
  | parser_success ↦ received (prepend current values) lines
  | parser_error code message ↦ connection_error code (shown message)
  | parser_malformed ↦ malformed_error line
  | parser_pair name value ↦
      if bytes_eq name (codes "id")
      then parse_values begin field (some (begin (atoi value))) (prepend current values) lines
      else elim (field name) [
        | none ↦ unexpected_error name
        | some set ↦ elim current [
          | none ↦ aborted
          | some x ↦ parse_values begin field (some (set value x)) values lines
        ]
      ]
]

-- struct mpdcron_entity
pub record Entity : Type 0 where
  pub id : ℤ
  pub play_count : ℤ
  pub name : Option Bytes
  pub artist : Option Bytes
  pub love : ℤ
  pub kill : ℤ
  pub rating : ℤ
  pub tags : List Bytes

-- struct mpdcron_song
pub record Song : Type 0 where
  pub id : ℤ
  pub play_count : ℤ
  pub uri : Option Bytes
  pub love : ℤ
  pub kill : ℤ
  pub rating : ℤ
  pub karma : ℤ
  pub last_played : ℤ
  pub tags : List Bytes

-- g_new0 and the id.
abbrev pub new_entity : ℤ → Entity
new_entity id = record {
  id = id;
  play_count = pos 0;
  name = none;
  artist = none;
  love = pos 0;
  kill = pos 0;
  rating = pos 0;
  tags = [];
}

abbrev pub new_song : ℤ → Song
new_song id = record {
  id = id;
  play_count = pos 0;
  uri = none;
  love = pos 0;
  kill = pos 0;
  rating = pos 0;
  karma = pos 0;
  last_played = pos 0;
  tags = [];
}

-- The fields that albums, artists and genres share.
unfoldable pub entity_field : Bytes → Option (Bytes → Entity → Entity)
unfolding bytes_eq atoi
entity_field name =
    if bytes_eq name (codes "Love")
    then some (λ value e. record e { love = atoi value })
    else if bytes_eq name (codes "Kill")
    then some (λ value e. record e { kill = atoi value })
    else if bytes_eq name (codes "Rating")
    then some (λ value e. record e { rating = atoi value })
    else if bytes_eq name (codes "Play Count")
    then some (λ value e. record e { play_count = atoi value })
    else if bytes_eq name (codes "Tag")
    then some (λ value e. record e { tags = value ∷ e.tags })
    else none

unfoldable pub album_field : Bytes → Option (Bytes → Entity → Entity)
unfolding entity_field bytes_eq
album_field name =
    if bytes_eq name (codes "Album")
    then some (λ value e. record e { name = some value })
    else if bytes_eq name (codes "Artist")
    then some (λ value e. record e { artist = some value })
    else entity_field name

unfoldable pub artist_field : Bytes → Option (Bytes → Entity → Entity)
unfolding entity_field bytes_eq
artist_field name =
    if bytes_eq name (codes "Artist")
    then some (λ value e. record e { name = some value })
    else entity_field name

unfoldable pub genre_field : Bytes → Option (Bytes → Entity → Entity)
unfolding entity_field bytes_eq
genre_field name =
    if bytes_eq name (codes "Genre")
    then some (λ value e. record e { name = some value })
    else entity_field name

-- `time` is what strptime and mktime_utc make of a text.
unfoldable pub song_field : (Bytes → ℤ) → Bytes → Option (Bytes → Song → Song)
unfolding bytes_eq atoi
song_field time name =
    if bytes_eq name (codes "file")
    then some (λ value e. record e { uri = some value })
    else if bytes_eq name (codes "Love")
    then some (λ value e. record e { love = atoi value })
    else if bytes_eq name (codes "Kill")
    then some (λ value e. record e { kill = atoi value })
    else if bytes_eq name (codes "Rating")
    then some (λ value e. record e { rating = atoi value })
    else if bytes_eq name (codes "Play Count")
    then some (λ value e. record e { play_count = atoi value })
    else if bytes_eq name (codes "Karma")
    then some (λ value e. record e { karma = atoi value })
    else if bytes_eq name (codes "Last Played")
    then some (λ value e. record e { last_played = time value })
    else if bytes_eq name (codes "Tag")
    then some (λ value e. record e { tags = value ∷ e.tags })
    else none

unfoldable pub mpdcron_parse_albums : List Bytes → Received (List Entity)
unfolding parse_values album_field
mpdcron_parse_albums = parse_values new_entity album_field none []

unfoldable pub mpdcron_parse_artists : List Bytes → Received (List Entity)
unfolding parse_values artist_field
mpdcron_parse_artists = parse_values new_entity artist_field none []

unfoldable pub mpdcron_parse_genres : List Bytes → Received (List Entity)
unfolding parse_values genre_field
mpdcron_parse_genres = parse_values new_entity genre_field none []

unfoldable pub mpdcron_parse_songs : (Bytes → ℤ) → List Bytes → Received (List Song)
unfolding parse_values song_field
mpdcron_parse_songs time = parse_values new_song (song_field time) none []
