-- ===== src/Scrobbler/Record.antt =====
-- scrobbler-record.c and the record of scrobbler-defs.h: one played song.
use mpdcron.Prelude.{Bytes, codes, Bool, ◌&&◌, Option, none, some, is_some}
use mpdcron.Prelude.Int.{ℤ, pos}

-- struct record; `none` is a null pointer.
pub record SongRecord : Type 0 where
  pub artist : Option Bytes
  pub track : Option Bytes
  pub album : Option Bytes
  pub number : Option Bytes
  pub mbid : Option Bytes
  pub time : Option Bytes
  pub length : ℤ
  pub source : Option Bytes

abbrev pub source_user : Bytes
source_user = codes "P"

abbrev pub source_radio : Bytes
source_radio = codes "R"

-- record_clear
abbrev pub record_clear : SongRecord
record_clear = record {
  artist = none;
  track = none;
  album = none;
  number = none;
  mbid = none;
  time = none;
  length = pos 0;
  source = some source_user;
}

-- A record whose bytes are all zero, as memset leaves it: the source is a null pointer too.
abbrev pub record_zeroed : SongRecord
record_zeroed = record record_clear { source = none }

abbrev pub record_is_defined : SongRecord → Bool
record_is_defined r = is_some r.artist && is_some r.track
