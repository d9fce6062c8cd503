-- ===== src/Scrobbler/Journal/Tests.antt =====
-- The journal on concrete songs.
use mpdcron.Prelude.{
  ℕ, ◌+◌, ◌-◌, ◌*◌, ◌≡◌, refl, Bytes, codes, true, false, ◌&&◌, none, some, [], ◌∷◌, inl, leb,
  decimal, decimal_ℤ, if◌then◌else◌, arith,
}
use mpdcron.Prelude.Int.{pos}
use mpdcron.Prelude.Ascii.{
  is_space, space_le, chug, chug_nil, chug_cons, chomp, chomp_nil, chomp_snoc,
}
use mpdcron.Scrobbler.Record.{SongRecord, record_clear}
use mpdcron.Scrobbler.Journal.{
  Journal, Strings, journal_write, journal_write_records, journal_write_record,
  journal_write_string, journal_read, old_format,
}
use mpdcron.Scrobbler.Journal.RoundTrip.{journal_read-journal_write}
use mpdcron.Scrobbler.Journal.Songs.{IsStorableRecord}
use mpdcron.Scrobbler.Journal.Stale.{journal_write-stale}

-- The value of the leading digits.
digits : ℕ → Bytes → ℕ
digits acc [] = acc
digits acc (c ∷ s) =
    let rest = digits (acc * 10 + (c - b'0')) s in if leb b'0' c && leb c b'9' then rest else acc

abbrev strings : Strings
strings = record {
  isspace = is_space;
  strchug = chug;
  strchomp = chomp;
  atoi = λ s. pos (digits 0 s);
  iso8601 = λ s. none;
  space_le = space_le;
  space_is_space = refl;
  newline_is_space = refl;
  strchug_nil = chug_nil;
  strchug_cons = chug_cons;
  strchomp_nil = chomp_nil;
  strchomp_snoc = chomp_snoc;
}

abbrev song : SongRecord
song = record record_clear {
  artist = some (codes "A b");
  track = some (codes "T=#");
  time = some (codes "1700000000");
  length = pos 200;
}

abbrev empty_journal : Journal
empty_journal = record { file = none; journal_file_empty = true }

song-IsStorableRecord : IsStorableRecord strings song
unfolding chomp old_format digits decimal decimal_ℤ
song-IsStorableRecord = record {
  title = codes "T=#";
  singer = codes "A b";
  artist_given = refl;
  track_given = refl;
  artist_fits = record {
    no_newline = ground arith;
    no_zero = ground arith;
    chugged = omega arith;
    chomped = refl;
    short = omega arith;
  };
  track_fits = record {
    no_newline = ground arith;
    no_zero = ground arith;
    chugged = omega arith;
    chomped = refl;
    short = omega arith;
  };
  album_fits = tt;
  number_fits = tt;
  mbid_fits = tt;
  time_fits = record {
    no_newline = ground arith;
    no_zero = ground arith;
    chugged = omega arith;
    chomped = refl;
    short = omega arith;
  };
  time_new = refl;
  length_fits = record {
    no_newline = ground arith;
    no_zero = ground arith;
    chugged = omega arith;
    chomped = refl;
    short = omega arith;
  };
  length_back = refl;
  origin = codes "P";
  source_given = refl;
  source_known = inl refl;
}

journal_read-journal_write_example :
    (j : Journal) × (journal_write true (song ∷ song ∷ []) empty_journal ≡ some (true, j))
    × ((journal_read strings [] j).0 ≡ song ∷ song ∷ [])
journal_read-journal_write_example =
    journal_read-journal_write strings (song ∷ song ∷ []) empty_journal
      (song-IsStorableRecord, (song-IsStorableRecord, tt)) refl

abbrev song_lines : Bytes
song_lines = codes "a = A b\nt = T=#\ni = 1700000000\nl = 200\no = P\n\n"

song_written : journal_write_records (song ∷ []) ≡ some song_lines
unfolding journal_write_records journal_write_record journal_write_string decimal decimal_ℤ
song_written = refl

journal_write-stale_example :
    (journal_write true (song ∷ []) empty_journal
      ≡ some (true, record empty_journal { file = some song_lines }))
    × (journal_write true [] (record empty_journal { file = some song_lines })
        ≡ some (false, record empty_journal { file = some song_lines }))
journal_write-stale_example =
    journal_write-stale (song ∷ []) song_lines empty_journal refl refl song_written
