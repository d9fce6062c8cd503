-- ===== src/Scrobbler/Journal/RoundTrip.antt =====
-- A journal that was written is read back.
use mathlib.Core.List.{append_assoc, append-nil}
use mpdcron.Prelude.{
  ◌≡◌, refl, ap, sym, ◌∙◌, Bytes, true, false, ◌&&◌, is_empty, Option, some, List, [], ◌∷◌, ◌++◌,
  All, decimal_ℤ,
}
use mpdcron.Scrobbler.Record.{SongRecord, record_clear}
use mpdcron.Scrobbler.Journal.{
  Journal, Reader, Strings, journal_write_string, journal_write_record, journal_write_records,
  journal_write, journal_commit_record, journal_read, fgets_lines, journal_lines,
}
use mpdcron.Scrobbler.Journal.Fields.{read_text}
use mpdcron.Scrobbler.Journal.Songs.{IsStorableRecord, step, song_text, read_song, reassociate}

module _ (g : Strings) where
  journal_write_record-song :
      (r : SongRecord) (h : IsStorableRecord g r)
      → journal_write_record r ≡ some (song_text h.singer h.title h.origin r [])
  unfolding journal_write_record
  journal_write_record-song r h =
      ap (λ (x : Option Bytes). journal_write_record (record r { source = x })) h.source_given
      ∙ ap
          (λ (x : Option Bytes).
            journal_write_record (record r { source = some h.origin; artist = x }))
          h.artist_given
      ∙ ap
          (λ (x : Option Bytes).
            journal_write_record
              (record r { source = some h.origin; artist = some h.singer; track = x }))
          h.track_given

  commit-song :
      (r : SongRecord) (h : IsStorableRecord g r) (rd : Reader)
      → (journal_commit_record (step rd r)).queue ≡ rd.queue ++ (r ∷ [])
  unfolding journal_commit_record
  commit-song r h rd = rw (journal_commit_record, h.artist_given, h.track_given)

  -- The songs of a queue are written, and the reader puts them behind what it has.
  read_songs :
      (queue : List SongRecord)
      → All (IsStorableRecord g) queue
      → (text : Bytes) × (journal_write_records queue ≡ some text)
        × ((rd : Reader)
            → (journal_commit_record (read_text g text rd)).queue
              ≡ (journal_commit_record rd).queue ++ queue)
  unfolding journal_write_records journal_lines fgets_lines
  read_songs [] h = ([], refl, λ rd. sym (append-nil _))
  read_songs (r ∷ queue) (fits, h) =
      let (text, written, back) = read_songs queue h in
      let song = song_text fits.singer fits.title fits.origin r [] in
      (
        song ++ text,
        rw (journal_write_record-song r fits, written, journal_write_records),
        λ rd.
            ap (λ (t : Bytes). (journal_commit_record (read_text g t rd)).queue)
              (reassociate (journal_write_string b'a' (some fits.singer))
                (journal_write_string b't' (some fits.title)) (journal_write_string b'b' r.album)
                (journal_write_string b'n' r.number) (journal_write_string b'm' r.mbid)
                (journal_write_string b'i' r.time)
                (journal_write_string b'l' (some (decimal_ℤ r.length)))
                (journal_write_string b'o' (some fits.origin)) text)
            ∙ ap (λ (rd' : Reader). (journal_commit_record rd').queue) (read_song g r fits text rd)
            ∙ back (step (journal_commit_record rd) r)
            ∙ ap (λ (q : List SongRecord). q ++ queue)
                (commit-song r fits (journal_commit_record rd))
            ∙ append_assoc (journal_commit_record rd).queue (r ∷ []) queue,
      )

  -- A queue that is written to a journal is read back as it was, if the journal is due to be
  -- written and every song has an artist and a title, values that fit on a line, have no newline,
  -- zero byte or whitespace at either end, a time stamp that is not in the old format, a length
  -- that atoi reads back and a source that is P or R.
  pub journal_read-journal_write :
      (queue : List SongRecord) (j : Journal)
      → All (IsStorableRecord g) queue
      → (is_empty queue && j.journal_file_empty) ≡ false
      → (j' : Journal) × (journal_write true queue j ≡ some (true, j'))
        × ((journal_read g [] j').0 ≡ queue)
  unfolding journal_write journal_read journal_commit_record
  journal_read-journal_write queue j fits due =
      let (text, written, back) = read_songs queue fits in
      (
        record j { file = some text },
        rw (journal_write, due, written),
        back (record { queue = []; current = record_clear; file_empty = true }),
      )
