-- ===== src/Scrobbler/Journal/Stale.antt =====
-- When the journal is not written.
use mpdcron.Prelude.{◌≡◌, Bytes, true, false, some, List, [], is_empty}
use mpdcron.Scrobbler.Record.{SongRecord}
use mpdcron.Scrobbler.Journal.{Journal, journal_write, journal_write_records}

-- When the journal was found empty and songs are saved to it, saving an empty queue afterwards
-- writes nothing, so that the songs stay in the file.
pub journal_write-stale :
    (queue : List SongRecord) (text : Bytes) (j : Journal)
    → j.journal_file_empty ≡ true
    → is_empty queue ≡ false
    → journal_write_records queue ≡ some text
    → (journal_write true queue j ≡ some (true, record j { file = some text }))
      × (journal_write true [] (record j { file = some text })
          ≡ some (false, record j { file = some text }))
unfolding journal_write
journal_write-stale queue text j flag songs written =
    (rw (journal_write, songs, written), rw (journal_write, flag))
