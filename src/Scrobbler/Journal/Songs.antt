-- ===== src/Scrobbler/Journal/Songs.antt =====
-- One song of the journal is read back.
use mathlib.Core.List.{append_assoc}
use mpdcron.Prelude.{
  ◌≡◌, ◌⊎◌, refl, ap, sym, ◌∙◌, Bytes, Bool-cases, inl, inr, Option, none, some, [], ◌∷◌, ◌++◌,
  decimal_ℤ, arith,
}
use mpdcron.Prelude.Int.{ℤ}
use mpdcron.Scrobbler.Record.{
  SongRecord, record_clear, record_is_defined, source_user, source_radio,
}
use mpdcron.Scrobbler.Journal.{
  Reader, Strings, journal_write_string, journal_commit_record, set_field, parse_timestamp,
  old_format,
}
use mpdcron.Scrobbler.Journal.Fields.{
  IsStorable, letter-IsStorable, read_text, read_text-field, read_text-blank,
}

pub reassociate :
    (a t b n m i l o rest : Bytes)
    → (a ++ (t ++ (b ++ (n ++ (m ++ (i ++ (l ++ (o ++ (b'\n' ∷ []))))))))) ++ rest
      ≡ a ++ (t ++ (b ++ (n ++ (m ++ (i ++ (l ++ (o ++ (b'\n' ∷ rest))))))))
reassociate a t b n m i l o rest = simp append_assoc

-- The reader with another record at hand.
abbrev pub step : Reader → SongRecord → Reader
step rd r = record rd { current = r }

-- What the writer writes for a song, before more text.
abbrev pub song_text : Bytes → Bytes → Bytes → SongRecord → Bytes → Bytes
song_text singer title origin r rest =
    journal_write_string b'a' (some singer)
    ++ (journal_write_string b't' (some title)
        ++ (journal_write_string b'b' r.album
            ++ (journal_write_string b'n' r.number
                ++ (journal_write_string b'm' r.mbid
                    ++ (journal_write_string b'i' r.time
                        ++ (journal_write_string b'l' (some (decimal_ℤ r.length))
                            ++ (journal_write_string b'o' (some origin) ++ (b'\n' ∷ rest))))))))

module _ (g : Strings) where
  abbrev pub IsStorableOption : Option Bytes → Type 0
  IsStorableOption none = Unit
  IsStorableOption (some v) = IsStorable g v

  -- A time stamp that is not in the old format.
  abbrev pub IsStamp : Option Bytes → Type 0
  IsStamp none = Unit
  IsStamp (some v) = old_format g 10 v ≡ none

  -- A song that the journal can hold: its values fit on a line, its length is read back by atoi, and
  -- its source is one that the reader knows.
  pub record IsStorableRecord (r : SongRecord) : Type 0 where
    pub title : Bytes
    pub singer : Bytes
    pub artist_given : r.artist ≡ some singer
    pub track_given : r.track ≡ some title
    pub artist_fits : IsStorable g singer
    pub track_fits : IsStorable g title
    pub album_fits : IsStorableOption r.album
    pub number_fits : IsStorableOption r.number
    pub mbid_fits : IsStorableOption r.mbid
    pub time_fits : IsStorableOption r.time
    pub time_new : IsStamp r.time
    pub length_fits : IsStorable g (decimal_ℤ r.length)
    pub length_back : g.atoi (decimal_ℤ r.length) ≡ r.length
    pub origin : Bytes
    pub source_given : r.source ≡ some origin
    pub source_known : (origin ≡ source_user) ⊎ (origin ≡ source_radio)

  read_album :
      (o : Option Bytes) (rest : Bytes) (rd : Reader)
      → IsStorableOption o
      → rd.current.album ≡ none
      → read_text g (journal_write_string b'b' o ++ rest) rd
        ≡ read_text g rest (step rd (record rd.current { album = o }))
  unfolding set_field journal_write_string
  read_album none rest rd h e =
      ap (λ (x : Option Bytes). read_text g rest (step rd (record rd.current { album = x }))) e
  read_album (some v) rest rd h e = read_text-field g b'b' v rest rd (omega arith) h

  read_number :
      (o : Option Bytes) (rest : Bytes) (rd : Reader)
      → IsStorableOption o
      → rd.current.number ≡ none
      → read_text g (journal_write_string b'n' o ++ rest) rd
        ≡ read_text g rest (step rd (record rd.current { number = o }))
  unfolding set_field journal_write_string
  read_number none rest rd h e =
      ap (λ (x : Option Bytes). read_text g rest (step rd (record rd.current { number = x }))) e
  read_number (some v) rest rd h e = read_text-field g b'n' v rest rd (omega arith) h

  read_mbid :
      (o : Option Bytes) (rest : Bytes) (rd : Reader)
      → IsStorableOption o
      → rd.current.mbid ≡ none
      → read_text g (journal_write_string b'm' o ++ rest) rd
        ≡ read_text g rest (step rd (record rd.current { mbid = o }))
  unfolding set_field journal_write_string
  read_mbid none rest rd h e =
      ap (λ (x : Option Bytes). read_text g rest (step rd (record rd.current { mbid = x }))) e
  read_mbid (some v) rest rd h e = read_text-field g b'm' v rest rd (omega arith) h

  parse_timestamp-new : (v : Bytes) → old_format g 10 v ≡ none → parse_timestamp g v ≡ v
  unfolding parse_timestamp
  parse_timestamp-new v h = rw (parse_timestamp, h)

  read_time :
      (o : Option Bytes) (rest : Bytes) (rd : Reader)
      → IsStorableOption o
      → IsStamp o
      → rd.current.time ≡ none
      → read_text g (journal_write_string b'i' o ++ rest) rd
        ≡ read_text g rest (step rd (record rd.current { time = o }))
  unfolding set_field journal_write_string
  read_time none rest rd h new e =
      ap (λ (x : Option Bytes). read_text g rest (step rd (record rd.current { time = x }))) e
  read_time (some v) rest rd h new e =
      read_text-field g b'i' v rest rd (omega arith) h
      ∙ ap (λ (x : Bytes). read_text g rest (step rd (record rd.current { time = some x })))
          (parse_timestamp-new v new)

  read_track :
      (v rest : Bytes) (rd : Reader)
      → IsStorable g v
      → read_text g (journal_write_string b't' (some v) ++ rest) rd
        ≡ read_text g rest (step rd (record rd.current { track = some v }))
  unfolding set_field
  read_track v rest rd h = read_text-field g b't' v rest rd (omega arith) h

  read_length :
      (n : ℤ) (rest : Bytes) (rd : Reader)
      → IsStorable g (decimal_ℤ n)
      → g.atoi (decimal_ℤ n) ≡ n
      → read_text g (journal_write_string b'l' (some (decimal_ℤ n)) ++ rest) rd
        ≡ read_text g rest (step rd (record rd.current { length = n }))
  unfolding set_field
  read_length n rest rd h back =
      read_text-field g b'l' (decimal_ℤ n) rest rd (omega arith) h
      ∙ ap (λ (x : ℤ). read_text g rest (step rd (record rd.current { length = x }))) back

  commit-clear : (rd : Reader) → (journal_commit_record rd).current ≡ record_clear
  unfolding journal_commit_record
  commit-clear rd = elim (Bool-cases (record_is_defined rd.current)) [
    | inl defined ↦ rw (defined, journal_commit_record)
    | inr undefined ↦ rw (undefined, journal_commit_record)
  ]

  read_artist :
      (v rest : Bytes) (rd : Reader)
      → IsStorable g v
      → read_text g (journal_write_string b'a' (some v) ++ rest) rd
        ≡ read_text g rest
            (step (journal_commit_record rd) (record record_clear { artist = some v }))
  unfolding set_field
  read_artist v rest rd h =
      read_text-field g b'a' v rest rd (omega arith) h
      ∙ ap
          (λ (c : SongRecord).
            read_text g rest (step (journal_commit_record rd) (record c { artist = some v })))
          (commit-clear rd)

  read_source :
      (s rest : Bytes) (rd : Reader)
      → (s ≡ source_user) ⊎ (s ≡ source_radio)
      → rd.current.source ≡ some source_user
      → read_text g (journal_write_string b'o' (some s) ++ rest) rd
        ≡ read_text g rest (step rd (record rd.current { source = some s }))
  unfolding set_field
  read_source s rest rd (inl user) e =
      ap (λ (x : Bytes). read_text g (journal_write_string b'o' (some x) ++ rest) rd) user
      ∙ read_text-field g b'o' source_user rest rd (omega arith)
          (letter-IsStorable g b'P' (omega arith))
      ∙ ap (λ (x : Option Bytes). read_text g rest (step rd (record rd.current { source = x })))
          (e ∙ ap some (sym user))
  read_source s rest rd (inr radio) e =
      ap (λ (x : Bytes). read_text g (journal_write_string b'o' (some x) ++ rest) rd) radio
      ∙ read_text-field g b'o' source_radio rest rd (omega arith)
          (letter-IsStorable g b'R' (omega arith))
      ∙ ap (λ (x : Bytes). read_text g rest (step rd (record rd.current { source = some x })))
          (sym radio)

  pub read_song :
      (r : SongRecord) (h : IsStorableRecord r) (rest : Bytes) (rd : Reader)
      → read_text g (song_text h.singer h.title h.origin r rest) rd
        ≡ read_text g rest (step (journal_commit_record rd) r)
  read_song r h rest rd =
      let after = journal_commit_record rd in
      let clear : SongRecord = record record_clear { artist = some h.singer } in
      let titled : SongRecord = record clear { track = some h.title } in
      let albumed : SongRecord = record titled { album = r.album } in
      let numbered : SongRecord = record albumed { number = r.number } in
      let identified : SongRecord = record numbered { mbid = r.mbid } in
      let timed : SongRecord = record identified { time = r.time } in
      let measured : SongRecord = record timed { length = r.length } in
      read_artist h.singer _ rd h.artist_fits
      ∙ read_track h.title _ (step after clear) h.track_fits
      ∙ read_album r.album _ (step after titled) h.album_fits refl
      ∙ read_number r.number _ (step after albumed) h.number_fits refl
      ∙ read_mbid r.mbid _ (step after numbered) h.mbid_fits refl
      ∙ read_time r.time _ (step after identified) h.time_fits h.time_new refl
      ∙ read_length r.length _ (step after timed) h.length_fits h.length_back
      ∙ read_source h.origin _ (step after measured) h.source_known refl
      ∙ read_text-blank g rest (step after (record measured { source = some h.origin }))
      ∙ ap
          (λ (x : Option Bytes).
            read_text g rest (step after (record measured { source = some h.origin; artist = x })))
          (sym h.artist_given)
      ∙ ap
          (λ (x : Option Bytes).
            read_text g rest (step after (record r { source = some h.origin; track = x })))
          (sym h.track_given)
      ∙ ap (λ (x : Option Bytes). read_text g rest (step after (record r { source = x })))
          (sym h.source_given)
