-- ===== src/Scrobbler/Journal.antt =====
-- The journal of a scrobbler, a text file that keeps its queue: scrobbler-journal.c.
pub mod Fields
pub mod Songs
pub mod RoundTrip
pub mod Stale
mod Tests
use mathlib.Core.Option.{map}
use mpdcron.Prelude.{
  ◌≡◌, ◌≤◌, ℕ, zero, suc, Bytes, codes, bytes_eq, decimal_ℤ, Bool, true, false, ◌&&◌, ◌||◌, Option,
  none, some, List, [], ◌∷◌, ◌++◌, ◌==◌, is_empty, if◌then◌else◌,
}
use mpdcron.Prelude.Int.{ℤ}
use mpdcron.Scrobbler.Record.{SongRecord, record_clear, source_radio, record_is_defined}
use mpdcron.Scrobbler.Response.{c_string}

-- The file of a path, and the static journal_file_empty, which all journals share.
pub record Journal : Type 0 where
  pub file : Option Bytes
  pub journal_file_empty : Bool

-- journal_write_string
unfoldable pub journal_write_string : ℕ → Option Bytes → Bytes
journal_write_string field none = []
journal_write_string field (some value) = field ∷ b' ' ∷ b'=' ∷ b' ' ∷ (value ++ (b'\n' ∷ []))

-- journal_write_record; `none` is the failed assertion that the record has a source.
unfoldable pub journal_write_record : SongRecord → Option Bytes
unfolding journal_write_string
journal_write_record r =
    map
      (λ source.
        journal_write_string b'a' r.artist
        ++ (journal_write_string b't' r.track
            ++ (journal_write_string b'b' r.album
                ++ (journal_write_string b'n' r.number
                    ++ (journal_write_string b'm' r.mbid
                        ++ (journal_write_string b'i' r.time
                            ++ (journal_write_string b'l' (some (decimal_ℤ r.length))
                                ++ (journal_write_string b'o' (some source) ++ (b'\n' ∷ [])))))))))
      r.source

-- The loop of g_queue_foreach.
unfoldable pub journal_write_records : List SongRecord → Option Bytes
unfolding journal_write_record
journal_write_records [] = some []
journal_write_records (r ∷ queue) = elim (journal_write_record r) [
  | none ↦ none
  | some text ↦ map (λ rest. text ++ rest) (journal_write_records queue)
]

-- journal_write: what it returns, and the journal afterwards. `opens` is whether fopen succeeds.
unfoldable pub journal_write : Bool → List SongRecord → Journal → Option (Bool × Journal)
unfolding journal_write_records
journal_write opens queue j =
    if is_empty queue && j.journal_file_empty
    then some (false, j)
    else if opens
    then map (λ text. (true, record j { file = some text })) (journal_write_records queue)
    else some (false, j)

-- The lines that fgets reads with a buffer of 1024 bytes; `room` is what is left of the buffer.
unfoldable pub cons_first : ℕ → List Bytes → List Bytes
cons_first c [] = (c ∷ []) ∷ []
cons_first c (line ∷ lines) = (c ∷ line) ∷ lines

unfoldable pub fgets_lines : ℕ → Bytes → List Bytes
unfolding cons_first
fgets_lines room [] = []
fgets_lines zero (c ∷ s) = (c ∷ []) ∷ fgets_lines 1022 s
fgets_lines (suc room) (c ∷ s) = elim (c == b'\n') [
  | true ↦ (c ∷ []) ∷ fgets_lines 1022 s
  | false ↦ cons_first c (fgets_lines room s)
]

-- strchr(key, '='), with what stands before it and behind it.
unfoldable pub split_equals : Bytes → Option (Bytes × Bytes)
split_equals [] = none
split_equals (c ∷ s) =
    let rest = split_equals s in
    if c == b'=' then some ([], s) else map (λ (found : Bytes × Bytes). (c ∷ found.0, found.1)) rest

-- What the reader has at hand between two lines.
pub record Reader : Type 0 where
  pub queue : List SongRecord
  pub current : SongRecord
  pub file_empty : Bool

-- journal_commit_record
unfoldable pub journal_commit_record : Reader → Reader
journal_commit_record r =
    if record_is_defined r.current
    then record { queue = r.queue ++ (r.current ∷ []); current = record_clear; file_empty = false }
    else record r { current = record_clear }

-- GLib's g_strchug and g_strchomp, which remove whitespace at the front and at the end, C's atoi, and
-- g_time_val_from_iso8601, which gives the seconds of a time stamp, printed.
pub record Strings : Type 0 where
  pub isspace : ℕ → Bool
  pub strchug : Bytes → Bytes
  pub strchomp : Bytes → Bytes
  pub atoi : Bytes → ℤ
  pub iso8601 : Bytes → Option Bytes
  pub space_le : (c : ℕ) → isspace c ≡ true → c ≤ 32
  pub space_is_space : isspace 32 ≡ true
  pub newline_is_space : isspace b'\n' ≡ true
  pub strchug_nil : strchug [] ≡ []
  pub strchug_cons :
      (c : ℕ) (s : Bytes) → strchug (c ∷ s) ≡ (if isspace c then strchug s else c ∷ s)
  pub strchomp_nil : strchomp [] ≡ []
  pub strchomp_snoc :
      (s : Bytes) (c : ℕ)
      → strchomp (s ++ (c ∷ [])) ≡ (if isspace c then strchomp s else s ++ (c ∷ []))

module _ (g : Strings) where
  -- The byte at position 10 is a space, which is set to 'T'.
  unfoldable pub old_format : ℕ → Bytes → Option Bytes
  old_format n [] = none
  old_format zero (c ∷ s) = if c == b' ' then some (b'T' ∷ s) else none
  old_format (suc n) (c ∷ s) = map (λ t. c ∷ t) (old_format n s)

  -- parse_timestamp, with import_old_timestamp.
  unfoldable pub parse_timestamp : Bytes → Bytes
  unfolding old_format
  parse_timestamp p = elim (old_format 10 p) [
    | none ↦ p
    | some q ↦ elim (g.iso8601 q) [ none ↦ p | some seconds ↦ seconds ]
  ]

  starts_radio : Bytes → Bool
  starts_radio [] = false
  starts_radio (c ∷ s) = c == b'R'

  -- The chain of tests on the key.
  unfoldable pub set_field : Bytes → Bytes → Reader → Reader
  unfolding parse_timestamp journal_commit_record starts_radio bytes_eq
  set_field key value r =
      if bytes_eq key (codes "a")
      then (let next = journal_commit_record r in
          record next { current = record next.current { artist = some value } })
      else if bytes_eq key (codes "t")
      then record r { current = record r.current { track = some value } }
      else if bytes_eq key (codes "b")
      then record r { current = record r.current { album = some value } }
      else if bytes_eq key (codes "n")
      then record r { current = record r.current { number = some value } }
      else if bytes_eq key (codes "m")
      then record r { current = record r.current { mbid = some value } }
      else if bytes_eq key (codes "i")
      then record r { current = record r.current { time = some (parse_timestamp value) } }
      else if bytes_eq key (codes "l")
      then record r { current = record r.current { length = g.atoi value } }
      else if bytes_eq key (codes "o") && starts_radio value
      then record r { current = record r.current { source = some source_radio } }
      else r

  -- The line has a key and a value.
  unfoldable pub key_value : Bytes → Option (Bytes × Bytes)
  unfolding split_equals
  key_value [] = none
  key_value (c ∷ key) =
      if c == b'#' || c == b'='
      then none
      else map (λ (found : Bytes × Bytes). (g.strchomp found.0, g.strchomp (g.strchug found.1)))
          (split_equals (c ∷ key))

  -- One round of the loop over the lines.
  unfoldable pub journal_line : Bytes → Reader → Reader
  unfolding set_field key_value
  journal_line line r = elim (key_value (g.strchug (c_string line))) [
    | none ↦ r
    | some (key, value) ↦ set_field key value r
  ]

  unfoldable pub journal_lines : List Bytes → Reader → Reader
  unfolding journal_line
  journal_lines [] r = r
  journal_lines (line ∷ lines) r = journal_lines lines (journal_line line r)

  -- journal_read: the queue, and the journal with the flag that it sets.
  unfoldable pub journal_read : List SongRecord → Journal → List SongRecord × Journal
  unfolding journal_lines fgets_lines journal_commit_record
  journal_read queue j = elim j.file [
    | none ↦ (queue, record j { journal_file_empty = true })
    | some text ↦
        let end = journal_commit_record (
          journal_lines (fgets_lines 1022 text)
            (record { queue = queue; current = record_clear; file_empty = true })) in
        (end.queue, record j { journal_file_empty = end.file_empty })
  ]
