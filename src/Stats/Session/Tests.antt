-- ===== src/Stats/Session/Tests.antt =====
-- Clients and a server over a small database, and what GLib's functions do on concrete texts.
use mpdcron.Prelude.{
  ℕ, zero, suc, length, ◌≡◌, ◌≢◌, refl, ap, Bytes, codes, Bool-cases, inl, inr, none, some, List,
  [], ◌∷◌, ◌++◌, All, drop, is_empty, if◌then◌else◌, ◌==◌, arith,
}
use mpdcron.Prelude.Int.{ℤ, pos}
use mpdcron.Stats.Tests.{ascii}
use mpdcron.Stats.Command.{permission_none, permission_select, permission_update}
use mpdcron.Stats.Database.{
  Sqlite, error, ack_error_database_prepare, Row, done, prepare_failed, Ran, rows, sql_update_entry,
}
use mpdcron.Stats.Database.Tags.{
  Split, colon, db_add_album_tag_expr, db_remove_album_tag_expr, remove_tag, validate_tag,
}
use mpdcron.Stats.Database.Tags.Laws.{tags_column, without, remove_tag-tags_column}
use mpdcron.Stats.Client.{LineReader}
use mpdcron.Stats.Server.{Server, Host}
use mpdcron.Stats.Protocol.{quote}
use mpdcron.Stats.Protocol.Quote.{literal}
use mpdcron.Stats.Database.Tags.Album.{db_remove_album_tag_expr-fails}
use mpdcron.Stats.Server.Clients.{
  Event, incoming, line_read, IsSound, handle_all, handle, lookup, handle_all-replaces,
}
use mpdcron.Stats.Client.{Entity, Received, received}
use mpdcron.Stats.Session.Listing.{info_artists}
use mpdcron.Stats.Session.Lists.{listed}
use mpdcron.Stats.Session.Rows.{Stored, client_view, selection}
use mpdcron.Stats.Session.Listed.{listed-rows}
use mpdcron.Stats.Session.Safety.{IsUntouched, event_read_line-IsUntouched}
use mpdcron.Stats.Session.{server_peer, event_read_line}
use mpdcron.Stats.Session.Exchange.{reported}
use mpdcron.Stats.Session.Change.{add_tag, on_album, request, change_database}
use mpdcron.Stats.Session.Refinement.{request-change_database}

abbrev push : ℕ → List Bytes → List Bytes
push c [] = (c ∷ []) ∷ []
push c (l ∷ ls) = (c ∷ l) ∷ ls

abbrev cut_lines : Bytes → List Bytes
cut_lines [] = []
cut_lines (c ∷ s) = let rest = cut_lines s in if c == b'\n' then [] ∷ rest else push c rest

cut_lines-newline :
    (line rest : Bytes)
    → All (λ c. c ≢ b'\n') line
    → cut_lines (line ++ (b'\n' ∷ rest)) ≡ line ∷ cut_lines rest
cut_lines-newline [] rest h = refl
cut_lines-newline (c ∷ line) rest h = elim (Bool-cases (c == b'\n')) [
  | inl newline ↦ absurd (ground (arith, newline, h.0))
  | inr other ↦ rw (other, cut_lines-newline line rest h.1) refl
]

abbrev line_reader : LineReader
line_reader = record { lines = cut_lines; lines_nil = refl; lines_newline = cut_lines-newline }

abbrev pieces : Bytes → List Bytes
pieces [] = [] ∷ []
pieces (c ∷ s) = let rest = pieces s in if c == colon then [] ∷ rest else push c rest

abbrev split_colons : Bytes → List Bytes
split_colons s = if is_empty s then [] else pieces s

pieces-piece : (p : Bytes) → All (λ c. c ≢ colon) p → pieces p ≡ p ∷ []
pieces-piece [] h = refl
pieces-piece (c ∷ p) h = elim (Bool-cases (c == colon)) [
  | inl special ↦ absurd (ground (arith, special, h.0))
  | inr other ↦ rw (other, pieces-piece p h.1) refl
]

pieces-colon :
    (p rest : Bytes) → All (λ c. c ≢ colon) p → pieces (p ++ (colon ∷ rest)) ≡ p ∷ pieces rest
pieces-colon [] rest h = refl
pieces-colon (c ∷ p) rest h = elim (Bool-cases (c == colon)) [
  | inl special ↦ absurd (ground (arith, special, h.0))
  | inr other ↦ rw (other, pieces-colon p rest h.1) refl
]

split_colons-piece : (p : Bytes) → p ≢ [] → All (λ c. c ≢ colon) p → split_colons p ≡ p ∷ []
split_colons-piece [] some_text h = absurd (some_text refl)
split_colons-piece (c ∷ p) some_text h = pieces-piece (c ∷ p) h

split_colons-colon :
    (p rest : Bytes)
    → All (λ c. c ≢ colon) p
    → split_colons (p ++ (colon ∷ rest))
      ≡ p ∷ (if is_empty rest then [] ∷ [] else split_colons rest)
split_colons-colon [] [] h = refl
split_colons-colon [] (d ∷ rest) h = refl
split_colons-colon (c ∷ p) [] h = pieces-colon (c ∷ p) [] h
split_colons-colon (c ∷ p) (d ∷ rest) h = pieces-colon (c ∷ p) (d ∷ rest) h

abbrev split : Split
split = record {
  strsplit = split_colons;
  strsplit_nil = refl;
  strsplit_piece = split_colons-piece;
  strsplit_colon = split_colons-colon;
}

-- A database that keeps the statements that were run.
abbrev sqlite : Sqlite (List Bytes)
sqlite = record {
  update = λ text d. (done, text ∷ d);
  changes = λ d. 2;
  select = λ text d. (rows [], d);
  maintain = λ m d. d;
  errmsg = λ d. codes "not an error";
  escape_string = λ text. text;
}

abbrev host : Host
host = record {
  passwords = λ password. permission_none;
  strerror_erange = codes "Numerical result out of range";
  strftime = λ time. [];
}

abbrev server : Server (List Bytes)
server = record {
  database = [];
  permission = permission_update;
  output = [];
  current_command = none;
}

remove_tag-tags_column_example :
    remove_tag split (tags_column (codes "jazz" ∷ codes "loud" ∷ codes "jazz" ∷ [])) (codes "jazz")
    ≡ tags_column (without (codes "jazz") (codes "jazz" ∷ codes "loud" ∷ codes "jazz" ∷ []))
unfolding validate_tag
remove_tag-tags_column_example =
    remove_tag-tags_column split (codes "jazz") (codes "jazz" ∷ codes "loud" ∷ codes "jazz" ∷ [])
      (refl, (refl, (refl, tt)))

request-change_database_example :
    ((request
        (server_peer ascii line_reader sqlite split host)
        (add_tag on_album (codes "name = \"x\"") (codes "loud"))
        (pos 0)
        server).0
      ≡ reported
          (change_database sqlite split host
            (add_tag on_album (codes "name = \"x\"") (codes "loud"))
            []).0)
    × ((request
          (server_peer ascii line_reader sqlite split host)
          (add_tag on_album (codes "name = \"x\"") (codes "loud"))
          (pos 0)
          server).1.database
        ≡ (change_database sqlite split host
            (add_tag on_album (codes "name = \"x\"") (codes "loud"))
            []).1)
unfolding change_database db_add_album_tag_expr sql_update_entry
request-change_database_example =
    request-change_database ascii line_reader sqlite split host
      (add_tag on_album (codes "name = \"x\"") (codes "loud")) (pos 0) server tt refl (ground arith)
      (omega arith)

-- A client that may only select, with a password that is not known.
abbrev reading : Server (List Bytes)
reading = record server { permission = permission_select }

abbrev attempts : List Bytes
attempts =
    codes "password \"x\""
    ∷ codes "list \"1\""
    ∷ codes "kill \"1\""
    ∷ codes "rmtag \"1\" \"x\""
    ∷ []

-- A database whose selects are counted besides.
abbrev counting : Sqlite (List Bytes × ℕ)
counting = record {
  update = λ text d. (done, (text ∷ d.0, d.1));
  changes = λ d. 2;
  select = λ text d. (rows [], (d.0, suc d.1));
  maintain = λ m d. d;
  errmsg = λ d. codes "not an error";
  escape_string = λ text. text;
}

abbrev limited : Server (List Bytes × ℕ)
limited = record {
  database = (codes "insert" ∷ [], 0);
  permission = permission_select;
  output = [];
  current_command = none;
}

event_read_line-IsUntouched_example :
    IsUntouched
      (λ d. d.0)
      (codes "insert" ∷ [])
      (event_read_line ascii line_reader counting split host attempts limited)
event_read_line-IsUntouched_example =
    event_read_line-IsUntouched ascii line_reader (λ d. d.0) counting split host
      (λ columns tbl expr d. refl) (λ password. refl) attempts limited refl

abbrev jazz_row : Row
jazz_row = record {
  column_int = λ n. pos 1;
  column_int64 = λ n. pos 1;
  column_text = λ n. some (codes ":jazz:");
}

-- One album, and updates of its tags that are read as SQL reads them.
abbrev albums : Sqlite Unit
albums = record {
  update =
      λ text d. (elim (literal (drop 25 text)) [ none ↦ prepare_failed | some found ↦ done ], d);
  changes = λ d. 1;
  select = λ text d. (rows (jazz_row ∷ []), d);
  maintain = λ m d. d;
  errmsg = λ d. codes "unrecognized token";
  escape_string = quote;
}

album_update :
    (rest : Bytes) (d : Unit)
    → literal rest ≡ none
    → (albums.update (codes "update album set tags = " ++ (39 ∷ rest)) d).0 ≡ prepare_failed
album_update rest d h =
    ap (λ o. elim o as (λ x. Ran) [ none ↦ prepare_failed | some found ↦ done ]) h

db_remove_album_tag_expr-fails_example :
    (message : Bytes) × ((db_remove_album_tag_expr albums split
        (codes "id = 1")
        (codes "jazz")
        tt).0
      ≡ error ack_error_database_prepare message)
unfolding validate_tag
db_remove_album_tag_expr-fails_example =
    db_remove_album_tag_expr-fails albums split (λ text. refl) album_update (codes "id = 1")
      (codes "jazz") tt tt jazz_row [] refl refl

-- Two artists of a database, and the rows of them that listinfo selects.
abbrev nina : Stored
nina = record {
  id = pos 3;
  play_count = pos 7;
  name = some (codes "Nina: live");
  artist = none;
  love = pos 4;
  kill = pos 1;
  rating = pos 5;
}

abbrev miles : Stored
miles = record nina { id = pos 5; name = some (codes "Miles") }

abbrev nth : List ℤ → ℕ → ℤ
nth [] n = pos 0
nth (x ∷ xs) zero = x
nth (x ∷ xs) (suc n) = nth xs n

abbrev info_row : Stored → Row
info_row x = record {
  column_int = nth (x.id ∷ x.play_count ∷ pos 0 ∷ x.love ∷ x.kill ∷ x.rating ∷ []);
  column_int64 = λ n. pos 0;
  column_text = λ n. x.name;
}

abbrev artists : Sqlite (List Bytes)
artists = record sqlite {
  select = λ text d. (rows (info_row nina ∷ info_row miles ∷ []), text ∷ d);
}

abbrev info_asked : Received (List Entity) × Server (List Bytes)
info_asked =
    listed (server_peer ascii line_reader artists split host) info_artists (codes "1") reading

listed-rows_example :
    (info_asked.0
      ≡ received (client_view info_artists nina ∷ client_view info_artists miles ∷ []) [])
    × (info_asked.1.database ≡ selection info_artists (codes "1") ∷ [])
listed-rows_example =
    listed-rows ascii line_reader artists split host info_artists (codes "1") reading
      (nina ∷ miles ∷ []) (info_row nina ∷ info_row miles ∷ [])
      (selection info_artists (codes "1") ∷ []) refl (ground arith) refl
      (
        (refl, (refl, (refl, (refl, (refl, (refl, tt)))))),
        ((refl, (refl, (refl, (refl, (refl, (refl, tt)))))), tt),
      )
      (ground arith)

-- Two connections, of which the first ends.
abbrev events : List (Event ℕ)
events = incoming 10 ∷ incoming 11 ∷ line_read 1 (some permission_none) ∷ line_read 0 none ∷ []

handle_all-replaces_example :
    IsSound 3 (handle_all 3 permission_none (events ++ (incoming 12 ∷ [])) [])
    × ((length (handle_all 3 permission_none (events ++ (incoming 12 ∷ [])) [])
          ≡ length (handle_all 3 permission_none events []))
        × (lookup
              (length (handle_all 3 permission_none events []))
              (handle_all 3 permission_none (events ++ (incoming 12 ∷ [])) [])
            ≡ some (record { perm = permission_none; stream = 12 })))
unfolding handle_all handle lookup
handle_all-replaces_example =
    handle_all-replaces 3 permission_none events 12 (record { perm = permission_none; stream = 11 })
      (omega arith) refl
