-- ===== src/Stats/Session/Lists.antt =====
-- A client that lists artists, albums or genres gets what the database has.
use mpdcron.Prelude.{
  ◌≡◌, refl, ap, sym, ◌∙◌, Bytes, codes, decimal_ℤ, Option, List, [], ◌∷◌, ◌++◌, All, map, arith,
  ◌+◌,
}
use mathlib.Core.List.{append_assoc}
use mpdcron.Prelude.Int.{ℤ, pos, negsuc}
use mpdcron.Stats.Database.{Row}
use mpdcron.Stats.Database.Select.{GenericData, named, named_album, informed, informed_album}
use mpdcron.Stats.Server.Lists.{
  shown, put_number, put_text, artist_lines, album_lines, genre_lines, info_lines,
}
use mpdcron.Stats.Client.{LineReader, Entity, Received}
use mpdcron.Stats.Client.Calls.{
  Peer, mpdcron_list_artist_expr, mpdcron_list_album_expr, mpdcron_list_genre_expr,
  mpdcron_listinfo_artist_expr, mpdcron_listinfo_album_expr, mpdcron_listinfo_genre_expr,
}
use mpdcron.Stats.Client.Replies.{IsFree-append}
use mpdcron.Stats.Session.Exchange.{IsLine, decimal-IsLine}
use mpdcron.Stats.Session.Listing.{
  HasInts, Listing, list_artists, list_albums, list_genres, info_artists, info_albums, info_genres,
  lines_of, all_lines, entity_of,
}
use mpdcron.Stats.Session.Rows.{Stored, HasColumns, columns_of, AreRows, IsListable, client_view}

-- The function of the client for a list.
unfoldable pub listed : {S : Type 0} → Peer S → Listing → Bytes → S → Received (List Entity) × S
unfolding mpdcron_list_artist_expr mpdcron_list_album_expr mpdcron_list_genre_expr
    mpdcron_listinfo_artist_expr mpdcron_listinfo_album_expr mpdcron_listinfo_genre_expr
listed peer list_artists = mpdcron_list_artist_expr peer
listed peer list_albums = mpdcron_list_album_expr peer
listed peer list_genres = mpdcron_list_genre_expr peer
listed peer info_artists = mpdcron_listinfo_artist_expr peer
listed peer info_albums = mpdcron_listinfo_album_expr peer
listed peer info_genres = mpdcron_listinfo_genre_expr peer

-- The value of a row in the server.
abbrev pub value_of : Listing → Row → GenericData
value_of list_artists = named
value_of list_albums = named_album
value_of list_genres = named
value_of info_artists = informed
value_of info_albums = informed_album
value_of info_genres = informed

-- What can be sent: ints, and texts of one line.
abbrev pub IsShowable : GenericData → Type 0
IsShowable x = IsLine (shown x.name) × (IsLine (shown x.artist) × HasInts x)

unfoldable pub flat : List Bytes → Bytes
flat [] = []
flat (line ∷ lines) = line ++ (b'\n' ∷ flat lines)

pub lines-flat : (r : LineReader) (ls : List Bytes) → All IsLine ls → r.lines (flat ls) ≡ ls
unfolding flat
lines-flat r [] h = r.lines_nil
lines-flat r (line ∷ lines) h =
    r.lines_newline line (flat lines) h.0
    ∙ ap (λ (ls : List Bytes). line ∷ ls) (lines-flat r lines h.1)

pub flat-append : (ks ls : List Bytes) → flat (ks ++ ls) ≡ flat ks ++ flat ls
unfolding flat
flat-append [] ls = refl
flat-append (k ∷ ks) ls =
    ap (λ (s : Bytes). k ++ (b'\n' ∷ s)) (flat-append ks ls)
    ∙ sym (append_assoc k (b'\n' ∷ flat ks) (flat ls))

All-append : {A : Type 0} (P : A → Type 0) (xs ys : List A) → All P xs → All P ys → All P (xs ++ ys)
All-append P [] ys h k = k
All-append P (x ∷ xs) ys h k = (h.0, All-append P xs ys h.1 k)

decimal_ℤ-IsLine : (z : ℤ) → IsLine (decimal_ℤ z)
unfolding decimal_ℤ
decimal_ℤ-IsLine (pos n) = decimal-IsLine n
decimal_ℤ-IsLine (negsuc n) = ((λ e. absurd (omega (arith, e))), decimal-IsLine (n + 1))

put_number-IsLine : (name : Bytes) (z : ℤ) → IsLine name → IsLine (put_number name z)
unfolding put_number
put_number-IsLine name z h =
    IsFree-append b'\n' name (codes ": " ++ decimal_ℤ z) h
      (IsFree-append b'\n' (codes ": ") (decimal_ℤ z) (ground arith) (decimal_ℤ-IsLine z))

put_text-IsLine :
    (name : Bytes) (text : Option Bytes)
    → IsLine name
    → IsLine (shown text)
    → IsLine (put_text name text)
unfolding put_text
put_text-IsLine name text h k =
    IsFree-append b'\n' name (codes ": " ++ shown text) h
      (IsFree-append b'\n' (codes ": ") (shown text) (ground arith) k)

info_lines-IsLine : (x : GenericData) → All IsLine (info_lines x)
unfolding info_lines
info_lines-IsLine x = (
  put_number-IsLine (codes "Play Count") x.play_count (ground arith),
  (
    put_number-IsLine (codes "Love") x.love (ground arith),
    (
      put_number-IsLine (codes "Kill") x.kill (ground arith),
      (put_number-IsLine (codes "Rating") x.rating (ground arith), tt),
    ),
  ),
)

named_lines-IsLine :
    (kind : Bytes) (x : GenericData)
    → IsLine kind
    → IsShowable x
    → All IsLine (put_number (codes "id") x.id ∷ put_text kind x.name ∷ [])
named_lines-IsLine kind x k h =
    (put_number-IsLine (codes "id") x.id (ground arith), (put_text-IsLine kind x.name k h.0, tt))

album_lines-IsLine : (x : GenericData) → IsShowable x → All IsLine (album_lines x)
unfolding album_lines
album_lines-IsLine x h = (
  put_number-IsLine (codes "id") x.id (ground arith),
  (
    put_text-IsLine (codes "Album") x.name (ground arith) h.0,
    (put_text-IsLine (codes "Artist") x.artist (ground arith) h.1.0, tt),
  ),
)

lines_of-IsLine : (l : Listing) (x : GenericData) → IsShowable x → All IsLine (lines_of l x)
unfolding artist_lines genre_lines
lines_of-IsLine list_artists x h = named_lines-IsLine (codes "Artist") x (ground arith) h
lines_of-IsLine list_albums x h = album_lines-IsLine x h
lines_of-IsLine list_genres x h = named_lines-IsLine (codes "Genre") x (ground arith) h
lines_of-IsLine info_artists x h =
    All-append IsLine (artist_lines x) (info_lines x)
      (named_lines-IsLine (codes "Artist") x (ground arith) h) (info_lines-IsLine x)
lines_of-IsLine info_albums x h =
    All-append IsLine (album_lines x) (info_lines x) (album_lines-IsLine x h) (info_lines-IsLine x)
lines_of-IsLine info_genres x h =
    All-append IsLine (genre_lines x) (info_lines x)
      (named_lines-IsLine (codes "Genre") x (ground arith) h) (info_lines-IsLine x)

pub all_lines-IsLine :
    (l : Listing) (xs : List GenericData) → All IsShowable xs → All IsLine (all_lines l xs)
all_lines-IsLine l [] h = (ground arith, tt)
all_lines-IsLine l (x ∷ xs) h =
    All-append IsLine (lines_of l x) (all_lines l xs) (lines_of-IsLine l x h.0)
      (all_lines-IsLine l xs h.1)

-- The server finds each value in the column that was selected under its name.
row-Shows :
    (l : Listing) (x : Stored) (row : Row)
    → HasColumns (columns_of l) 0 x row
    → IsListable x
    → IsShowable (value_of l row) × (entity_of l (value_of l row) ≡ client_view l x)
row-Shows list_artists x row h k =
    rw (h.0, h.1.0) (((k.0, (ground arith, (k.1.1.0, ground arith)))), refl)
row-Shows list_albums x row h k =
    rw (h.0, h.1.0, h.1.1.0) (((k.0, (k.1.0, (k.1.1.0, ground arith)))), refl)
row-Shows list_genres x row h k =
    rw (h.0, h.1.0) (((k.0, (ground arith, (k.1.1.0, ground arith)))), refl)
row-Shows info_artists x row h k =
    rw (h.0, h.1.0, h.1.1.0, h.1.1.1.0, h.1.1.1.1.0, h.1.1.1.1.1.0)
      ((k.0, (ground arith, k.1.1)), refl)
row-Shows info_albums x row h k =
    rw (h.0, h.1.0, h.1.1.0, h.1.1.1.0, h.1.1.1.1.0, h.1.1.1.1.1.0, h.1.1.1.1.1.1.0)
      ((k.0, (k.1.0, k.1.1)), refl)
row-Shows info_genres x row h k =
    rw (h.0, h.1.0, h.1.1.0, h.1.1.1.0, h.1.1.1.1.0, h.1.1.1.1.1.0)
      ((k.0, (ground arith, k.1.1)), refl)

pub rows-Show :
    (l : Listing) (xs : List Stored) (rs : List Row)
    → AreRows l xs rs
    → All IsListable xs
    → All (λ row. IsShowable (value_of l row)) rs
      × (map (λ row. entity_of l (value_of l row)) rs ≡ map (client_view l) xs)
rows-Show l [] [] h k = (tt, refl)
rows-Show l [] (row ∷ rs) h k = absurd h
rows-Show l (x ∷ xs) [] h k = absurd h
rows-Show l (x ∷ xs) (row ∷ rs) h k =
    let (showable, same) = row-Shows l x row h.0 k.0 in
    let (all_showable, all_same) = rows-Show l xs rs h.1 k.1 in
    ((showable, all_showable), rw (same, all_same) refl)
