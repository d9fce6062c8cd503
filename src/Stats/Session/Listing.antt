-- ===== src/Stats/Session/Listing.antt =====
-- Lists of artists, albums and genres: what the client reads of the lines that the server writes.
use mpdcron.Prelude.{
  ◌≡◌, refl, ap, ◌∙◌, Bytes, codes, decimal_ℤ, Option, some, List, [], ◌∷◌, ◌++◌, map, All,
}
use mathlib.Core.Path.{ap₂}
use mathlib.Core.List.{append_assoc}
use mpdcron.Prelude.Int.{ℤ}
use mpdcron.Prelude.Number.{atoi, atoi-decimal_ℤ, IsInt}
use mpdcron.Stats.Database.Select.{GenericData}
use mpdcron.Stats.Server.Lists.{
  shown, put_number, put_text, artist_lines, album_lines, genre_lines, info_lines,
}
use mpdcron.Stats.Client.{
  Entity, new_entity, received, prepend, parse_values, mpdcron_parser_feed, album_field,
  artist_field, genre_field,
}

-- What a client is to know of an artist or a genre, and of an album.
abbrev pub plain_entity : GenericData → Entity
plain_entity x = record (new_entity x.id) { name = some (shown x.name) }

abbrev pub album_entity : GenericData → Entity
album_entity x = record (plain_entity x) { artist = some (shown x.artist) }

-- The counts that listinfo shows besides.
abbrev pub informed_entity : GenericData → Entity → Entity
informed_entity x e = record e {
  play_count = x.play_count;
  love = x.love;
  kill = x.kill;
  rating = x.rating;
}

abbrev pub HasInts : GenericData → Type 0
HasInts x = IsInt x.id × (IsInt x.play_count × (IsInt x.love × (IsInt x.kill × IsInt x.rating)))

-- The lines of a value are read as an entity.
abbrev pub Reads : (Bytes → Option (Bytes → Entity → Entity)) → List Bytes → Entity → Type 0
Reads field lines e =
    (current : Option Entity) (values : List Entity) (rest : List Bytes)
    → parse_values new_entity field current values (lines ++ rest)
      ≡ parse_values new_entity field (some e) (prepend current values) rest

artist_lines-Reads :
    (x : GenericData) → HasInts x → Reads artist_field (artist_lines x) (plain_entity x)
unfolding parse_values artist_field artist_lines put_number put_text mpdcron_parser_feed
artist_lines-Reads x h current values rest =
    ap
      (λ (n : ℤ).
        parse_values new_entity artist_field
          (some (record (new_entity n) { name = some (shown x.name) })) (prepend current values)
          rest)
      (atoi-decimal_ℤ x.id h.0)

album_lines-Reads :
    (x : GenericData) → HasInts x → Reads album_field (album_lines x) (album_entity x)
unfolding parse_values album_field album_lines put_number put_text mpdcron_parser_feed
album_lines-Reads x h current values rest =
    ap
      (λ (n : ℤ).
        parse_values new_entity album_field
          (some
            (record (new_entity n) { name = some (shown x.name); artist = some (shown x.artist) }))
          (prepend current values) rest)
      (atoi-decimal_ℤ x.id h.0)

genre_lines-Reads :
    (x : GenericData) → HasInts x → Reads genre_field (genre_lines x) (plain_entity x)
unfolding parse_values genre_field genre_lines put_number put_text mpdcron_parser_feed
genre_lines-Reads x h current values rest =
    ap
      (λ (n : ℤ).
        parse_values new_entity genre_field
          (some (record (new_entity n) { name = some (shown x.name) })) (prepend current values)
          rest)
      (atoi-decimal_ℤ x.id h.0)

-- The lines of the counts are read into the entity at hand.
abbrev Informs : (Bytes → Option (Bytes → Entity → Entity)) → GenericData → Type 0
Informs field x =
    (e : Entity) (values : List Entity) (rest : List Bytes)
    → parse_values new_entity field (some e) values (info_lines x ++ rest)
      ≡ parse_values new_entity field (some (informed_entity x e)) values rest

artist-Informs : (x : GenericData) → HasInts x → Informs artist_field x
unfolding parse_values artist_field info_lines put_number mpdcron_parser_feed
artist-Informs x h e values rest =
    ap₂
      (λ (n m : ℤ).
        parse_values new_entity artist_field
          (some (record e {
            play_count = n;
            love = m;
            kill = atoi (decimal_ℤ x.kill);
            rating = atoi (decimal_ℤ x.rating);
          }))
          values rest)
      (atoi-decimal_ℤ x.play_count h.1.0) (atoi-decimal_ℤ x.love h.1.1.0)
    ∙ ap₂
        (λ (n m : ℤ).
          parse_values new_entity artist_field
            (some (record e { play_count = x.play_count; love = x.love; kill = n; rating = m }))
            values rest)
        (atoi-decimal_ℤ x.kill h.1.1.1.0) (atoi-decimal_ℤ x.rating h.1.1.1.1)

album-Informs : (x : GenericData) → HasInts x → Informs album_field x
unfolding parse_values album_field info_lines put_number mpdcron_parser_feed
album-Informs x h e values rest =
    ap₂
      (λ (n m : ℤ).
        parse_values new_entity album_field
          (some (record e {
            play_count = n;
            love = m;
            kill = atoi (decimal_ℤ x.kill);
            rating = atoi (decimal_ℤ x.rating);
          }))
          values rest)
      (atoi-decimal_ℤ x.play_count h.1.0) (atoi-decimal_ℤ x.love h.1.1.0)
    ∙ ap₂
        (λ (n m : ℤ).
          parse_values new_entity album_field
            (some (record e { play_count = x.play_count; love = x.love; kill = n; rating = m }))
            values rest)
        (atoi-decimal_ℤ x.kill h.1.1.1.0) (atoi-decimal_ℤ x.rating h.1.1.1.1)

genre-Informs : (x : GenericData) → HasInts x → Informs genre_field x
unfolding parse_values genre_field info_lines put_number mpdcron_parser_feed
genre-Informs x h e values rest =
    ap₂
      (λ (n m : ℤ).
        parse_values new_entity genre_field
          (some (record e {
            play_count = n;
            love = m;
            kill = atoi (decimal_ℤ x.kill);
            rating = atoi (decimal_ℤ x.rating);
          }))
          values rest)
      (atoi-decimal_ℤ x.play_count h.1.0) (atoi-decimal_ℤ x.love h.1.1.0)
    ∙ ap₂
        (λ (n m : ℤ).
          parse_values new_entity genre_field
            (some (record e { play_count = x.play_count; love = x.love; kill = n; rating = m }))
            values rest)
        (atoi-decimal_ℤ x.kill h.1.1.1.0) (atoi-decimal_ℤ x.rating h.1.1.1.1)

-- Both, one behind the other.
info-Reads :
    (field : Bytes → Option (Bytes → Entity → Entity)) (lines : List Bytes) (x : GenericData)
    (e : Entity)
    → Reads field lines e
    → Informs field x
    → Reads field (lines ++ info_lines x) (informed_entity x e)
info-Reads field lines x e reads informs current values rest =
    ap (parse_values new_entity field current values) (append_assoc lines (info_lines x) rest)
    ∙ reads current values (info_lines x ++ rest)
    ∙ informs e (prepend current values) rest

-- The lists that can be asked for.
pub data Listing : Type 0 where
  list_artists list_albums list_genres info_artists info_albums info_genres : Listing

abbrev pub field_of : Listing → Bytes → Option (Bytes → Entity → Entity)
field_of list_artists = artist_field
field_of list_albums = album_field
field_of list_genres = genre_field
field_of info_artists = artist_field
field_of info_albums = album_field
field_of info_genres = genre_field

abbrev pub lines_of : Listing → GenericData → List Bytes
lines_of list_artists x = artist_lines x
lines_of list_albums x = album_lines x
lines_of list_genres x = genre_lines x
lines_of info_artists x = artist_lines x ++ info_lines x
lines_of info_albums x = album_lines x ++ info_lines x
lines_of info_genres x = genre_lines x ++ info_lines x

abbrev pub entity_of : Listing → GenericData → Entity
entity_of list_artists x = plain_entity x
entity_of list_albums x = album_entity x
entity_of list_genres x = plain_entity x
entity_of info_artists x = informed_entity x (plain_entity x)
entity_of info_albums x = informed_entity x (album_entity x)
entity_of info_genres x = informed_entity x (plain_entity x)

lines_of-Reads :
    (l : Listing) (x : GenericData) → HasInts x → Reads (field_of l) (lines_of l x) (entity_of l x)
lines_of-Reads list_artists x h = artist_lines-Reads x h
lines_of-Reads list_albums x h = album_lines-Reads x h
lines_of-Reads list_genres x h = genre_lines-Reads x h
lines_of-Reads info_artists x h =
    info-Reads artist_field (artist_lines x) x (plain_entity x) (artist_lines-Reads x h)
      (artist-Informs x h)
lines_of-Reads info_albums x h =
    info-Reads album_field (album_lines x) x (album_entity x) (album_lines-Reads x h)
      (album-Informs x h)
lines_of-Reads info_genres x h =
    info-Reads genre_field (genre_lines x) x (plain_entity x) (genre_lines-Reads x h)
      (genre-Informs x h)

abbrev pub all_lines : Listing → List GenericData → List Bytes
all_lines l [] = codes "OK" ∷ []
all_lines l (x ∷ xs) = lines_of l x ++ all_lines l xs

-- The values that were read are put in front of each other.
abbrev pub onto : List Entity → List Entity → List Entity
onto [] values = values
onto (e ∷ es) values = onto es (e ∷ values)

pub parse_values-all_lines :
    (l : Listing) (xs : List GenericData) (current : Option Entity) (values : List Entity)
    → All HasInts xs
    → parse_values new_entity (field_of l) current values (all_lines l xs)
      ≡ received (onto (map (entity_of l) xs) (prepend current values)) []
parse_values-all_lines l [] current values h = unfold parse_values mpdcron_parser_feed in refl
parse_values-all_lines l (x ∷ xs) current values h =
    lines_of-Reads l x h.0 current values (all_lines l xs)
    ∙ parse_values-all_lines l xs (some (entity_of l x)) (prepend current values) h.1
