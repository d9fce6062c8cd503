-- ===== src/Scrobbler/Request/Batch.antt =====
-- Which songs one submission carries, and what its body says of each.
use Prim.Native.Nat.{min}
use mathlib.Core.Path.{ap₂}
use mathlib.Core.List.{append-nil, append_assoc}
use mpdcron.Prelude.{
  ℕ, zero, suc, ◌+◌, ◌≡◌, ap, ◌∙◌, Bytes, codes, decimal, decimal_ℤ, Option, none, some, refl, List,
  [], ◌∷◌, ◌++◌, arith, length, take,
}
use mpdcron.Scrobbler.Record.{SongRecord}
use mpdcron.Scrobbler.Types.{Env}
use mpdcron.Scrobbler.Request.{
  add_song, add_songs, add_var_internal, add_var_i, add_var, value_text, index_text,
}

-- The escaped text of a value, and a numbered variable of a form.
abbrev pub escaped : Env → Option Bytes → Bytes
escaped env none = []
escaped env (some text) = env.escape text

unfoldable pub field : Env → Bytes → ℕ → Option Bytes → Bytes
field env name n value =
    codes "&" ++ (name ++ (codes "[" ++ (decimal n ++ (codes "]=" ++ escaped env value))))

-- The variables of one song, as version 1.2 of the protocol names them.
abbrev pub song_fields : Env → ℕ → SongRecord → Bytes
song_fields env n song =
    field env (codes "a") n song.artist
    ++ (field env (codes "t") n song.track
        ++ (field env (codes "l") n (some (decimal_ℤ song.length))
            ++ (field env (codes "i") n song.time
                ++ (field env (codes "o") n song.source
                    ++ (field env (codes "r") n (some [])
                        ++ (field env (codes "b") n song.album
                            ++ (field env (codes "n") n song.number
                                ++ field env (codes "m") n song.mbid)))))))

-- The variables of every song of a list, numbered from `count`.
pub songs_body : Env → ℕ → List SongRecord → Bytes
songs_body env count [] = []
songs_body env count (song ∷ songs) = song_fields env count song ++ songs_body env (count + 1) songs

-- One round of the loop writes the variables of one song behind the body.
value_text-escaped : (env : Env) (value : Option Bytes) → value_text env value ≡ escaped env value
unfolding value_text
value_text-escaped env none = refl
value_text-escaped env (some text) = refl

add_var_i-field :
    (env : Env) (body name : Bytes) (n : ℕ) (value : Option Bytes)
    → add_var_i env body name n value ≡ body ++ field env name n value
unfolding add_var_internal index_text field
add_var_i-field env body name n value =
    rw (value_text-escaped env value, add_var_internal)
      (ap (λ (s : Bytes). body ++ (38 ∷ (name ++ (91 ∷ s))))
        (append_assoc (decimal n) (93 ∷ []) (61 ∷ escaped env value)))

add_song-fields :
    (env : Env) (body : Bytes) (count : ℕ) (song : SongRecord)
    → add_song env body count song ≡ body ++ song_fields env count song
unfolding add_song
add_song-fields env body count song = simp (add_var_i-field, append_assoc)

-- The loop of scrobbler_submit writes the songs of the first ten places, numbered from 0 on.
pub add_songs-take :
    (env : Env) (room count : ℕ) (body : Bytes) (songs : List SongRecord)
    → add_songs env room count body songs
      ≡ (body ++ songs_body env count (take room songs), count + min room (length songs))
unfolding add_songs songs_body
add_songs-take env zero count body songs = simp append-nil (ap (λ (n : ℕ). (body, n)) (omega arith))
add_songs-take env (suc room) count body [] =
    simp append-nil (ap (λ (n : ℕ). (body, n)) (omega arith))
add_songs-take env (suc room) count body (song ∷ songs) =
    add_songs-take env room (count + 1) (add_song env body count song) songs
    ∙ ap₂ (λ (b : Bytes) (n : ℕ). (b, n))
        (rw (add_song-fields env body count song) (
          append_assoc body (song_fields env count song)
            (songs_body env (count + 1) (take room songs))))
        (omega arith)

-- The session in front of them.
pub add_var-session :
    (env : Env) (session : Option Bytes)
    → add_var env [] (codes "s") session ≡ codes "&s=" ++ escaped env session
unfolding add_var_internal index_text
add_var-session env session = ap (λ (s : Bytes). codes "&s=" ++ s) (value_text-escaped env session)
