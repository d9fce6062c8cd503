-- ===== src/Scrobbler/Request.antt =====
-- The requests that scrobbler-submit.c writes: form variables, the handshake URL, the bodies.
pub mod Batch
use mpdcron.Prelude.{
  ℕ, zero, suc, ◌+◌, Bytes, codes, decimal, decimal_ℤ, Option, none, some, List, [], ◌∷◌, ◌++◌,
}
use mpdcron.Prelude.Int.{ℤ, pos, negsuc}
use mpdcron.Scrobbler.Record.{SongRecord}
use mpdcron.Scrobbler.Types.{Env, Scrobbler}

abbrev pub max_submit_count : ℕ
max_submit_count = 10

abbrev pub client_id : Bytes
client_id = codes "mcn"

unfoldable pub index_text : ℤ → Bytes
index_text (pos i) = b'[' ∷ (decimal i ++ (b']' ∷ []))
index_text (negsuc i) = []

unfoldable pub value_text : Env → Option Bytes → Bytes
value_text env none = []
value_text env (some val) = env.escape val

unfoldable pub add_var_internal : Env → Bytes → ℕ → Bytes → ℤ → Option Bytes → Bytes
unfolding index_text value_text
add_var_internal env s sep key idx val =
    s ++ (sep ∷ (key ++ (index_text idx ++ (b'=' ∷ value_text env val))))

abbrev pub first_var : Env → Bytes → Bytes → Option Bytes → Bytes
first_var env s key val = add_var_internal env s b'?' key (negsuc 0) val

abbrev pub add_var : Env → Bytes → Bytes → Option Bytes → Bytes
add_var env s key val = add_var_internal env s b'&' key (negsuc 0) val

abbrev pub add_var_i : Env → Bytes → Bytes → ℕ → Option Bytes → Bytes
add_var_i env s key idx val = add_var_internal env s b'&' key (pos idx) val

-- as_timestamp
abbrev pub as_timestamp : Env → Bytes
as_timestamp env = decimal env.now

-- as_md5
abbrev pub as_md5 : Env → Bytes → Bytes → Bytes
as_md5 env password timestamp = env.md5 (password ++ timestamp)

unfoldable pub handshake_url : Env → Scrobbler → Bytes
handshake_url env s =
    let timestr = as_timestamp env in
    let md5 = as_md5 env s.config.password timestr in
    let url = first_var env s.config.url (codes "hs") (some (codes "true")) in
    let url = add_var env url (codes "p") (some (codes "1.2")) in
    let url = add_var env url (codes "c") (some client_id) in
    let url = add_var env url (codes "v") (some env.version) in
    let url = add_var env url (codes "u") (some s.config.username) in
    let url = add_var env url (codes "t") (some timestr) in add_var env url (codes "a") (some md5)

unfoldable pub now_playing_body : Env → Scrobbler → SongRecord → Bytes
now_playing_body env s song =
    let body = add_var env [] (codes "s") s.session in
    let body = add_var env body (codes "a") song.artist in
    let body = add_var env body (codes "t") song.track in
    let body = add_var env body (codes "b") song.album in
    let body = add_var env body (codes "l") (some (decimal_ℤ song.length)) in
    let body = add_var env body (codes "n") song.number in add_var env body (codes "m") song.mbid

-- One round of the loop of scrobbler_submit.
unfoldable pub add_song : Env → Bytes → ℕ → SongRecord → Bytes
add_song env body count song =
    let body = add_var_i env body (codes "a") count song.artist in
    let body = add_var_i env body (codes "t") count song.track in
    let body = add_var_i env body (codes "l") count (some (decimal_ℤ song.length)) in
    let body = add_var_i env body (codes "i") count song.time in
    let body = add_var_i env body (codes "o") count song.source in
    let body = add_var_i env body (codes "r") count (some []) in
    let body = add_var_i env body (codes "b") count song.album in
    let body = add_var_i env body (codes "n") count song.number in
    add_var_i env body (codes "m") count song.mbid

-- The loop of scrobbler_submit: `room` is MAX_SUBMIT_COUNT - count. The body, and the final count.
unfoldable pub add_songs : Env → ℕ → ℕ → Bytes → List SongRecord → Bytes × ℕ
add_songs env zero count body songs = (body, count)
add_songs env (suc room) count body [] = (body, count)
add_songs env (suc room) count body (song ∷ songs) =
    add_songs env room (count + 1) (add_song env body count song) songs
