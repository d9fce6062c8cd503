-- ===== src/Stats/Tests.antt =====
-- The protocol of the statistics server on concrete lines.
use mpdcron.Prelude.{
  ℕ, ◌<◌, ◌≤◌, ◌≡◌, refl, Bytes, codes, Bool, true, ◌&&◌, ◌||◌, some, List, [], ◌∷◌, ◌++◌, leb,
  arith,
}
use mpdcron.Prelude.Ascii.{is_space, space_le, chug, chug_nil, chug_cons}
use mpdcron.Stats.Tokenizer.{Ascii}
use mpdcron.Stats.Protocol.{send_commandv, quote}
use mpdcron.Stats.Protocol.Quote.{literal, literal-quote}
use mpdcron.Stats.Command.{permission_update}
use mpdcron.Stats.Command.Table.{commands, command_lookup}
use mpdcron.Stats.Command.Lookup.{Settles, command_lookup-Settles}
use mpdcron.Stats.Command.Process.{command_process, dispatch}
use mpdcron.Stats.Command.RoundTrip.{command_process-send_commandv}

abbrev is_alpha : ℕ → Bool
is_alpha c = (leb b'a' c && leb c b'z') || (leb b'A' c && leb c b'Z')

abbrev is_alnum : ℕ → Bool
is_alnum c = is_alpha c || (leb b'0' c && leb c b'9')

pub alnum_gt : (c : ℕ) → is_alnum c ≡ true → 32 < c
alnum_gt c h = ground arith

pub alpha_lower : (c : ℕ) → b'a' ≤ c → c ≤ b'z' → is_alpha c ≡ true
alpha_lower c h k = ground arith

pub alnum_lower : (c : ℕ) → b'a' ≤ c → c ≤ b'z' → is_alnum c ≡ true
alnum_lower c h k = ground arith

-- GLib's ASCII functions, as they are documented.
abbrev pub ascii : Ascii
ascii = record {
  isalpha = is_alpha;
  isalnum = is_alnum;
  isspace = is_space;
  strchug = chug;
  space_le = space_le;
  space_is_space = refl;
  alpha_lower = alpha_lower;
  alnum_lower = alnum_lower;
  alnum_gt = alnum_gt;
  strchug_nil = chug_nil;
  strchug_cons = chug_cons;
}

abbrev nasty : List Bytes
nasty = codes "name = \"a\\b\"" ∷ [] ∷ codes "x y" ∷ []

command_process-send_commandv_example :
    command_process ascii true permission_update (send_commandv (codes "rate_genre") nasty)
    ≡ dispatch ascii permission_update (codes "rate_genre") nasty
command_process-send_commandv_example =
    command_process-send_commandv ascii true permission_update (codes "rate_genre") nasty
      (ground arith) (omega arith)

literal-quote_example :
    (text : Bytes) × (quote (codes "it's") ++ codes ")" ≡ 39 ∷ text)
    × (literal text ≡ some (codes "it's", codes ")"))
literal-quote_example = literal-quote (codes "it's") (codes ")") refl

command_lookup-Settles_example : Settles commands (codes "karma") (command_lookup (codes "karma"))
command_lookup-Settles_example = command_lookup-Settles (codes "karma")
