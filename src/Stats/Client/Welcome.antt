-- ===== src/Stats/Client/Welcome.antt =====
-- The first line that the server sends, and what the client reads of it.
use Prim.Native.Nat.{◌^◌}
use mpdcron.Prelude.{
  ℕ, ◌-◌, ◌%◌, Bytes, codes, starts_with, Option, none, some, [], ◌∷◌, drop, ◌==◌, if◌then◌else◌,
}
use mpdcron.Prelude.Int.{ℤ, pos, negsuc}
use mpdcron.Prelude.Number.{strtol}

-- conn->version
pub record Version : Type 0 where
  pub major : ℕ
  pub minor : ℕ
  pub micro : ℕ

abbrev pub welcome_message : Bytes
welcome_message = codes "OK MPDCRON "

-- The conversion of a long to an unsigned.
abbrev to_unsigned : ℤ → ℕ
to_unsigned (pos n) = n % 2 ^ 32
to_unsigned (negsuc n) = 2 ^ 32 - 1 - n % 2 ^ 32

-- Behind a full stop stands another number, and the text behind it; 0 otherwise.
version_part : Bytes → ℕ × Bytes
unfolding strtol
version_part [] = (0, [])
version_part (c ∷ s) =
    let part = strtol s in if c == b'.' then (to_unsigned part.value, part.rest) else (0, [])

-- mpdcron_parse_welcome: `none` is an error, "Malformed connect message received" or "Malformed version
-- number in connect message". The third number is looked for only behind a second one.
unfoldable pub mpdcron_parse_welcome : Bytes → Option Version
unfolding starts_with strtol version_part
mpdcron_parse_welcome output =
    let first = strtol (drop 11 output) in
    let (minor, rest) = version_part first.rest in
    if starts_with output welcome_message
    then (if first.converted
        then some (record {
          major = to_unsigned first.value;
          minor = minor;
          micro = (version_part rest).0;
        })
        else none)
    else none
