-- ===== src/Stats/Client/Replies.antt =====
-- The client reads what the server writes.
use Prim.Native.Nat.{◌^◌}
use mpdcron.Prelude.{
  ℕ, ◌<◌, ◌≡◌, ◌≢◌, refl, ap, ◌∙◌, Bytes, codes, decimal, decimal_ℤ, some, List, [], ◌∷◌, ◌++◌, All,
  arith,
}
use mpdcron.Prelude.Int.{ℤ, pos}
use mpdcron.Prelude.Number.{atoi-decimal_ℤ, strtol-decimal-append, to_int-IsInt}
use mpdcron.Stats.Server.{ack_text}
use mpdcron.Stats.Client.{
  parser_pair, parser_success, parser_error, mpdcron_parser_feed, split_at_char, feed_error,
  after_char, feed_code, feed_message, message_of, skip_command, skip_blanks, received,
  connection_error, mpdcron_parse_changes,
}

-- A character is not in the text.
abbrev pub IsFree : ℕ → Bytes → Type 0
IsFree d = All λ c. c ≢ d

pub IsFree-append : (d : ℕ) (s t : Bytes) → IsFree d s → IsFree d t → IsFree d (s ++ t)
IsFree-append d [] t h k = k
IsFree-append d (c ∷ s) t h k = (h.0, IsFree-append d s t h.1 k)

split_at_char-append :
    (d : ℕ) (before after : Bytes)
    → IsFree d before
    → split_at_char d (before ++ (d ∷ after)) ≡ some (before, after)
unfolding split_at_char
split_at_char-append d [] after h = ground arith
split_at_char-append d (c ∷ before) after h =
    ground (arith, split_at_char-append d before after h.1)

-- A message that the client gives back as it was: it does not begin with a blank.
abbrev pub IsMessage : Bytes → Type 0
IsMessage [] = ⊥
IsMessage (c ∷ s) = c ≢ 32

feed-changes :
    (value : Bytes)
    → mpdcron_parser_feed (codes "changes: " ++ value) ≡ parser_pair (codes "changes") value
unfolding mpdcron_parser_feed
feed-changes value = refl

feed-ok : mpdcron_parser_feed (codes "OK") ≡ parser_success
unfolding mpdcron_parser_feed
feed-ok = refl

pub mpdcron_parse_changes-ok :
    (changes : ℤ) (n : ℕ) (rest : List Bytes)
    → n < 2 ^ 31
    → mpdcron_parse_changes changes ((codes "changes: " ++ decimal n) ∷ codes "OK" ∷ rest)
      ≡ received (pos n) rest
unfolding mpdcron_parse_changes decimal_ℤ
mpdcron_parse_changes-ok changes n rest h =
    ap (λ (z : ℤ). received z rest) (atoi-decimal_ℤ (pos n) h)

skip_blanks-message : (message : Bytes) → IsMessage message → skip_blanks message ≡ message
unfolding skip_blanks
skip_blanks-message [] h = refl
skip_blanks-message (c ∷ s) h = ground (arith)

skip_blanks-blank : (message : Bytes) → skip_blanks (32 ∷ message) ≡ skip_blanks message
unfolding skip_blanks
skip_blanks-blank message = refl

after_char-append :
    (d : ℕ) (before after : Bytes) → IsFree d before → after_char d (before ++ (d ∷ after)) ≡ after
unfolding after_char
after_char-append d before after h = rw (split_at_char-append d before after h, after_char) refl

skip_command-message :
    (command message : Bytes)
    → IsFree b'}' command
    → skip_command (32 ∷ (123 ∷ (command ++ (b'}' ∷ message)))) ≡ message
unfolding skip_command split_at_char
skip_command-message command message h =
    after_char-append b'}' (32 ∷ (123 ∷ command)) message
      ((λ e. absurd (omega (arith, e))), ((λ e. absurd (omega (arith, e))), h))

message_of-message : (message : Bytes) → IsMessage message → message_of message ≡ some message
unfolding message_of
message_of-message [] h = absurd h
message_of-message (c ∷ s) h = refl

feed_message-ack :
    (code : ℕ) (command message : Bytes)
    → code < 2 ^ 31
    → IsFree b'}' command
    → IsMessage message
    → feed_message (pos code) (some ([], 32 ∷ (123 ∷ (command ++ (b'}' ∷ (32 ∷ message))))))
      ≡ parser_error (pos code) (some message)
unfolding feed_message
feed_message-ack code command message h free shown =
    rw
      (
        skip_command-message command (32 ∷ message) free,
        skip_blanks-blank message,
        skip_blanks-message message shown,
        message_of-message message shown,
      )
      (ap (λ (z : ℤ). parser_error z (some message)) (to_int-IsInt (pos code) h))

feed_error-ack :
    (code : ℕ) (command message : Bytes)
    → code < 2 ^ 31
    → IsFree b'}' command
    → IsMessage message
    → feed_error (decimal code ++ (93 ∷ (32 ∷ (123 ∷ (command ++ (b'}' ∷ (32 ∷ message)))))))
      ≡ parser_error (pos code) (some message)
unfolding feed_error feed_code split_at_char
feed_error-ack code command message h free shown =
    ap feed_code
      (strtol-decimal-append code (93 ∷ (32 ∷ (123 ∷ (command ++ (b'}' ∷ (32 ∷ message)))))) h refl)
    ∙ feed_message-ack code command message h free shown

pub feed-ack_text :
    (code : ℕ) (command message : Bytes)
    → code < 2 ^ 31
    → IsFree b'}' command
    → IsMessage message
    → mpdcron_parser_feed (ack_text code command message) ≡ parser_error (pos code) (some message)
unfolding mpdcron_parser_feed ack_text
feed-ack_text = feed_error-ack

pub mpdcron_parse_changes-ack :
    (changes : ℤ) (code : ℕ) (command message : Bytes) (rest : List Bytes)
    → code < 2 ^ 31
    → IsFree b'}' command
    → IsMessage message
    → mpdcron_parse_changes changes (ack_text code command message ∷ rest)
      ≡ connection_error (pos code) message
unfolding mpdcron_parse_changes
mpdcron_parse_changes-ack changes code command message rest h free shown =
    rw (feed-ack_text code command message h free shown, mpdcron_parse_changes) refl
