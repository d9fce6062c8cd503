-- ===== src/Stats/Session/Exchange.antt =====
-- One command and its answer.
use Prim.Native.Nat.{◌^◌}
use mathlib.Core.List.{append_assoc}
use mpdcron.Prelude.{
  ℕ, ◌<◌, ◌≡◌, refl, ap, ◌∙◌, Bytes, codes, decimal, true, Option, none, some, List, [], ◌∷◌, ◌++◌,
  All, length, arith,
}
use mpdcron.Prelude.Int.{ℤ, pos}
use mpdcron.Prelude.Number.{is_digit, decimal-All}
use mpdcron.Stats.Tokenizer.{Ascii}
use mpdcron.Stats.Tokenizer.Quoting.{IsWord}
use mpdcron.Stats.Protocol.{escape, arguments, send_commandv}
use mpdcron.Stats.Command.{Command}
use mpdcron.Stats.Command.Process.{dispatch, invoked}
use mpdcron.Stats.Command.RoundTrip.{command_process-send_commandv}
use mpdcron.Stats.Database.{Result, ok, error, Sqlite}
use mpdcron.Stats.Database.Tags.{Split}
use mpdcron.Stats.Client.{LineReader, Received, received, connection_error, mpdcron_parse_changes}
use mpdcron.Stats.Client.Calls.{exchange, read_reply}
use mpdcron.Stats.Client.Replies.{
  IsFree, IsFree-append, IsMessage, mpdcron_parse_changes-ok, mpdcron_parse_changes-ack,
}
use mpdcron.Stats.Server.{
  Server, served, Return, return_ok, return_error, Host, answer_changes, command_error,
  command_puts, command_ok, ack_text,
}
use mpdcron.Stats.Server.Serve.{call_handler, perform, released, serve_line}
use mpdcron.Stats.Session.{after_line, answer, event_read_line, server_peer}

-- No newline in a text.
abbrev pub IsLine : Bytes → Type 0
IsLine = IsFree b'\n'

escape-IsLine : (s : Bytes) → IsLine s → IsLine (escape s)
unfolding escape
escape-IsLine [] h = tt
escape-IsLine (c ∷ s) h = ground (arith, escape-IsLine s h.1)

arguments-IsLine : (args : List Bytes) → All IsLine args → IsLine (arguments args)
unfolding arguments
arguments-IsLine [] h = tt
arguments-IsLine (arg ∷ args) h = (
  (λ e. absurd (omega (arith, e))),
  (
    (λ e. absurd (omega (arith, e))),
    IsFree-append b'\n' (escape arg) (b'"' ∷ arguments args) (escape-IsLine arg h.0)
        ((λ e. absurd (omega (arith, e))), arguments-IsLine args h.1),
  ),
)

pub send_commandv-IsLine :
    (command : Bytes) (args : List Bytes)
    → IsLine command
    → All IsLine args
    → IsLine (send_commandv command args)
unfolding send_commandv
send_commandv-IsLine command args h k =
    IsFree-append b'\n' command (arguments args) h (arguments-IsLine args k)

digits-IsLine : (s : Bytes) → All (λ c. is_digit c ≡ true) s → IsLine s
digits-IsLine [] h = tt
digits-IsLine (c ∷ s) h = ((λ e. absurd (ground (arith, e, h.0))), digits-IsLine s h.1)

pub decimal-IsLine : (n : ℕ) → IsLine (decimal n)
decimal-IsLine n = digits-IsLine (decimal n) (decimal-All n)

-- A result that the protocol can carry: the count fits into an int, the code as well, and the message
-- is one line that does not begin with a blank.
abbrev pub IsSendable : Result ℕ → Type 0
IsSendable (ok n) = n < 2 ^ 31
IsSendable (error code message) = (code < 2 ^ 31) × (IsMessage message × IsLine message)

-- What the client is to see of a result.
abbrev pub reported : Result ℕ → Received ℤ
reported (ok n) = received (pos n) []
reported (error code message) = connection_error (pos code) message

-- What the server writes of a result, and the lines of it.
written : Bytes → Result ℕ → Bytes
unfolding ack_text
written command (ok n) = ((codes "changes: " ++ decimal n) ++ (b'\n' ∷ [])) ++ codes "OK\n"
written command (error code message) = ack_text code command message ++ (b'\n' ∷ [])

reply : Bytes → Result ℕ → List Bytes
reply command (ok n) = (codes "changes: " ++ decimal n) ∷ codes "OK" ∷ []
reply command (error code message) = ack_text code command message ∷ []

-- The name of a command can stand in an answer.
abbrev pub IsShown : Bytes → Type 0
IsShown command = IsLine command × IsFree b'}' command

ack_text-IsLine :
    (code : ℕ) (command message : Bytes)
    → IsLine command
    → IsLine message
    → IsLine (ack_text code command message)
unfolding ack_text
ack_text-IsLine code command message h k =
    IsFree-append b'\n' (codes "ACK [")
      (decimal code ++ (codes "] {" ++ (command ++ (codes "} " ++ message)))) (ground arith)
      (IsFree-append b'\n' (decimal code) (codes "] {" ++ (command ++ (codes "} " ++ message)))
        (decimal-IsLine code)
        (IsFree-append b'\n' (codes "] {") (command ++ (codes "} " ++ message)) (ground arith) (
          IsFree-append b'\n' command (codes "} " ++ message) h
            (IsFree-append b'\n' (codes "} ") message (ground arith) k))))

changes-IsLine : (n : ℕ) → IsLine (codes "changes: " ++ decimal n)
changes-IsLine n =
    IsFree-append b'\n' (codes "changes: ") (decimal n) (ground arith) (decimal-IsLine n)

pub lines-line :
    (r : LineReader) (line : Bytes) → IsLine line → r.lines (line ++ (b'\n' ∷ [])) ≡ line ∷ []
lines-line r line h = r.lines_newline line [] h ∙ ap (λ (ls : List Bytes). line ∷ ls) r.lines_nil

lines-written :
    (r : LineReader) (command : Bytes) (outcome : Result ℕ)
    → IsShown command
    → IsSendable outcome
    → r.lines (written command outcome) ≡ reply command outcome
unfolding written reply
lines-written r command (ok n) shown h =
    ap r.lines (append_assoc (codes "changes: " ++ decimal n) (b'\n' ∷ []) (codes "OK\n"))
    ∙ r.lines_newline (codes "changes: " ++ decimal n) (codes "OK\n") (changes-IsLine n)
    ∙ ap (λ (ls : List Bytes). (codes "changes: " ++ decimal n) ∷ ls)
        (lines-line r (codes "OK") (ground arith))
lines-written r command (error code message) shown h =
    lines-line r (ack_text code command message)
      (ack_text-IsLine code command message shown.0 h.1.1)

parse-reply :
    (changes : ℤ) (command : Bytes) (outcome : Result ℕ)
    → IsShown command
    → IsSendable outcome
    → mpdcron_parse_changes changes (reply command outcome) ≡ reported outcome
unfolding reply
parse-reply changes command (ok n) shown h = mpdcron_parse_changes-ok changes n [] h
parse-reply changes command (error code message) shown h =
    mpdcron_parse_changes-ack changes code command message [] h.0 shown.1 h.1.0

returned : Result ℕ → Return
returned (ok n) = return_ok
returned (error code message) = return_error

module _ {D : Type 0} where
  -- The state behind a command that ended with a result.
  unfoldable pub finished : Bytes → Result ℕ × D → Server D → Server D
  unfolding written
  finished command outcome s = record s {
    database = outcome.1;
    output = written command outcome.0;
    current_command = none;
  }

  unfoldable pub asked : Bytes → Server D → Server D
  asked command s = record s { output = []; current_command = some command }

module _ (a : Ascii) (r : LineReader) {D : Type 0} (q : Sqlite D) (g : Split) (h : Host) where
  released-answer_changes :
      (command : Bytes) (outcome : Result ℕ × D) (s : Server D)
      → released q g h true (answer_changes outcome (asked command s))
        ≡ served (returned outcome.0) (finished command outcome s)
  unfolding released answer_changes command_puts command_ok command_error asked finished returned
      written
  released-answer_changes command (ok n, d) s = refl
  released-answer_changes command (error code message, d) s = refl

  -- A command whose handler ends with a result.
  pub record Handled (command : Bytes) (args : List Bytes) (s : Server D) (outcome : Result ℕ × D)
      : Type 0 where
    pub found : Command
    pub is_word : IsWord a command
    pub is_line : IsLine command
    pub are_lines : All IsLine args
    pub is_shown : IsShown found.cmd
    pub sendable : IsSendable outcome.0
    pub few : length args < 15
    pub dispatched : dispatch a s.permission command args ≡ invoked found command args
    pub handled :
        call_handler q g h found.handler command args (asked found.cmd s)
        ≡ answer_changes outcome (asked found.cmd s)

  module _ (command : Bytes) (args : List Bytes) (s : Server D) (outcome : Result ℕ × D)
      (d : Handled command args s outcome) where
    serve_line-handled :
        serve_line q g h a true true (send_commandv command args) (record s { output = [] })
        ≡ served (returned outcome.0) (finished d.found.cmd outcome s)
    unfolding serve_line perform asked
    serve_line-handled =
        ap (λ p. perform q g h true p (record s { output = [] }))
          (command_process-send_commandv a true s.permission command args d.is_word d.few
            ∙ d.dispatched)
        ∙ ap (released q g h true) d.handled
        ∙ released-answer_changes d.found.cmd outcome s

    server_peer-handled :
        server_peer a r q g h (send_commandv command args) s
        ≡ (some (reply d.found.cmd outcome.0), finished d.found.cmd outcome s)
    unfolding server_peer event_read_line after_line answer finished
    server_peer-handled =
        ap
          (λ ls.
            answer a r q g h (record s { output = [] })
              (event_read_line a r q g h ls (record s { output = [] })))
          (lines-line r (send_commandv command args)
            (send_commandv-IsLine command args d.is_line d.are_lines))
        ∙ ap
            (λ x.
              answer a r q g h (record s { output = [] })
                (after_line a r q g h (event_read_line a r q g h []) x))
            serve_line-handled
        ∙ ap (λ (ls : List Bytes). (some ls, finished d.found.cmd outcome s))
            (lines-written r d.found.cmd outcome.0 d.is_shown d.sendable)

    pub exchange-handled :
        (changes : ℤ)
        → exchange (server_peer a r q g h) command args (mpdcron_parse_changes changes) s
          ≡ (reported outcome.0, finished d.found.cmd outcome s)
    unfolding exchange
    exchange-handled changes =
        ap
          (λ (p : Option (List Bytes) × Server D).
            (read_reply p.0 (mpdcron_parse_changes changes), p.1))
          server_peer-handled
        ∙ ap (λ (x : Received ℤ). (x, finished d.found.cmd outcome s))
            (parse-reply changes d.found.cmd outcome.0 d.is_shown d.sendable)
