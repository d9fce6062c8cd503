-- ===== src/Stats/Command/RoundTrip.antt =====
-- From the client's call to the server's handler.
use mpdcron.Prelude.{
  ℕ, zero, suc, ◌<◌, ◌≡◌, refl, ap, ◌∙◌, Bytes, Bool, none, List, [], ◌∷◌, length, if◌then◌else◌,
  arith,
}
use mpdcron.Stats.Tokenizer.{Ascii, tokenizer_next_param}
use mpdcron.Stats.Tokenizer.Quoting.{
  IsWord, tokenizer_next_param-arguments, tokenizer_next_word-send_commandv,
}
use mpdcron.Stats.Protocol.{arguments, send_commandv}
use mpdcron.Stats.Command.{Permission}
use mpdcron.Stats.Command.Process.{
  cons_param, params, with_params, dispatch, command_process, database_refused,
}

module _ (a : Ascii) where
  params-nil : (room : ℕ) → params a (suc room) [] ≡ record { args = []; line = []; failure = none }
  unfolding params tokenizer_next_param
  params-nil room = refl

  params-arguments :
      (room : ℕ) (args : List Bytes)
      → length args < room
      → params a room (a.strchug (arguments args))
        ≡ record { args = args; line = []; failure = none }
  unfolding params
  params-arguments zero args h = absurd (omega arith)
  params-arguments (suc room) [] h =
      unfold arguments in (ap (params a (suc room)) a.strchug_nil ∙ params-nil room)
  params-arguments (suc room) (arg ∷ args) h =
      rw (tokenizer_next_param-arguments a arg args, params)
        (ap (cons_param arg) (params-arguments room args (omega arith)))

  -- A line that the client writes for a word as command and fewer than fifteen arguments of any
  -- bytes makes the server dispatch just that command with just those arguments, if SQLite takes
  -- the authorizer, and otherwise answer its error.
  pub command_process-send_commandv :
      (authorized : Bool) (held : Permission) (command : Bytes) (args : List Bytes)
      → IsWord a command
      → length args < 15
      → command_process a authorized held (send_commandv command args)
        ≡ (if authorized then dispatch a held command args else database_refused command)
  unfolding command_process with_params
  command_process-send_commandv authorized held command args word few =
      rw
        (
          tokenizer_next_word-send_commandv a command args word,
          params-arguments 15 args few,
          command_process,
        )
        (ground (arith))
