-- ===== src/Stats/Command/Process.antt =====
-- command_process and command_checked_lookup of stats-command.c: from a line to a handler.
use mpdcron.Prelude.{
  ℕ, zero, suc, Bytes, codes, Bool, not, Option, none, some, List, [], ◌∷◌, length, is_empty, leb,
  if◌then◌else◌,
}
use mpdcron.Stats.Tokenizer.{
  Ascii, Error, error_message, no_token, token, failed, tokenizer_next_word, tokenizer_next_param,
}
use mpdcron.Stats.Command.{
  Command, Permission, Ack, ack_arg, ack_unknown, Found, fault, no_fuel, not_found, found,
  command_check_request, quoting,
}
use mpdcron.Stats.Command.Table.{command_lookup}

abbrev pub command_argv_max : ℕ
command_argv_max = 16

-- An error is answered, with current_command and a message, before the authorizer is set or, by the
-- lookup, behind it; SQLite did not take the authorizer, whose
-- error is answered with current_command; or the handler of a command is called with its arguments,
-- the name before them. `crashed` cannot happen: a read past the command table, or past its rounds.
pub data Processed : Type 0 where
  refused rejected : Ack → Bytes → Bytes → Processed
  database_refused : Bytes → Processed
  crashed : Processed
  invoked : Command → Bytes → List Bytes → Processed

-- The loop over the arguments: what was read, what is left of the line, and the error that ended it.
-- `room` is how many more fit into argv.
pub record Params : Type 0 where
  pub args : List Bytes
  pub line : Bytes
  pub failure : Option Error

abbrev pub cons_param : Bytes → Params → Params
cons_param arg p = record p { args = arg ∷ p.args }

-- The handler is called, unless the check found an error.
unfoldable pub checked : Bytes → List Bytes → Command → Option (Ack × Bytes) → Processed
checked name args c none = invoked c name args
checked name args c (some (ack, message)) = rejected ack c.cmd message

unfoldable pub looked_up : Permission → Bytes → List Bytes → Found → Processed
unfolding checked
looked_up held name args (found c) =
    checked name args c (command_check_request c held name (suc (length args)))
looked_up held name args not_found =
    rejected ack_unknown [] (quoting (codes "unknown command ") name)
looked_up held name args fault = crashed
looked_up held name args no_fuel = crashed

module _ (a : Ascii) where
  unfoldable pub params : ℕ → Bytes → Params
  params zero line = record { args = []; line = line; failure = none }
  params (suc room) line = elim (tokenizer_next_param a line) [
    | no_token ↦ record { args = []; line = line; failure = none }
    | failed e rest ↦ record { args = []; line = rest; failure = some e }
    | token arg rest ↦ cons_param arg (params room rest)
  ]

  -- command_checked_lookup, and the call of the handler.
  unfoldable pub dispatch : Permission → Bytes → List Bytes → Processed
  unfolding looked_up command_lookup
  dispatch held name args = looked_up held name args (command_lookup name)

  -- The message of the error that ended the loop; error->message follows a null pointer if none did.
  unfoldable pub remaining : Bytes → Option Error → Processed
  unfolding error_message
  remaining name none = crashed
  remaining name (some e) = refused ack_arg name (error_message e)

  unfoldable pub with_params : Bool → Permission → Bytes → Params → Processed
  unfolding dispatch remaining
  with_params authorized held name p =
      if leb command_argv_max (suc (length p.args))
      then refused ack_arg name (codes "Too many arguments")
      else if not (is_empty p.line)
      then remaining name p.failure
      else if not authorized
      then database_refused name
      else dispatch held name p.args

  -- `authorized` says that both calls of db_set_authorizer succeed.
  unfoldable pub command_process : Bool → Permission → Bytes → Processed
  unfolding with_params params error_message
  command_process authorized held line = elim (tokenizer_next_word a line) [
    | no_token ↦ refused ack_unknown [] (codes "No command given")
    | failed e rest ↦
        refused ack_unknown [] (if is_empty rest then codes "No command given" else error_message e)
    | token name rest ↦ with_params authorized held name (params 15 rest)
  ]
