-- ===== src/Stats/Server/Guard.antt =====
-- command_check_request and command_process let a command through only with its permission.
use mpdcron.Prelude.{
  ℕ, suc, ◌≡◌, refl, sym, subst, inl, inr, Bytes, codes, Bool, true, false, Bool-cases, ◌||◌,
  Option, none, some, List, if◌then◌else◌, length, leb, not, is_empty,
}
use mpdcron.Stats.Tokenizer.{Ascii, Token, no_token, failed, token, tokenizer_next_word}
use mpdcron.Stats.Command.{
  Command, Permission, Found, found, not_found, fault, no_fuel, command_check_request, ack_arg, Ack,
  ack_permission, quoting, permits,
}
use mpdcron.Stats.Command.Table.{commands, command_lookup}
use mpdcron.Stats.Command.Lookup.{Settles, command_lookup-Settles}
use mpdcron.Stats.Command.Process.{
  Params, params, remaining, command_argv_max, Processed, refused, rejected, database_refused,
  crashed, invoked, checked, looked_up, dispatch, command_process, with_params,
}
use mpdcron.Stats.Server.Readers.{readers, is_one_of, commands-readers, All-get_elem?}

-- A command that is invoked may be.
unfoldable pub IsAllowed : Permission → Processed → Type 0
IsAllowed held (refused ack name message) = Unit
IsAllowed held (rejected ack name message) = Unit
IsAllowed held (database_refused name) = Unit
IsAllowed held crashed = Unit
IsAllowed held (invoked c name args) =
    ((c.permission.update || is_one_of c.handler readers) ≡ true)
    × (permits held c.permission ≡ true)

if-elim : {A : Type 0} (P : A → Type 0) (b : Bool) (x y : A) → P x → P y → P (if b then x else y)
if-elim P true x y h k = h
if-elim P false x y h k = k

module _ (held : Permission) (name : Bytes) (args : List Bytes) where
  checked-IsAllowed :
      (c : Command) (o : Option (Ack × Bytes))
      → (c.permission.update || is_one_of c.handler readers) ≡ true
      → permits held c.permission ≡ true
      → IsAllowed held (checked name args c o)
  unfolding checked IsAllowed
  checked-IsAllowed c none guarded permitted = (guarded, permitted)
  checked-IsAllowed c (some (ack, message)) guarded permitted = tt

  check-denied :
      (c : Command) (argc : ℕ)
      → permits held c.permission ≡ false
      → command_check_request c held name argc
        ≡ some (ack_permission, quoting (codes "you don't have permission for ") c.cmd)
  unfolding command_check_request
  check-denied c argc h = rw (h, command_check_request) refl

  requested-IsAllowed :
      (c : Command) (argc : ℕ)
      → (c.permission.update || is_one_of c.handler readers) ≡ true
      → IsAllowed held (checked name args c (command_check_request c held name argc))
  requested-IsAllowed c argc guarded = elim (Bool-cases (permits held c.permission)) [
    | inl permitted ↦ checked-IsAllowed c (command_check_request c held name argc) guarded permitted
    | inr not_permitted ↦
        subst (λ o. IsAllowed held (checked name args c o))
          (sym (check-denied c argc not_permitted)) (unfold checked IsAllowed in tt)
  ]

  looked_up-IsAllowed :
      (f : Found) → Settles commands name f → IsAllowed held (looked_up held name args f)
  unfolding looked_up IsAllowed
  looked_up-IsAllowed fault h = absurd h
  looked_up-IsAllowed no_fuel h = absurd h
  looked_up-IsAllowed not_found h = tt
  looked_up-IsAllowed (found c) (same, (i, here)) = requested-IsAllowed c (suc (length args)) (
      All-get_elem? (λ c. (c.permission.update || is_one_of c.handler readers) ≡ true) commands i c
        commands-readers here)

module _ (a : Ascii) (authorized : Bool) (held : Permission) where
  with_params-IsAllowed :
      (name : Bytes) (p : Params) → IsAllowed held (with_params a authorized held name p)
  unfolding with_params dispatch remaining IsAllowed
  with_params-IsAllowed name p =
      let run = looked_up held name p.args (command_lookup name) in
      let authorized_run = if not authorized then database_refused name else run in
      let rest = if not (is_empty p.line) then remaining a name p.failure else authorized_run in
      if-elim (IsAllowed held) (leb command_argv_max (suc (length p.args)))
        (refused ack_arg name (codes "Too many arguments")) rest tt
        (if-elim (IsAllowed held) (not (is_empty p.line)) (remaining a name p.failure)
          authorized_run
          (elim p.failure as (λ e. IsAllowed held (remaining a name e)) [ none ↦ tt | some e ↦ tt ])
          (if-elim (IsAllowed held) (not authorized) (database_refused name) run tt (
            looked_up-IsAllowed held name p.args (command_lookup name)
              (command_lookup-Settles name))))

  tokens-IsAllowed :
      (line : Bytes) (t : Token)
      → tokenizer_next_word a line ≡ t
      → IsAllowed held (command_process a authorized held line)
  unfolding command_process IsAllowed
  tokens-IsAllowed line no_token h = rw (h, command_process) tt
  tokens-IsAllowed line (failed e rest) h = rw (h, command_process) tt
  tokens-IsAllowed line (token name rest) h =
      rw (h, command_process) (with_params-IsAllowed name (params a 15 rest))

  pub command_process-IsAllowed :
      (line : Bytes) → IsAllowed held (command_process a authorized held line)
  command_process-IsAllowed line = tokens-IsAllowed line (tokenizer_next_word a line) refl
