-- ===== src/Stats/Command.antt =====
-- The commands of the statistics server: stats-command.c.
pub mod Table
pub mod Process
pub mod RoundTrip
pub mod Lookup
use mpdcron.Prelude.{
  ℕ, zero, suc, ◌+◌, ◌/◌, ◌%◌, Bytes, codes, bytes_eq, Bool, true, false, ◌&&◌, ◌||◌, not, Option,
  none, some, List, [], ◌∷◌, ◌++◌, ltb, ◌==◌, if◌then◌else◌,
}
use mpdcron.Prelude.Int.{ℤ, pos, negsuc, ltb_ℤ}

-- PERMISSION_NONE, PERMISSION_SELECT and PERMISSION_UPDATE: the values of one bit each.
pub record Permission : Type 0 where
  pub select : Bool
  pub update : Bool

abbrev pub permission_none : Permission
permission_none = record { select = false; update = false }

abbrev pub permission_select : Permission
permission_select = record { select = true; update = false }

abbrev pub permission_update : Permission
permission_update = record { select = false; update = true }

-- wanted == (held & wanted)
abbrev pub permits : Permission → Permission → Bool
permits held wanted = (not wanted.select || held.select) && (not wanted.update || held.update)

-- struct command, without its handler, which the name of the handler stands for.
pub record Command : Type 0 where
  pub cmd : Bytes
  pub permission : Permission
  pub min : ℤ
  pub max : ℤ
  pub handler : Bytes

-- The first difference of two strings, as strcmp has it.
pub data Compared : Type 0 where
  less equal greater : Compared

unfoldable pub strcmp : Bytes → Bytes → Compared
strcmp [] [] = equal
strcmp [] (d ∷ t) = less
strcmp (c ∷ s) [] = greater
strcmp (c ∷ s) (d ∷ t) =
    let rest = strcmp s t in if ltb c d then less else if ltb d c then greater else rest

unfoldable pub get_elem? {ℓ} : {A : Type ℓ} → List A → ℕ → Option A
get_elem? [] n = none
get_elem? (x ∷ xs) zero = some x
get_elem? (x ∷ xs) (suc n) = get_elem? xs n

-- What a binary search finds; `fault` is a read past the table, `no_fuel` a search that did not end.
pub data Found : Type 0 where
  fault no_fuel not_found : Found
  found : Command → Found

unfoldable pub search_between : ℕ → List Command → Bytes → ℕ → ℕ → Found
unfolding strcmp get_elem?
search_between zero table name a b = no_fuel
search_between (suc fuel) table name a b =
    let i = (a + b) / 2 in
    let below = if ltb a i then search_between fuel table name a i else not_found in
    let above = if ltb (i + 1) b then search_between fuel table name (i + 1) b else not_found in
    elim (get_elem? table i) [
      | none ↦ fault
      | some c ↦ elim (strcmp name c.cmd) [ equal ↦ found c | less ↦ below | greater ↦ above ]
    ]

-- ACK_ERROR_ARG and so on.
pub data Ack : Type 0 where
  ack_arg ack_password ack_permission ack_unknown : Ack

-- int min = cmd->min + 1, int max = cmd->max + 1; -1 stands for no limit, so that 0 does here.
abbrev pub plus_one : ℤ → ℤ
plus_one (pos n) = pos (n + 1)
plus_one (negsuc zero) = pos 0
plus_one (negsuc (suc n)) = negsuc n

abbrev pub eq_ℤ : ℤ → ℤ → Bool
eq_ℤ a b = not (ltb_ℤ a b) && not (ltb_ℤ b a)

unfoldable pub ack_code : Ack → ℕ
ack_code ack_arg = 1
ack_code ack_password = 2
ack_code ack_permission = 3
ack_code ack_unknown = 4

-- A text in double quotes behind another.
unfoldable pub quoting : Bytes → Bytes → Bytes
quoting text name = text ++ (b'"' ∷ (name ++ (b'"' ∷ [])))

-- command_check_request of a command called as `name`: the error that is answered with its message,
-- or none.
unfoldable pub command_check_request : Command → Permission → Bytes → ℕ → Option (Ack × Bytes)
unfolding quoting
command_check_request c held name argc =
    let min = plus_one c.min in
    let max = plus_one c.max in
    if not (permits held c.permission)
    then some (ack_permission, quoting (codes "you don't have permission for ") c.cmd)
    else if eq_ℤ min (pos 0)
    then none
    else if eq_ℤ min max && not (eq_ℤ max (pos argc))
    then some (ack_arg, quoting (codes "wrong number of arguments for ") name)
    else if ltb_ℤ (pos argc) min
    then some (ack_arg, quoting (codes "too few arguments for ") name)
    else if ltb_ℤ max (pos argc) && not (eq_ℤ max (pos 0))
    then some (ack_arg, quoting (codes "too many arguments for ") name)
    else none
