-- ===== src/Stats/Session/Dispatch.antt =====
-- The handlers of changes as the client calls them: the checks in front of them, and their answers.
use mpdcron.Prelude.{
  ℕ, suc, ◌<◌, ◌≡◌, refl, ap, ◌∙◌, Bytes, Bool, true, false, Bool-cases, inl, inr, ◌&&◌, ◌||◌, not,
  none, List, [], ◌∷◌, ◌==◌, All, length, leb, arith,
}
use mpdcron.Prelude.Int.{ℤ, pos, ltb_ℤ}
use mpdcron.Prelude.Number.{strtol}
use mpdcron.Stats.Tokenizer.{Ascii, valid_word_char}
use mpdcron.Stats.Tokenizer.Quoting.{IsWord}
use mpdcron.Stats.Command.{
  Command, Permission, permission_update, permits, command_check_request, found,
}
use mpdcron.Stats.Command.Table.{command_lookup}
use mpdcron.Stats.Command.Process.{dispatch, looked_up, checked, invoked}
use mpdcron.Stats.Database.{Result, Sqlite}
use mpdcron.Stats.Database.Tags.{Split}
use mpdcron.Stats.Client.{LineReader, Received, mpdcron_parse_changes}
use mpdcron.Stats.Client.Calls.{exchange}
use mpdcron.Stats.Client.Replies.{IsFree}
use mpdcron.Stats.Server.{Server, Host, int_max, int_min, answer_changes, with_number}
use mpdcron.Stats.Server.Changes.{handle_karma}
use mpdcron.Stats.Database.Change.{db_karma_song_expr}
use mpdcron.Stats.Server.Serve.{call_handler}
use mpdcron.Stats.Session.{server_peer}
use mpdcron.Stats.Session.Exchange.{
  IsLine, IsSendable, reported, finished, asked, Handled, exchange-handled,
}
use mpdcron.Stats.Session.Change.{numbered, converted, bounded, percentage}

module _ {D : Type 0} (h : Host) where
  pub with_number-numbered :
      (value : Bytes) (f : ℤ → D → Result ℕ × D) (t : Server D)
      → with_number h value (λ n. answer_changes (f n t.database) t) t
        ≡ answer_changes (numbered h value f t.database) t
  unfolding with_number numbered converted bounded answer_changes
  with_number-numbered value f t = elim (Bool-cases (strtol value).erange) [
    | inl out ↦ rw (out, with_number, converted) refl
    | inr within ↦ elim (Bool-cases (strtol value).converted) [
      | inr none_found ↦ rw (within, none_found, with_number, converted) refl
      | inl digits ↦ elim (Bool-cases (ltb_ℤ int_max (strtol value).value)) [
        | inl big ↦ rw (within, digits, big, with_number, converted, bounded) refl
        | inr low ↦ elim (Bool-cases (ltb_ℤ (strtol value).value int_min)) [
          | inl small ↦ rw (within, digits, low, small, with_number, converted, bounded) refl
          | inr fits ↦ rw (within, digits, low, fits, with_number, converted, bounded) refl
        ]
      ]
    ]
  ]

  pub handle_karma-percentage :
      (q : Sqlite D) (expr value : Bytes) (t : Server D)
      → handle_karma q h (expr ∷ value ∷ []) t
        ≡ answer_changes (converted h value (percentage (db_karma_song_expr q expr)) t.database) t
  unfolding handle_karma converted percentage answer_changes
  handle_karma-percentage q expr value t = elim (Bool-cases (strtol value).erange) [
    | inl out ↦ rw (out, handle_karma, converted) refl
    | inr within ↦ elim (Bool-cases (strtol value).converted) [
      | inr none_found ↦ rw (within, none_found, handle_karma, converted) refl
      | inl digits ↦
          elim (Bool-cases (
            not (ltb_ℤ (strtol value).value (pos 100))
            || not (ltb_ℤ (pos 0) (strtol value).value))) [
              | inl outside ↦ rw (within, digits, outside, handle_karma, converted, percentage) refl
              | inr inside ↦ rw (within, digits, inside, handle_karma, converted, percentage) refl
            ]
    ]
  ]

-- A lower letter, or the underscore.
abbrev pub is_plain : ℕ → Bool
is_plain c = (leb b'a' c && leb c b'z') || c == b'_'

abbrev pub are_plain : Bytes → Bool
are_plain [] = true
are_plain (c ∷ s) = is_plain c && are_plain s

-- A name of such characters, of which the first is a letter.
abbrev pub is_name : Bytes → Bool
is_name [] = false
is_name (c ∷ s) = (leb b'a' c && leb c b'z') && are_plain s

are_plain-IsFree : (d : ℕ) (s : Bytes) → is_plain d ≡ false → are_plain s ≡ true → IsFree d s
are_plain-IsFree d [] h k = tt
are_plain-IsFree d (c ∷ s) h k =
    ((λ e. absurd (ground (arith, e))), are_plain-IsFree d s h (ground arith))

is_name-are_plain : (s : Bytes) → is_name s ≡ true → are_plain s ≡ true
is_name-are_plain [] k = refl
is_name-are_plain (c ∷ s) k = ground arith

pub is_name-IsFree : (d : ℕ) (s : Bytes) → is_plain d ≡ false → is_name s ≡ true → IsFree d s
is_name-IsFree d s h k = are_plain-IsFree d s h (is_name-are_plain s k)

module _ (a : Ascii) where
  plain_char : (c : ℕ) → is_plain c ≡ true → valid_word_char a c ≡ true
  plain_char c h = elim (Bool-cases (c == b'_')) [
    | inl score ↦ ground (arith, score)
    | inr letter ↦ ground (arith, letter, h, a.alnum_lower c)
  ]

  are_plain-All : (s : Bytes) → are_plain s ≡ true → All (λ d. valid_word_char a d ≡ true) s
  are_plain-All [] k = tt
  are_plain-All (c ∷ s) k = (plain_char c (ground arith), are_plain-All s (ground arith))

  pub is_name-IsWord : (s : Bytes) → is_name s ≡ true → IsWord a s
  is_name-IsWord [] k = absurd (ground arith)
  is_name-IsWord (c ∷ s) k =
      (a.alpha_lower c (ground arith) (ground arith), are_plain-All s (ground arith))

-- A command for updates passes the checks of a client that may update, with the right arguments.
module _ (a : Ascii) (r : LineReader) {D : Type 0} (q : Sqlite D) (g : Split) (h : Host) where
  check-wanted :
      (held wanted : Permission) (c : Command) (name : Bytes) (argc : ℕ)
      → permits held wanted ≡ true
      → permits wanted wanted ≡ true
      → c.permission ≡ wanted
      → command_check_request c held name argc ≡ command_check_request c wanted name argc
  unfolding command_check_request
  check-wanted held wanted c name argc may itself permission =
      rw (permission, may, itself, command_check_request) refl

  pub dispatch-permitted :
      (held wanted : Permission) (name : Bytes) (args : List Bytes) (c : Command)
      → permits held wanted ≡ true
      → permits wanted wanted ≡ true
      → command_lookup name ≡ found c
      → c.permission ≡ wanted
      → command_check_request c wanted name (suc (length args)) ≡ none
      → dispatch a held name args ≡ invoked c name args
  unfolding dispatch looked_up checked
  dispatch-permitted held wanted name args c may itself here permission passes =
      ap (looked_up held name args) here
      ∙ ap (checked name args c)
          (check-wanted held wanted c name (suc (length args)) may itself permission ∙ passes)

  named_handled :
      (name : Bytes) (args : List Bytes) (c : Command) (s : Server D) (outcome : Result ℕ × D)
      → s.permission.update ≡ true
      → command_lookup name ≡ found c
      → c.permission ≡ permission_update
      → command_check_request c permission_update name (suc (length args)) ≡ none
      → is_name name ≡ true
      → is_name c.cmd ≡ true
      → length args < 15
      → All IsLine args
      → IsSendable outcome.0
      → call_handler q g h c.handler name args (asked c.cmd s)
        ≡ answer_changes outcome (asked c.cmd s)
      → Handled a r q g h name args s outcome
  named_handled name args c s outcome update here permission passes is_name_name shown few lines
        sendable handled =
      record {
        found = c;
        is_word = is_name-IsWord a name is_name_name;
        is_line = are_plain-IsFree b'\n' name refl (is_name-are_plain name is_name_name);
        are_lines = lines;
        is_shown = (
          are_plain-IsFree b'\n' c.cmd refl (is_name-are_plain c.cmd shown),
          are_plain-IsFree b'}' c.cmd refl (is_name-are_plain c.cmd shown),
        );
        sendable = sendable;
        few = few;
        dispatched =
            dispatch-permitted s.permission permission_update name args c update refl here
              permission passes;
        handled = handled;
      }

  -- The answer to a command that is in the table and ends with a result.
  pub answer_update :
      (name : Bytes) {c : Command} (args : List Bytes) (s : Server D) (outcome : Result ℕ × D)
      (changes : ℤ)
      → s.permission.update ≡ true
      → All IsLine args
      → IsSendable outcome.0
      → length args < 15
      → command_lookup name ≡ found c
      → c.permission ≡ permission_update
      → command_check_request c permission_update name (suc (length args)) ≡ none
      → is_name name ≡ true
      → is_name c.cmd ≡ true
      → call_handler q g h c.handler name args (asked c.cmd s)
        ≡ answer_changes outcome (asked c.cmd s)
      → ((exchange (server_peer a r q g h) name args (mpdcron_parse_changes changes) s).0
          ≡ reported outcome.0)
        × ((exchange (server_peer a r q g h) name args (mpdcron_parse_changes changes) s).1.database
            ≡ outcome.1)
  unfolding finished
  answer_update name {c} args s outcome changes update lines sendable few here permission passes
        word shown handled =
      let answered =
        exchange-handled a r q g h name args s outcome
          (named_handled name args c s outcome update here permission passes word shown few lines
            sendable handled)
          changes in
      (
        ap (λ (p : Received ℤ × Server D). p.0) answered,
        ap (λ (p : Received ℤ × Server D). p.1.database) answered,
      )
