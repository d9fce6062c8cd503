-- ===== src/Stats/Tokenizer.antt =====
-- tokenizer.c. A line is its bytes, without the closing zero, and `input_p` is what is left of it.
-- The C code moves the characters of a quoted string towards the front of the same buffer, behind
-- which it reads on, so what it reads is what was there.
pub mod Quoting
use mpdcron.Prelude.{
  ℕ, ◌≤◌, ◌<◌, ◌≡◌, Bytes, codes, Bool, true, false, ◌&&◌, ◌||◌, not, List, [], ◌∷◌, ◌++◌, ltb,
  ◌==◌, if◌then◌else◌,
}

-- The functions on ASCII characters that GLib documents: the classes of characters, and g_strchug,
-- which removes leading whitespace.
pub record Ascii : Type 0 where
  pub isalpha : ℕ → Bool
  pub isalnum : ℕ → Bool
  pub isspace : ℕ → Bool
  pub strchug : Bytes → Bytes
  pub space_le : (c : ℕ) → isspace c ≡ true → c ≤ 32
  pub space_is_space : isspace 32 ≡ true
  pub alpha_lower : (c : ℕ) → b'a' ≤ c → c ≤ b'z' → isalpha c ≡ true
  pub alnum_lower : (c : ℕ) → b'a' ≤ c → c ≤ b'z' → isalnum c ≡ true
  pub alnum_gt : (c : ℕ) → isalnum c ≡ true → 32 < c
  pub strchug_nil : strchug [] ≡ []
  pub strchug_cons :
      (c : ℕ) (s : Bytes) → strchug (c ∷ s) ≡ (if isspace c then strchug s else c ∷ s)

pub data Error : Type 0 where
  letter_expected invalid_word_character invalid_unquoted quote_expected : Error
  missing_closing_quote space_expected : Error

unfoldable pub error_message : Error → Bytes
error_message letter_expected = codes "Letter expected"
error_message invalid_word_character = codes "Invalid word character"
error_message invalid_unquoted = codes "Invalid unquoted character"
error_message quote_expected = codes "'\"' expected"
error_message missing_closing_quote = codes "Missing closing '\"'"
error_message space_expected = codes "Space expected after closing '\"'"

-- What a function returns, with the new `*input_p`: NULL without an error, a word, or an error.
pub data Token : Type 0 where
  no_token : Token
  token : Bytes → Bytes → Token
  failed : Error → Bytes → Token

-- One more character in front of a word.
abbrev pub cons_token : ℕ → Token → Token
cons_token c no_token = no_token
cons_token c (token word rest) = token (c ∷ word) rest
cons_token c (failed e rest) = failed e rest

abbrev pub valid_unquoted_char : ℕ → Bool
valid_unquoted_char c = ltb 32 c && not (c == b'"') && not (c == 39)

module _ (a : Ascii) where
  abbrev pub valid_word_first_char : ℕ → Bool
  valid_word_first_char c = a.isalpha c

  abbrev pub valid_word_char : ℕ → Bool
  valid_word_char c = a.isalnum c || c == b'_'

  -- The loop behind the first character: to a whitespace, which ends the word, or to the end.
  unfoldable pub scan : (ℕ → Bool) → Error → Bytes → Token
  scan valid e [] = token [] []
  scan valid e (c ∷ s) =
      if a.isspace c
      then token [] (a.strchug s)
      else if not (valid c)
      then failed e (c ∷ s)
      else cons_token c (scan valid e s)

  unfoldable pub tokenizer_next_word : Bytes → Token
  unfolding scan
  tokenizer_next_word [] = no_token
  tokenizer_next_word (c ∷ s) =
      if not (valid_word_first_char c)
      then failed letter_expected (c ∷ s)
      else cons_token c (scan valid_word_char invalid_word_character s)

  unfoldable pub tokenizer_next_unquoted : Bytes → Token
  unfolding scan
  tokenizer_next_unquoted [] = no_token
  tokenizer_next_unquoted (c ∷ s) =
      if not (valid_unquoted_char c)
      then failed invalid_unquoted (c ∷ s)
      else cons_token c (scan valid_unquoted_char invalid_unquoted s)

  -- Behind the closing quote.
  closed : Bytes → Token
  closed [] = token [] (a.strchug [])
  closed (c ∷ s) =
      if not (a.isspace c) then failed space_expected (c ∷ s) else token [] (a.strchug (c ∷ s))

  -- The loop over the characters of a quoted string; `before` is the one read last, to which the
  -- input goes back when the line ends too early.
  unfoldable pub copy : ℕ → Bytes → Token
  unfolding closed
  copy before [] = failed missing_closing_quote (before ∷ [])
  copy before (c ∷ []) =
      if c == b'"'
      then closed []
      else if c == 92
      then failed missing_closing_quote (c ∷ [])
      else cons_token c (copy c [])
  copy before (c ∷ d ∷ s) =
      let escaped = cons_token d (copy d s) in
      let plain = cons_token c (copy c (d ∷ s)) in
      if c == b'"' then closed (d ∷ s) else if c == 92 then escaped else plain

  unfoldable pub tokenizer_next_string : Bytes → Token
  unfolding copy
  tokenizer_next_string [] = no_token
  tokenizer_next_string (c ∷ s) =
      if not (c == b'"') then failed quote_expected (c ∷ s) else copy c s

  unfoldable pub tokenizer_next_param : Bytes → Token
  unfolding tokenizer_next_string tokenizer_next_unquoted
  tokenizer_next_param [] = tokenizer_next_unquoted []
  tokenizer_next_param (c ∷ s) =
      if c == b'"' then tokenizer_next_string (c ∷ s) else tokenizer_next_unquoted (c ∷ s)
