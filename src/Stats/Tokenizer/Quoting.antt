-- ===== src/Stats/Tokenizer/Quoting.antt =====
-- Words and arguments that a client wrote are read back.
use mathlib.Core.List.{append-nil}
use mpdcron.Prelude.{
  ℕ, ◌≡◌, refl, ap, sym, ◌∙◌, Bytes, Bool, true, false, ◌||◌, All, List, [], ◌∷◌, ◌++◌, arith,
  Bool-cases, inl, inr, if◌then◌else◌, ◌==◌,
}
use mpdcron.Stats.Tokenizer.{
  Ascii, Error, invalid_word_character, Token, token, cons_token, scan, copy, closed,
  tokenizer_next_word, tokenizer_next_param, valid_word_char,
}
use mpdcron.Stats.Protocol.{escape, arguments, send_commandv}

-- More characters in front of a word.
abbrev prepend : Bytes → Token → Token
prepend [] t = t
prepend (c ∷ w) t = cons_token c (prepend w t)

prepend-token : (w v rest : Bytes) → prepend w (token v rest) ≡ token (w ++ v) rest
prepend-token [] v rest = refl
prepend-token (c ∷ w) v rest = rw (prepend-token w v rest)

module _ (a : Ascii) where
  copy-plain :
      (b c : ℕ) (s : Bytes)
      → (c == b'"' || c == 92) ≡ false
      → copy a b (c ∷ s) ≡ cons_token c (copy a c s)
  unfolding copy
  copy-plain b c [] h = ground arith
  copy-plain b c (d ∷ s) h = ground arith

  copy-escaped : (b c : ℕ) (s : Bytes) → copy a b (92 ∷ (c ∷ s)) ≡ cons_token c (copy a c s)
  unfolding copy
  copy-escaped b c s = refl

  copy-closed : (b : ℕ) (s : Bytes) → copy a b (b'"' ∷ s) ≡ closed a s
  unfolding copy
  copy-closed b [] = refl
  copy-closed b (d ∷ s) = refl

  copy-escape :
      (b : ℕ) (w rest : Bytes) → copy a b (escape w ++ (b'"' ∷ rest)) ≡ prepend w (closed a rest)
  unfolding escape
  copy-escape b [] rest = copy-closed b rest
  copy-escape b (c ∷ w) rest = elim (Bool-cases (c == b'"' || c == 92)) [
    | inl special ↦
        rw (special, escape)
          (copy-escaped b c (escape w ++ (b'"' ∷ rest)) ∙ ap (cons_token c) (copy-escape c w rest))
    | inr plain ↦
        rw (plain, escape)
          (copy-plain b c (escape w ++ (b'"' ∷ rest)) plain
            ∙ ap (cons_token c) (copy-escape c w rest))
  ]

  closed-arguments :
      (args : List Bytes) → closed a (arguments args) ≡ token [] (a.strchug (arguments args))
  unfolding closed arguments
  closed-arguments [] = refl
  closed-arguments (arg ∷ args) = rw a.space_is_space

  quote_is_no_space : a.isspace b'"' ≡ false
  quote_is_no_space = elim (Bool-cases (a.isspace b'"')) [
    | inl space ↦ absurd (omega (arith, a.space_le b'"' space))
    | inr other ↦ other
  ]

  pub strchug-arguments :
      (arg : Bytes) (args : List Bytes)
      → a.strchug (arguments (arg ∷ args)) ≡ b'"' ∷ (escape arg ++ (b'"' ∷ arguments args))
  unfolding arguments
  strchug-arguments arg args =
      rw (a.strchug_cons, a.space_is_space, a.strchug_cons, quote_is_no_space)

  -- The first argument of what is left is read back, whatever its bytes.
  pub tokenizer_next_param-arguments :
      (arg : Bytes) (args : List Bytes)
      → tokenizer_next_param a (a.strchug (arguments (arg ∷ args)))
        ≡ token arg (a.strchug (arguments args))
  tokenizer_next_param-arguments arg args = rw (strchug-arguments arg args) (
      unfold tokenizer_next_param in
      (copy-escape b'"' arg (arguments args)
        ∙ ap (prepend arg) (closed-arguments args)
        ∙ prepend-token arg [] (a.strchug (arguments args))
        ∙ ap (λ (w : Bytes). token w (a.strchug (arguments args))) (append-nil arg)))

  -- A command's name: a letter, then letters, digits and underscores.
  abbrev pub IsWord : Bytes → Type 0
  IsWord [] = ⊥
  IsWord (c ∷ w) = (a.isalpha c ≡ true) × All (λ d. valid_word_char a d ≡ true) w

  word_char_is_no_space : (c : ℕ) → valid_word_char a c ≡ true → a.isspace c ≡ false
  word_char_is_no_space c h = elim (Bool-cases (a.isspace c)) [
    | inl space ↦ absurd (ground (arith, a.space_le c space, a.alnum_gt c))
    | inr other ↦ other
  ]

  scan-space :
      (valid : ℕ → Bool) (e : Error) (s : Bytes)
      → scan a valid e (b' ' ∷ s) ≡ token [] (a.strchug s)
  unfolding scan
  scan-space valid e s = rw a.space_is_space

  strchug-space : (s : Bytes) → a.strchug (b' ' ∷ s) ≡ a.strchug s
  strchug-space s =
      a.strchug_cons b' ' s
      ∙ ap (λ (b : Bool). if b then a.strchug s else b' ' ∷ s) a.space_is_space

  scan-arguments :
      (e : Error) (w : Bytes) (args : List Bytes)
      → All (λ d. valid_word_char a d ≡ true) w
      → scan a (valid_word_char a) e (w ++ arguments args) ≡ token w (a.strchug (arguments args))
  unfolding scan
  scan-arguments e [] [] h = unfold arguments in rw a.strchug_nil
  scan-arguments e [] (arg ∷ args) h =
      unfold arguments in
      (scan-space (valid_word_char a) e (b'"' ∷ (escape arg ++ (b'"' ∷ arguments args)))
        ∙ ap (token []) (sym (strchug-space (b'"' ∷ (escape arg ++ (b'"' ∷ arguments args))))))
  scan-arguments e (c ∷ w) args h =
      rw (word_char_is_no_space c h.0, h.0, scan) (ap (cons_token c) (scan-arguments e w args h.1))

  pub tokenizer_next_word-send_commandv :
      (command : Bytes) (args : List Bytes)
      → IsWord command
      → tokenizer_next_word a (send_commandv command args)
        ≡ token command (a.strchug (arguments args))
  unfolding send_commandv
  tokenizer_next_word-send_commandv [] args h = absurd h
  tokenizer_next_word-send_commandv (c ∷ w) args h =
      unfold tokenizer_next_word in
      rw (h.0, tokenizer_next_word)
        (ap (cons_token c) (scan-arguments invalid_word_character w args h.1))
