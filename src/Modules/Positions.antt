-- ===== src/Modules/Positions.antt =====
-- Lists by position.
use mpdcron.Prelude.{
  ℕ, zero, suc, ◌+◌, ◌<◌, ◌≡◌, refl, ap, none, some, List, [], ◌∷◌, drop, length, arith,
}
use mpdcron.Modules.{remove_at, get_elem?}

module _ {ℓ} {A : Type ℓ} where
  pub length-remove_at :
      (xs : List A) (n : ℕ) (x : A)
      → get_elem? xs n ≡ some x
      → suc (length (remove_at n xs)) ≡ length xs
  unfolding get_elem? remove_at
  length-remove_at [] n x h = cc
  length-remove_at (y ∷ ys) zero x h = refl
  length-remove_at (y ∷ ys) (suc n) x h = ap suc (length-remove_at ys n x h)

  pub get_elem?-lt : (xs : List A) (n : ℕ) (x : A) → get_elem? xs n ≡ some x → n < length xs
  unfolding get_elem?
  get_elem?-lt [] n x h = cc
  get_elem?-lt (y ∷ ys) zero x h = omega arith
  get_elem?-lt (y ∷ ys) (suc n) x h = omega (arith, get_elem?-lt ys n x h)

  -- What stands at a position and behind it, read off what is left there.
  pub get_elem?-drop_end : (xs : List A) (n : ℕ) → drop n xs ≡ [] → get_elem? xs n ≡ none
  unfolding get_elem?
  get_elem?-drop_end [] n h = refl
  get_elem?-drop_end (y ∷ ys) zero h = cc
  get_elem?-drop_end (y ∷ ys) (suc n) h = get_elem?-drop_end ys n h

  pub get_elem?-drop :
      (xs : List A) (n : ℕ) (x : A) (rest : List A) → drop n xs ≡ x ∷ rest → get_elem? xs n ≡ some x
  unfolding get_elem?
  get_elem?-drop [] zero x rest h = cc
  get_elem?-drop [] (suc n) x rest h = cc
  get_elem?-drop (y ∷ ys) zero x rest h = cc
  get_elem?-drop (y ∷ ys) (suc n) x rest h = get_elem?-drop ys n x rest h

  drop-suc :
      (xs : List A) (n : ℕ) (x : A) (rest : List A) → drop n xs ≡ x ∷ rest → drop (suc n) xs ≡ rest
  drop-suc [] zero x rest h = cc
  drop-suc [] (suc n) x rest h = cc
  drop-suc (y ∷ ys) zero x rest h = cc
  drop-suc (y ∷ ys) (suc n) x rest h = drop-suc ys n x rest h

  pub drop-next :
      (xs : List A) (n : ℕ) (x : A) (rest : List A) → drop n xs ≡ x ∷ rest → drop (n + 1) xs ≡ rest
  drop-next xs n x rest h =
      let next : n + 1 ≡ suc n = omega arith in rw next (drop-suc xs n x rest h)
