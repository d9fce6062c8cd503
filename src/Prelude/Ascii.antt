-- ===== src/Prelude/Ascii.antt =====
-- GLib's functions on ASCII whitespace as its documentation describes them, to instantiate parameters.
use Prim.Native.Nat.{ℕ, ◌≤◌}
use mathlib.Core.Path.{◌≡◌, refl}
use mathlib.Core.Logic.{inl, inr}
use mathlib.Core.Bool.{Bool, true, ◌&&◌, ◌||◌, not}
use mathlib.Core.List.{[], ◌∷◌, ◌++◌}
use native.Mathlib.Omega.{arith}
use mpdcron.Prelude.Tests.{leb, ◌==◌, if◌then◌else◌, Bool-cases}
use mpdcron.Prelude.Lists.{is_empty, is_empty-append_last}
use mpdcron.Prelude.Text.{Bytes}

-- g_ascii_isspace
abbrev pub is_space : ℕ → Bool
is_space c = c == 32 || (leb 9 c && leb c 13 && not (c == 11))

pub space_le : (c : ℕ) → is_space c ≡ true → c ≤ 32
space_le c h = ground arith

-- g_strchug
unfoldable pub chug : Bytes → Bytes
chug [] = []
chug (c ∷ s) = let rest = chug s in if is_space c then rest else c ∷ s

pub chug_nil : chug [] ≡ []
unfolding chug
chug_nil = refl

pub chug_cons : (c : ℕ) (s : Bytes) → chug (c ∷ s) ≡ (if is_space c then chug s else c ∷ s)
unfolding chug
chug_cons c s = refl

-- g_strchomp
unfoldable pub chomp : Bytes → Bytes
chomp [] = []
chomp (c ∷ s) = let rest = chomp s in if is_empty rest && is_space c then [] else c ∷ rest

pub chomp_nil : chomp [] ≡ []
unfolding chomp
chomp_nil = refl

pub chomp_snoc :
    (s : Bytes) (c : ℕ) → chomp (s ++ (c ∷ [])) ≡ (if is_space c then chomp s else s ++ (c ∷ []))
unfolding chomp
chomp_snoc [] c = refl
chomp_snoc (d ∷ s) c = elim (Bool-cases (is_space c)) [
  | inl space ↦ rw (chomp, chomp_snoc s c, space)
  | inr other ↦ rw (chomp, chomp_snoc s c, other, is_empty-append_last s c)
]
