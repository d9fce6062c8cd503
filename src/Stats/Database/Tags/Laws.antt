-- ===== src/Stats/Database/Tags/Laws.antt =====
-- The text of the tags of a row stands for a list of tags, and remove_tag takes a tag out of it.
use mpdcron.Prelude.{
  ◌≡◌, ◌≢◌, refl, ap, ◌∙◌, Bytes, bytes_eq, true, false, Bool-cases, inl, inr, List, [], ◌∷◌, ◌++◌,
  All, is_empty, if◌then◌else◌, arith,
}
use mpdcron.Stats.Database.Tags.{Split, colon, keep_tags, remove_tag, has_colon, validate_tag}

-- Each tag with a colon behind it.
abbrev behind_colons : List Bytes → Bytes
behind_colons [] = []
behind_colons (t ∷ ts) = t ++ (colon ∷ behind_colons ts)

-- The column `tags` of a row with these tags.
abbrev pub tags_column : List Bytes → Bytes
tags_column ts = colon ∷ behind_colons ts

abbrev pub without : Bytes → List Bytes → List Bytes
without tag [] = []
without tag (t ∷ ts) = let rest = without tag ts in if bytes_eq t tag then rest else t ∷ rest

-- A tag that validate_tag takes.
abbrev pub IsTag : Bytes → Type 0
IsTag t = validate_tag t ≡ true

has_colon-All : (s : Bytes) → has_colon s ≡ false → All (λ c. c ≢ colon) s
unfolding has_colon
has_colon-All [] h = tt
has_colon-All (c ∷ s) h = ((λ e. absurd (ground (arith, e))), has_colon-All s (ground arith))

IsTag-All : (t : Bytes) → IsTag t → All (λ c. c ≢ colon) t
unfolding validate_tag
IsTag-All t h = has_colon-All t (ground arith)

module _ (g : Split) where
  pieces : List Bytes → List Bytes
  pieces ts = if is_empty (behind_colons ts) then [] ∷ [] else g.strsplit (behind_colons ts)

  pieces-cons : (t : Bytes) (ts : List Bytes) → IsTag t → pieces (t ∷ ts) ≡ t ∷ pieces ts
  unfolding pieces
  pieces-cons [] ts h = absurd (unfold validate_tag in ground arith)
  pieces-cons (c ∷ t) ts h = g.strsplit_colon (c ∷ t) (behind_colons ts) (IsTag-All (c ∷ t) h)

  keep_tags-cons :
      (tag t : Bytes) (ps : List Bytes)
      → IsTag t
      → keep_tags tag (t ∷ ps)
        ≡ (if bytes_eq t tag then keep_tags tag ps else t ++ (colon ∷ keep_tags tag ps))
  unfolding keep_tags
  keep_tags-cons tag [] ps h = absurd (unfold validate_tag in ground arith)
  keep_tags-cons tag (c ∷ t) ps h = refl

  keep_tags-pieces :
      (tag : Bytes) (ts : List Bytes)
      → All IsTag ts
      → keep_tags tag (pieces ts) ≡ behind_colons (without tag ts)
  keep_tags-pieces tag [] h = unfold pieces keep_tags in refl
  keep_tags-pieces tag (t ∷ ts) h =
      ap (keep_tags tag) (pieces-cons t ts h.0)
      ∙ keep_tags-cons tag t (pieces ts) h.0
      ∙ elim (Bool-cases (bytes_eq t tag)) [
        | inl same ↦ rw (same) (keep_tags-pieces tag ts h.1)
        | inr other ↦
            rw (other) (ap (λ (s : Bytes). t ++ (colon ∷ s)) (keep_tags-pieces tag ts h.1))
      ]

  -- If the text of the tags of a row is a colon and then each of a list of valid tags with a colon
  -- behind it, then remove_tag makes of it the text, of the same form, of that list without the tag
  -- to remove.
  pub remove_tag-tags_column :
      (tag : Bytes) (ts : List Bytes)
      → All IsTag ts
      → remove_tag g (tags_column ts) tag ≡ tags_column (without tag ts)
  unfolding remove_tag keep_tags pieces
  remove_tag-tags_column tag ts h =
      ap (λ ps. colon ∷ keep_tags tag ps) (g.strsplit_colon [] (behind_colons ts) tt)
      ∙ ap (λ (s : Bytes). colon ∷ s) (keep_tags-pieces tag ts h)
