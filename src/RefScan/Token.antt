-- ===== src/RefScan/Token.antt =====
-- `_target_pattern` of src/companion/refscan.py, as `search` and `subn` of `re` run it: the target as a
-- whole token. The target is not empty, as the routes see to.
pub mod Laws
use hactl_companion.Base.{
  ℕ, zero, suc, ◌-◌, Bool, true, false, not, ◌&&◌, ◌||◌, [], ◌∷◌, ◌++◌, Text, starts_with, length,
  drop, if◌then◌else◌,
}

-- `\b` between two characters, of which it is known whether each is one of a word.
unfoldable pub boundary : Bool → Bool → Bool
boundary true word = not word
boundary false word = word

module _ (is_word : ℕ → Bool) where
  unfoldable pub first_word : Text → Bool
  first_word [] = false
  first_word (c ∷ s) = is_word c

  unfoldable pub last_word : Text → Bool
  last_word [] = false
  last_word (c ∷ []) = is_word c
  last_word (c ∷ d ∷ s) = last_word (d ∷ s)

  -- Whether the pattern matches at the beginning of `s`; `before` tells of the character before it.
  unfoldable pub token_at : Bool → Text → Text → Bool
  unfolding boundary first_word last_word
  token_at before target s =
      starts_with s target
      && boundary before (first_word s)
      && boundary (last_word target) (first_word (drop (length target) s))

  -- `pattern.search(s)`, from a position on.
  unfoldable pub search_from : Bool → Text → Text → Bool
  search_from before target [] = false
  search_from before target (c ∷ s) =
      token_at before target (c ∷ s) || search_from (is_word c) target s

  -- `pattern.subn` from a position on, `skip` characters of the last match being left.
  unfoldable pub subn_from : ℕ → Bool → Text → Text → Text → Text × ℕ
  subn_from skip before target replacement [] = ([], 0)
  subn_from (suc skip) before target replacement (c ∷ s) =
      subn_from skip (is_word c) target replacement s
  subn_from zero before target replacement (c ∷ s) =
      let next = subn_from (length target - 1) (is_word c) target replacement s in
      let kept = subn_from 0 (is_word c) target replacement s in
      if token_at before target (c ∷ s)
      then (replacement ++ next.0, suc next.1)
      else (c ∷ kept.0, kept.1)

  -- `pattern.search(s)`, `pattern.subn(…, s)` and `pattern.sub(…, s)`.
  unfoldable pub search : Text → Text → Bool
  unfolding search_from token_at
  search target s = search_from false target s

  unfoldable pub subn : Text → Text → Text → Text × ℕ
  unfolding subn_from token_at
  subn target replacement s = subn_from 0 false target replacement s
