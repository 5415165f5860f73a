-- ===== src/Service/ScholarlyText.antt =====
-- backend/internal/service/text.go. html.UnescapeString, the case table and the letters and digits of
-- package unicode are parameters.
use cindex.Prelude.{
  ℕ, Bool, true, false, ◌&&◌, ◌||◌, not, Option, none, some, [], ◌∷◌, ltb, ◌==◌, if◌then◌else◌,
  Text, codes, is_empty,
}
use cindex.Go.Strings.{trim_space, trim_right_set, fields, join}
use cindex.Go.Unicode.{to_lower, byte_len, byte_take}

is_control : ℕ → Bool
is_control r = (ltb r 0x20 && not (r == 9) && not (r == 10) && not (r == 13)) || r == 0x7f

-- The loop of NormalizeScholarlyText: tags and control characters become spaces.
unfoldable pub clear_markup : Bool → Text → Text
unfolding is_control
clear_markup in_tag [] = []
clear_markup true (r ∷ s) =
    let inside = clear_markup true s in
    let outside = clear_markup false s in if r == 62 then 32 ∷ outside else inside
clear_markup false (r ∷ s) =
    let inside = clear_markup true s in
    let outside = clear_markup false s in
    if r == 60 then inside else if is_control r then 32 ∷ outside else r ∷ outside

is_cut : ℕ → Bool
is_cut c = c == 32 || c == 9 || c == 10

-- The cut to at most `max` bytes; `none` is a negative maxLength.
cut_bytes : Option ℕ → Text → Text
cut_bytes none s = s
cut_bytes (some max) s = if ltb max (byte_len s) then trim_right_set is_cut (byte_take max s) else s

module _ (unescape : Text → Text) where
  -- NormalizeScholarlyText
  unfoldable pub normalize_scholarly_text : Option ℕ → Text → Text
  unfolding clear_markup cut_bytes is_cut fields join
  normalize_scholarly_text max_length value =
      let text = trim_space (unescape value) in
      if is_empty text
      then []
      else cut_bytes max_length (join (codes " ") (fields (clear_markup false text)))

  -- The code points that are kept, and a space for each other one.
  words_only : (ℕ → Bool) → Text → Text
  words_only is_word [] = []
  words_only is_word (r ∷ s) = (if is_word r || r == 95 then r else 32) ∷ words_only is_word s

  -- CanonicalTextKey; `is_word` is unicode.IsLetter or unicode.IsDigit.
  unfoldable pub canonical_text_key : (ℕ → Bool) → (ℕ → ℕ) → Text → Text
  unfolding normalize_scholarly_text words_only fields join
  canonical_text_key is_word lower value =
      let text = normalize_scholarly_text none value in
      if is_empty text
      then []
      else join (codes " ") (fields (words_only is_word (to_lower lower text)))

  -- NormalizeDOI
  unfoldable pub normalize_doi : (ℕ → ℕ) → Text → Text
  unfolding normalize_scholarly_text
  normalize_doi lower value = to_lower lower (normalize_scholarly_text none value)
