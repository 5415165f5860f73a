-- ===== src/Go/Unicode.antt =====
-- Text as Go's UTF-8 bytes: lengths and cuts in bytes, and the case map over code points.
use cindex.Prelude.{ℕ, zero, suc, ◌+◌, ◌-◌, [], ◌∷◌, ltb, leb, if◌then◌else◌, map, Text}

-- utf8.RuneLen
unfoldable pub rune_len : ℕ → ℕ
rune_len c = if ltb c 0x80 then 1 else if ltb c 0x800 then 2 else if ltb c 0x10000 then 3 else 4

-- len(s)
unfoldable pub byte_len : Text → ℕ
unfolding rune_len
byte_len [] = 0
byte_len (c ∷ s) = rune_len c + byte_len s

-- The code points that `n` bytes of a code point decode to: one U+FFFD for each.
broken : ℕ → Text
broken zero = []
broken (suc n) = 0xfffd ∷ broken n

-- s[:n] for n ≤ len(s), decoded: a code point that the cut splits leaves broken bytes.
unfoldable pub byte_take : ℕ → Text → Text
unfolding rune_len broken
byte_take n [] = []
byte_take n (c ∷ s) = if leb (rune_len c) n then c ∷ byte_take (n - rune_len c) s else broken n

-- strings.ToLower, over the table `lower` of package unicode.
abbrev pub to_lower : (ℕ → ℕ) → Text → Text
to_lower lower = map lower
