-- ===== src/Jobs/Keys.antt =====
-- `sortedKeys` of backend/internal/jobs/searchjob.go: the keys of a map, sorted by insertion.
pub mod Order
use cindex.Prelude.{
  Bool, true, false, ◌&&◌, ◌||◌, List, [], ◌∷◌, map, ltb, ◌==◌, if◌then◌else◌, Text,
}
use mathlib.Core.List.{reverse}

-- The order of Go strings: that of their bytes, which UTF-8 makes that of the code points.
unfoldable pub text_ltb : Text → Text → Bool
text_ltb [] [] = false
text_ltb [] (b ∷ t) = true
text_ltb (a ∷ s) [] = false
text_ltb (a ∷ s) (b ∷ t) = ltb a b || (a == b && text_ltb s t)

-- The inner loop: `key` sinks below the sorted keys in front of it, the last one first.
unfoldable pub sink : Text → List Text → List Text
sink key [] = key ∷ []
sink key (last ∷ before) = if text_ltb key last then last ∷ sink key before else key ∷ last ∷ before

-- The outer loop; `front` is the sorted front of the array, backwards.
pub sort_from : List Text → List Text → List Text
sort_from front [] = reverse front
sort_from front (key ∷ keys) = sort_from (sink key front) keys

-- The keys come in the order of the map's iteration.
unfoldable pub sorted_keys {ℓ} : {V : Type ℓ} → List (Text × V) → List Text
unfolding sort_from sink
sorted_keys m = sort_from [] (map (λ e. e.0) m)
