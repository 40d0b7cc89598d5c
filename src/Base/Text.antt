-- ===== src/Base/Text.antt =====
-- Equality of texts, under a name that does not clash with the test on numbers.
use Prim.Native.String.{String}
use text.Mathlib.Text.{◌==◌}
use text.Mathlib.TextEquality.{eq_iff}
use merge_mining_monitor.Base.{Bool, true, false, List, [], ◌∷◌, ◌≡◌, ◌↔◌, ◌||◌}

-- `==` of two texts
unfoldable pub same_text : String → String → Bool
same_text s t = s == t

pub same_text_iff : (s t : String) → (same_text s t ≡ true) ↔ (s ≡ t)
unfolding same_text
same_text_iff s t = eq_iff s t

-- `[&str]::contains`
unfoldable pub contains : List String → String → Bool
unfolding same_text
contains [] s = false
contains (t ∷ ts) s = same_text t s || contains ts s
