-- ===== src/Prelude/Texts.antt =====
-- The equality of texts, `===` on strings.
use Prim.Native.String.{String}
use text.Mathlib.Text.{◌==◌}
use text.Mathlib.TextEquality.{eq_iff}
use fpl_radar.Prelude.{◌≡◌, ◌↔◌, Bool, true}

abbrev pub same_text : String → String → Bool
same_text s t = s == t

pub same_text_iff : (s t : String) → (same_text s t ≡ true) ↔ (s ≡ t)
same_text_iff s t = eq_iff s t
