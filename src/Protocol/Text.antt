-- ===== src/Protocol/Text.antt =====
-- The characters of a native text.
use Prim.Native.Char.{code}
use Prim.Native.String.{String, [], ◌∷◌}
use mathlib.Core.List.{[] as []ᴸ, ◌∷◌ as ◌∷ᴸ◌}
use dravr_tronc.Guard.Text.{Text}

unfoldable pub text_of : String → Text
text_of [] = []ᴸ
text_of (c ∷ s) = code c ∷ᴸ text_of s
