-- ===== src/Common/Bytes.antt =====
-- Texts by their bytes: the order of `str`, and the UTF-8 check of `String::from_utf8`.
use Prim.Native.Nat.{ℕ}
use mathlib.Core.Path.{◌≡◌, refl}
use mathlib.Core.Logic.{◌⊎◌, inl, inr}
use mathlib.Core.Bool.{Bool, true, false, ◌&&◌}
use mathlib.Core.Option.{Option, none, some}
use mathlib.Core.List.{List, [], ◌∷◌}
use native.Mathlib.Omega.{arith}
use dravr_tronc.Common.Tests.{ltb, leb, if◌then◌else◌}

abbrev pub Bytes : Type 0
Bytes = List ℕ

-- `a <= b` for texts: byte by byte, a prefix first.
unfoldable pub text_le : Bytes → Bytes → Bool
text_le [] bs = true
text_le (a ∷ as') [] = false
text_le (a ∷ as') (b ∷ bs) =
    let rest = text_le as' bs in if ltb a b then true else if ltb b a then false else rest

pub text_le_refl : (a : Bytes) → text_le a a ≡ true
unfolding text_le
text_le_refl [] = refl
text_le_refl (a ∷ as') = ground (arith, text_le_refl as')

pub text_le_total : (a b : Bytes) → (text_le a b ≡ true) ⊎ (text_le b a ≡ true)
unfolding text_le
text_le_total [] b = inl refl
text_le_total (a ∷ as') [] = inr refl
text_le_total (a ∷ as') (b ∷ bs) = ground (arith, text_le_total as' bs)

pub text_le_antisym : (a b : Bytes) → text_le a b ≡ true → text_le b a ≡ true → a ≡ b
unfolding text_le
text_le_antisym [] [] h k = refl
text_le_antisym [] (b ∷ bs) h k = ground arith
text_le_antisym (a ∷ as') [] h k = ground arith
text_le_antisym (a ∷ as') (b ∷ bs) h k = ground (arith, text_le_antisym as' bs)

pub text_le_trans : (a b c : Bytes) → text_le a b ≡ true → text_le b c ≡ true → text_le a c ≡ true
unfolding text_le
text_le_trans [] b c h k = refl
text_le_trans (a ∷ as') [] c h k = ground arith
text_le_trans (a ∷ as') (b ∷ bs) [] h k = ground arith
text_le_trans (a ∷ as') (b ∷ bs) (c ∷ cs) h k = ground (arith, text_le_trans as' bs cs)

-- What may follow a first byte: the range of each continuation byte.
abbrev pub continuations : ℕ → Option (List (ℕ × ℕ))
continuations b =
    if ltb b 0x80
    then some []
    else if ltb b 0xc2
    then none
    else if ltb b 0xe0
    then some ((0x80, 0xbf) ∷ [])
    else if ltb b 0xe1
    then some ((0xa0, 0xbf) ∷ (0x80, 0xbf) ∷ [])
    else if ltb b 0xed
    then some ((0x80, 0xbf) ∷ (0x80, 0xbf) ∷ [])
    else if ltb b 0xee
    then some ((0x80, 0x9f) ∷ (0x80, 0xbf) ∷ [])
    else if ltb b 0xf0
    then some ((0x80, 0xbf) ∷ (0x80, 0xbf) ∷ [])
    else if ltb b 0xf1
    then some ((0x90, 0xbf) ∷ (0x80, 0xbf) ∷ (0x80, 0xbf) ∷ [])
    else if ltb b 0xf4
    then some ((0x80, 0xbf) ∷ (0x80, 0xbf) ∷ (0x80, 0xbf) ∷ [])
    else if ltb b 0xf5
    then some ((0x80, 0x8f) ∷ (0x80, 0xbf) ∷ (0x80, 0xbf) ∷ [])
    else none

unfoldable pub utf8_from : List (ℕ × ℕ) → Bytes → Bool
utf8_from [] [] = true
utf8_from ((lo, hi) ∷ need) [] = false
utf8_from [] (b ∷ bs) = elim (continuations b) [ none ↦ false | some need ↦ utf8_from need bs ]
utf8_from ((lo, hi) ∷ need) (b ∷ bs) = (leb lo b && leb b hi) && utf8_from need bs

unfoldable pub is_utf8 : Bytes → Bool
unfolding utf8_from
is_utf8 bs = utf8_from [] bs
