-- ===== src/Base/Utf8.antt =====
-- `String::from_utf8` of the standard library: which bytes are UTF-8.
use Prim.Native.Nat.{ℕ, zero, suc}
use mathlib.Core.Bool.{Bool, true, false, ◌&&◌}
use mathlib.Core.List.{List, [], ◌∷◌}
use mathlib.Core.Option.{Option, none, some}
use mathlib.Core.Path.{◌≡◌}
use native.Mathlib.Omega.{arith}
use pyrsia.Base.Tests.{ltb, leb, ◌==◌, if◌then◌else◌}

-- What a first byte asks for: how many bytes follow, and the bounds of the next of them.
utf8_first : ℕ → Option (ℕ × ℕ × ℕ)
utf8_first b =
    if ltb b 0x80
    then some (0, 0, 0)
    else if ltb b 0xc2
    then none
    else if ltb b 0xe0
    then some (1, 0x80, 0xbf)
    else if b == 0xe0
    then some (2, 0xa0, 0xbf)
    else if b == 0xed
    then some (2, 0x80, 0x9f)
    else if ltb b 0xf0
    then some (2, 0x80, 0xbf)
    else if b == 0xf0
    then some (3, 0x90, 0xbf)
    else if ltb b 0xf4
    then some (3, 0x80, 0xbf)
    else if b == 0xf4
    then some (3, 0x80, 0x8f)
    else none

-- `n` bytes are to follow, the next between `lo` and `hi`.
utf8_from : ℕ → ℕ → ℕ → List ℕ → Bool
unfolding utf8_first
utf8_from zero lo hi [] = true
utf8_from (suc n) lo hi [] = false
utf8_from zero lo hi (b ∷ s) = elim (utf8_first b) [
  | none ↦ false
  | some (n, l, h) ↦ utf8_from n l h s
]
utf8_from (suc n) lo hi (b ∷ s) = leb lo b && leb b hi && utf8_from n 0x80 0xbf s

unfoldable pub is_utf8 : List ℕ → Bool
unfolding utf8_from
is_utf8 s = utf8_from 0 0 0 s

unfoldable pub from_utf8 : List ℕ → Option (List ℕ)
from_utf8 s = if is_utf8 s then some s else none

pub from_utf8-is_utf8 : (s : List ℕ) → is_utf8 s ≡ true → from_utf8 s ≡ some s
unfolding from_utf8
from_utf8-is_utf8 s h = ground arith
