-- ===== src/Base/Keys.antt =====
-- The order of keys in a store: that of their text. A pair is a key of two parts.
use Prim.Native.String.{compare}
use Prim.Native.Nat.{Ordering}
use Prim.Native.String
use Prim.Native.String.{String}
use mathlib.Core.Bool.{Bool, true, false}

unfoldable pub text_before : String → String → Bool
text_before s t = elim (compare s t) [ Ordering.lt ↦ true | _ ↦ false ]

unfoldable pub pair_before : String × String → String × String → Bool
unfolding text_before
pair_before (r, i) (s, j) =
    text_before (String.◌++◌ r (String.◌++◌ ":" i)) (String.◌++◌ s (String.◌++◌ ":" j))
