-- ===== src/Prelude/Texts.antt =====
-- Text operations of Python that the program uses.
use Prim.Native.Char.{Char, code}
use Prim.Native.String.{String}
use mathlib.Core.Bool.{Bool, ◌&&◌, ◌||◌}
use Prim.Native.Nat.{ℕ}
use teleautomation_messaging.Prelude.Tests.{if◌then◌else◌, leb, ◌==◌}

-- `c.isspace()`
abbrev pub is_space : ℕ → Bool
is_space c =
    (leb 9 c && leb c 13)
    || (leb 28 c && leb c 32)
    || c == 0x85
    || c == 0xa0
    || c == 0x1680
    || (leb 0x2000 c && leb c 0x200a)
    || c == 0x2028
    || c == 0x2029
    || c == 0x202f
    || c == 0x205f
    || c == 0x3000

unfoldable pub strip_left : String → String
strip_left String.[] = String.[]
strip_left (String.◌∷◌ c s) = if is_space (code c) then strip_left s else String.◌∷◌ c s

abbrev join_right : Char → String → String
join_right c String.[] = if is_space (code c) then String.[] else String.◌∷◌ c String.[]
join_right c (String.◌∷◌ d s) = String.◌∷◌ c (String.◌∷◌ d s)

unfoldable pub strip_right : String → String
strip_right String.[] = String.[]
strip_right (String.◌∷◌ c s) = join_right c (strip_right s)

-- `s.strip()`
unfoldable pub strip : String → String
unfolding strip_left strip_right
strip s = strip_right (strip_left s)

-- `s[:n]`
unfoldable pub slice_to : ℕ → String → String
slice_to ℕ.zero s = String.[]
slice_to (ℕ.suc n) String.[] = String.[]
slice_to (ℕ.suc n) (String.◌∷◌ c s) = String.◌∷◌ c (slice_to n s)
