-- ===== src/Prelude/Text.antt =====
-- What the source asks of a text: `trim().is_empty()`, `chars().any(char::is_control)`, `len()`.
use Prim.Native.Nat.{ℕ}
use Prim.Native.Char.{code}
use Prim.Native.String
use Prim.Native.String.{String, [], ◌∷◌}
use mathlib.Core.Bool.{Bool, true, false, ◌&&◌, ◌||◌}
use mcpmem.Prelude.Tests.{leb, ◌==◌, nat_eq}

-- The characters of Unicode's White_Space, which `trim` strips.
unfoldable pub is_whitespace : ℕ → Bool
is_whitespace c =
    (leb 0x09 c && leb c 0x0d)
    || c == 0x20
    || c == 0x85
    || c == 0xa0
    || c == 0x1680
    || (leb 0x2000 c && leb c 0x200a)
    || c == 0x2028
    || c == 0x2029
    || c == 0x202f
    || c == 0x205f
    || c == 0x3000

-- Unicode's category Cc.
unfoldable pub is_control : ℕ → Bool
is_control c = leb c 0x1f || (leb 0x7f c && leb c 0x9f)

unfoldable pub is_blank : String → Bool
unfolding is_whitespace
is_blank [] = true
is_blank (c ∷ s) = is_whitespace (code c) && is_blank s

unfoldable pub has_control : String → Bool
unfolding is_control
has_control [] = false
has_control (c ∷ s) = is_control (code c) || has_control s

-- The length in bytes of UTF-8.
abbrev pub byte_len : String → ℕ
byte_len s = String.len s
