-- ===== src/Attachments/Mime.antt =====
-- crates/mcpmem-core/src/attachments.rs: the MIME rules of `validate_file`.
use Prim.Native.String.{◌∷◌, []}
use Prim.Native.Char.{code}
use mcpmem.Prelude.{
  String, Bool, false, ◌&&◌, ◌||◌, Option, none, some, List, ◌==◌, nat_eq, text_eq, if◌then◌else◌,
  exists_where,
}

-- `rule.strip_suffix("/*")`
unfoldable pub strip_wildcard : String → Option String
strip_wildcard [] = none
strip_wildcard (c ∷ rest) =
    let shorter = strip_wildcard rest in
    if code c == 47 && rest == "*"
    then some []
    else elim shorter [ none ↦ none | some s ↦ some (c ∷ s) ]

-- `mime.strip_prefix(prefix)`
unfoldable pub strip_prefix : String → String → Option String
strip_prefix [] mime = some mime
strip_prefix (p ∷ prefix) [] = none
strip_prefix (p ∷ prefix) (c ∷ mime) =
    let rest = strip_prefix prefix mime in if code p == code c then rest else none

unfoldable pub starts_with_slash : String → Bool
starts_with_slash [] = false
starts_with_slash (c ∷ rest) = code c == 47

unfoldable pub is_below : Option String → String → Bool
unfolding strip_prefix starts_with_slash
is_below none mime = false
is_below (some prefix) mime = elim (strip_prefix prefix mime) [
  | none ↦ false
  | some suffix ↦ starts_with_slash suffix
]

unfoldable pub is_allowed : List String → String → Bool
unfolding is_below strip_wildcard
is_allowed allow_mime mime =
    exists_where (λ rule. rule == mime || is_below (strip_wildcard rule) mime) allow_mime
