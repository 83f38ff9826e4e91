-- ===== src/Oauth/Registration/Urls.antt =====
-- crates/mcpmem-oauth/src/registration.rs: host and the text functions that it calls. A character is
-- compared by its code point.
use Prim.Native.Nat.{ℕ, ◌+◌}
use Prim.Native.Char.{code}
use Prim.Native.String.{String, [], ◌∷◌, ◌++◌}
use text.Mathlib.TextLemmas.{append_assoc, cons-append, nil-append, append-nil}
use text.Mathlib.TextEquality.{Char-path}
use mcpmem.Prelude.{
  ◌≡◌, ◌≢◌, sym, ap, ◌∙◌, subst, Bool, true, false, ◌&&◌, ◌||◌, not, Option, none, some, leb, ◌==◌,
  nat_eq, text_eq, if◌then◌else◌, arith, Bool-cases, Option-cases, inl, inr, ◌⊎◌,
}

-- `str::strip_prefix`
unfoldable pub strip_prefix : String → String → Option String
strip_prefix [] s = some s
strip_prefix (p ∷ prefix) [] = none
strip_prefix (p ∷ prefix) (c ∷ s) =
    let rest = strip_prefix prefix s in if code p == code c then rest else none

-- `/`, `?` and `#`
abbrev pub ends_authority : ℕ → Bool
ends_authority c = c == 47 || c == 63 || c == 35

-- `split(['/', '?', '#']).next()`
unfoldable pub authority : String → String
authority [] = []
authority (c ∷ s) = let rest = authority s in if ends_authority (code c) then [] else c ∷ rest

unfoldable pub has_code : ℕ → String → Bool
has_code n [] = false
has_code n (c ∷ s) = code c == n || has_code n s

abbrev pub is_digit : ℕ → Bool
is_digit c = leb 48 c && leb c 57

unfoldable pub all_digits : String → Bool
all_digits [] = true
all_digits (c ∷ s) = is_digit (code c) && all_digits s

-- `rsplit_once(':')`
unfoldable pub rsplit_colon : String → Option (String × String)
rsplit_colon [] = none
rsplit_colon (c ∷ s) = elim (rsplit_colon s) [
  | some (head, tail) ↦ some (c ∷ head, tail)
  | none ↦ if code c == 58 then some ([], s) else none
]

abbrev pub to_lower : ℕ → ℕ
to_lower c = if leb 65 c && leb c 90 then c + 32 else c

unfoldable pub eq_ignore_ascii_case : String → String → Bool
eq_ignore_ascii_case [] [] = true
eq_ignore_ascii_case [] (d ∷ t) = false
eq_ignore_ascii_case (c ∷ s) [] = false
eq_ignore_ascii_case (c ∷ s) (d ∷ t) =
    to_lower (code c) == to_lower (code d) && eq_ignore_ascii_case s t

-- The authority without its port.
abbrev pub without_port : String → String
without_port text = elim (rsplit_colon text) [
  | none ↦ text
  | some (head, port) ↦ if not (port == "") && all_digits port then head else text
]

abbrev pub host_of : String → Option String
host_of text =
    if has_code 64 text
    then none
    else if without_port text == ""
    then none
    else some (without_port text)

unfoldable pub host : String → String → Option String
unfolding strip_prefix authority has_code all_digits rsplit_colon
host url scheme = elim (strip_prefix scheme url) [
  | none ↦ none
  | some rest ↦ host_of (authority rest)
]

-- No character of the text ends an authority or marks user information.
pub IsHostText : String → Type 0
IsHostText [] = Unit {0}
IsHostText (c ∷ s) = (ends_authority (code c) ≡ false) × (code c ≢ 64) × IsHostText s

-- What follows a host: nothing, a port, or what ends the authority.
pub FollowsHost : String → Type 0
FollowsHost [] = Unit {0}
FollowsHost (c ∷ s) = (code c ≡ 58) ⊎ (ends_authority (code c) ≡ true)

strip_prefix-append :
    (prefix s rest : String) → strip_prefix prefix s ≡ some rest → s ≡ prefix ++ rest
unfolding strip_prefix
strip_prefix-append [] s rest h = let same : s ≡ rest = ground arith in same ∙ sym (nil-append rest)
strip_prefix-append (p ∷ prefix) [] rest h = let no : ⊥ = ground arith in absurd no
strip_prefix-append (p ∷ prefix) (c ∷ s) rest h = elim (Bool-cases (code p == code c)) [
  | inr differs ↦ let no : ⊥ = ground (arith, differs) in absurd no
  | inl agree ↦
      let codes : code p ≡ code c = ground (arith, agree) in
      let below = strip_prefix-append prefix s rest (rw (strip_prefix, agree) at h) in
      ap (◌∷◌ c) below
      ∙ ap (λ d. d ∷ (prefix ++ rest)) (sym (Char-path p c codes))
      ∙ sym (cons-append p prefix rest)
]

authority-rest : (s : String) → (rest : String) × (s ≡ authority s ++ rest) × FollowsHost rest
unfolding authority FollowsHost
authority-rest [] = ([], sym (nil-append []), tt)
authority-rest (c ∷ s) = elim (Bool-cases (ends_authority (code c))) [
  | inl ends ↦ rw (authority, ends) (c ∷ s, sym (nil-append (c ∷ s)), inr ends)
  | inr goes ↦
      let (rest, same, follows) = authority-rest s in
      rw (authority, goes) (rest, ap (◌∷◌ c) same ∙ sym (cons-append c (authority s) rest), follows)
]

-- Up to its end, an authority without `@` is the text of a host and its port.
authority-IsHostText : (s : String) → has_code 64 (authority s) ≡ false → IsHostText (authority s)
unfolding authority has_code IsHostText
authority-IsHostText [] h = tt
authority-IsHostText (c ∷ s) h = elim (Bool-cases (ends_authority (code c))) [
  | inl ends ↦ rw (authority, ends) tt
  | inr goes ↦
      let clean : (code c == 64 || has_code 64 (authority s)) ≡ false = rw (authority, goes) at h in
      rw (authority, goes)
        (goes, (λ e. ground (arith, e, clean)), authority-IsHostText s (ground (arith, clean)))
]

rsplit_colon-append :
    (s head tail : String)
    → rsplit_colon s ≡ some (head, tail)
    → (rest : String) × (s ≡ head ++ rest) × FollowsHost rest
unfolding rsplit_colon FollowsHost
rsplit_colon-append [] head tail h = let no : ⊥ = ground arith in absurd no
rsplit_colon-append (c ∷ s) head tail h = elim (Option-cases (rsplit_colon s)) [
  | inr ((before, after), found) ↦
      let (rest, same, follows) = rsplit_colon-append s before after found in
      let is_head : c ∷ before ≡ head = ground (arith, found) in
      (
        rest,
        ap (◌∷◌ c) same ∙ sym (cons-append c before rest) ∙ ap (λ q. q ++ rest) is_head,
        follows,
      )
  | inl missing ↦ elim (Bool-cases (code c == 58)) [
    | inr other ↦ let no : ⊥ = ground (arith, missing, other) in absurd no
    | inl colon ↦
        let is_head : [] ≡ head = ground (arith, missing, colon) in
        (
          c ∷ s,
          sym (nil-append (c ∷ s)) ∙ ap (λ q. q ++ (c ∷ s)) is_head,
          inl (ground (arith, colon)),
        )
  ]
]

IsHostText-append : (s t : String) → IsHostText (s ++ t) → IsHostText s
unfolding IsHostText
IsHostText-append [] t h = tt
IsHostText-append (c ∷ s) t h =
    let (goes, plain, rest) = subst IsHostText (cons-append c s t) h in
    (goes, plain, IsHostText-append s t rest)

FollowsHost-append : (s t : String) → FollowsHost s → FollowsHost t → FollowsHost (s ++ t)
unfolding FollowsHost
FollowsHost-append [] t a b = subst FollowsHost (sym (nil-append t)) b
FollowsHost-append (c ∷ s) t a b = subst FollowsHost (sym (cons-append c s t)) a

without_port-append :
    (text : String) → (rest : String) × (text ≡ without_port text ++ rest) × FollowsHost rest
unfolding FollowsHost
without_port-append text = elim (Option-cases (rsplit_colon text)) [
  | inl missing ↦ rw (without_port, missing) ([], sym (append-nil text), tt)
  | inr ((head, port), found) ↦ elim (Bool-cases (not (port == "") && all_digits port)) [
    | inl numbered ↦ rw (without_port, found, numbered) (rsplit_colon-append text head port found)
    | inr other ↦ rw (without_port, found, other) ([], sym (append-nil text), tt)
  ]
]

-- What `host` returns stands in the URL right after the scheme, and what ends it is a port or the end of
-- the authority.
pub record HostOf (url scheme h : String) : Type 0 where
  pub rest : String
  pub whole : url ≡ scheme ++ (h ++ rest)
  pub text : IsHostText h
  pub follows : FollowsHost rest
  pub named : h ≢ ""

pub host-HostOf : (url scheme h : String) → host url scheme ≡ some h → HostOf url scheme h
unfolding host
host-HostOf url scheme h e = elim (Option-cases (strip_prefix scheme url)) [
  | inl missing ↦ let no : ⊥ = ground (arith, missing) in absurd no
  | inr (after, found) ↦ elim (Bool-cases (has_code 64 (authority after))) [
    | inl user ↦ let no : ⊥ = ground (arith, found, user) in absurd no
    | inr plain ↦ elim (Bool-cases (without_port (authority after) == "")) [
      | inl empty ↦ let no : ⊥ = ground (arith, found, plain, empty) in absurd no
      | inr named ↦
          let (rest, split, follows) = authority-rest after in
          let (port, divided, starts) = without_port-append (authority after) in
          let same : without_port (authority after) ≡ h = ground (arith, found, plain, named) in
          let clean = authority-IsHostText after plain in
          subst (HostOf url scheme) same (record {
            rest = port ++ rest;
            whole =
                strip_prefix-append scheme url after found
                ∙ ap (◌++◌ scheme) (
                    split
                    ∙ ap (λ q. q ++ rest) divided
                    ∙ append_assoc (without_port (authority after)) port rest);
            text =
                IsHostText-append (without_port (authority after)) port
                  (subst IsHostText divided clean);
            follows = FollowsHost-append port rest starts follows;
            named = λ e. ground (arith, named, e);
          })
    ]
  ]
]
