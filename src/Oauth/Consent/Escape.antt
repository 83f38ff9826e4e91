-- ===== src/Oauth/Consent/Escape.antt =====
-- crates/mcpmem-oauth/src/consent.rs: escape_html, by which every value reaches the page.
use Prim.Native.Nat.{ℕ}
use Prim.Native.Char.{Char, code}
use Prim.Native.String.{String, [], ◌∷◌, ◌++◌}
use text.Mathlib.TextLemmas.{cons-append, nil-append}
use mcpmem.Prelude.{
  ◌≡◌, refl, sym, ap, ◌∙◌, subst, ℕ_discrete, Bool, false, ◌&&◌, ◌||◌, leb, ◌==◌, nat_eq,
  if◌then◌else◌, if_case, arith, inl, inr, ◌⊎◌,
}
use mcpmem.Oauth.Registration.Urls.{has_code}

-- The controls of the direction of text.
abbrev pub is_bidi : ℕ → Bool
is_bidi c =
    c == 0x61c
    || c == 0x200e
    || c == 0x200f
    || (leb 0x202a c && leb c 0x202e)
    || (leb 0x2066 c && leb c 0x2069)

unfoldable pub escaped : Char → String
escaped c =
    if code c == 38
    then "&amp;"
    else if code c == 60
    then "&lt;"
    else if code c == 62
    then "&gt;"
    else if code c == 34
    then "&quot;"
    else if code c == 39
    then "&#39;"
    else if is_bidi (code c)
    then ""
    else (c ∷ [])

unfoldable pub escape_html : String → String
unfolding escaped
escape_html [] = []
escape_html (c ∷ s) = escaped c ++ escape_html s

has_code-append :
    (n : ℕ) (s t : String)
    → has_code n s ≡ false
    → has_code n t ≡ false
    → has_code n (s ++ t) ≡ false
unfolding has_code
has_code-append n [] t a b = ap (has_code n) (nil-append t) ∙ b
has_code-append n (c ∷ s) t a b =
    let below = has_code-append n s t (ground (arith, a)) b in
    let here : (code c == n) ≡ false = ground (arith, a) in
    ap (has_code n) (cons-append c s t) ∙ rw (has_code, here) below

-- `<`, `>`, `"` and `'`
abbrev pub IsMarkup : ℕ → Type 0
IsMarkup n = (n ≡ 60) ⊎ ((n ≡ 62) ⊎ ((n ≡ 34) ⊎ (n ≡ 39)))

-- The replacements do not hold the character.
abbrev Lacks : ℕ → Type 0
Lacks n =
    (has_code n "&amp;" ≡ false)
    × (has_code n "&lt;" ≡ false)
    × (has_code n "&gt;" ≡ false)
    × (has_code n "&quot;" ≡ false)
    × (has_code n "&#39;" ≡ false)

fixed : (n : ℕ) → IsMarkup n → Lacks n
unfolding has_code ℕ_discrete
fixed n (inl e) = subst Lacks (sym e) (refl, refl, refl, refl, refl)
fixed n (inr (inl e)) = subst Lacks (sym e) (refl, refl, refl, refl, refl)
fixed n (inr (inr (inl e))) = subst Lacks (sym e) (refl, refl, refl, refl, refl)
fixed n (inr (inr (inr e))) = subst Lacks (sym e) (refl, refl, refl, refl, refl)

has_code-single : (n : ℕ) (c : Char) → (code c == n) ≡ false → has_code n (c ∷ []) ≡ false
unfolding has_code
has_code-single n c h = ground (arith, h)

escaped-plain : (n : ℕ) (c : Char) → IsMarkup n → has_code n (escaped c) ≡ false
unfolding escaped
escaped-plain n c m =
    let (amp, lt_text, gt_text, quot, apos) = fixed n m in
    if_case (λ q. has_code n q ≡ false) (code c == 38) (λ _. amp)
      (λ _.
        if_case (λ q. has_code n q ≡ false) (code c == 60) (λ _. lt_text)
          (λ not_lt.
            if_case (λ q. has_code n q ≡ false) (code c == 62) (λ _. gt_text)
              (λ not_gt.
                if_case (λ q. has_code n q ≡ false) (code c == 34) (λ _. quot)
                  (λ not_quot.
                    if_case (λ q. has_code n q ≡ false) (code c == 39) (λ _. apos)
                      (λ not_apos.
                        if_case (λ q. has_code n q ≡ false) (is_bidi (code c)) (λ _. empty_plain n)
                          (λ _. has_code-single n c (other not_lt not_gt not_quot not_apos)))))))
  where
    empty_plain : (n : ℕ) → has_code n "" ≡ false
    empty_plain n = unfold has_code in refl

    other :
        (code c == 60) ≡ false
        → (code c == 62) ≡ false
        → (code c == 34) ≡ false
        → (code c == 39) ≡ false
        → (code c == n) ≡ false
    other a b d e = ground (arith, m)

-- Escaped text holds no character that opens a tag or ends an attribute.
pub escape_html_plain : (n : ℕ) (s : String) → IsMarkup n → has_code n (escape_html s) ≡ false
unfolding escape_html has_code
escape_html_plain n [] m = refl
escape_html_plain n (c ∷ s) m =
    has_code-append n (escaped c) (escape_html s) (escaped-plain n c m) (escape_html_plain n s m)
