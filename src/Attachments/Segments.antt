-- ===== src/Attachments/Segments.antt =====
-- crates/mcpmem-core/src/attachments.rs: how `complete` cuts the text of a page into segments.
use Prim.Native.Nat.{ℕ, suc, ◌+◌, ◌*◌, ◌≤◌, ◌%◌}
use Prim.Native.Char.{Char}
use Prim.Native.String.{String, [], ◌∷◌, ◌++◌, count}
use mathlib.Core.List as L
use text.Mathlib.TextLemmas.{
  append-nil, cons-append, nil-append, append_assoc, length-append, length-cons, length-nil,
}
use mathlib.Core.List.{List}
use mcpmem.Prelude.{
  ◌≡◌, ◌≢◌, refl, sym, ap, ◌∙◌, Bool, true, false, ◌&&◌, if◌then◌else◌, ltb, ◌==◌, nat_eq, text_eq,
  arith, All, inl, inr, Bool-cases, ◌⊎◌,
}

abbrev pub segment_chars : ℕ
segment_chars = 1600

-- `chars > 0 && chars % SEGMENT_CHARS as i64 == 0`
unfoldable pub fills : ℕ → Bool
fills chars = ltb 0 chars && (chars % segment_chars) == 0

-- The loop over `char_indices`: `chars` are counted, and `piece` is the text from `start` on.
unfoldable pub cut : ℕ → String → String → List String
cut chars piece [] = if piece == "" then L.[] else L.◌∷◌ piece L.[]
cut chars piece (c ∷ text) =
    let full = fills chars in
    let rest = cut (chars + 1) (if full then c ∷ [] else piece ++ (c ∷ [])) text in
    if full then L.◌∷◌ piece rest else rest

unfoldable pub join : List String → String
join L.[] = []
join (L.◌∷◌ text texts) = text ++ join texts

abbrev pub FitsSegment : String → Type 0
FitsSegment piece = (1 ≤ count piece) × (count piece ≤ segment_chars)

-- The piece begins at the last border of a segment.
record AtBorder (chars : ℕ) (piece : String) : Type 0 where
  border : ℕ
  counted : chars ≡ border * 1600 + count piece
  short : count piece ≤ 1600
  begun : (chars ≡ 0) ⊎ (1 ≤ count piece)

fills_full :
    (chars k n : ℕ)
    → chars ≡ k * 1600 + n
    → n ≤ 1600
    → (chars ≡ 0) ⊎ (1 ≤ n)
    → fills chars ≡ true
    → n ≡ 1600
unfolding fills
fills_full chars k n e short begun h = ground arith

fills_room :
    (chars k n : ℕ)
    → chars ≡ k * 1600 + n
    → n ≤ 1600
    → (chars ≡ 0) ⊎ (1 ≤ n)
    → fills chars ≡ false
    → n + 1 ≤ 1600
unfolding fills
fills_room chars k n e short begun h = ground arith

count-single : (c : Char) → count (c ∷ []) ≡ 1
count-single c = length-cons c [] ∙ ap suc length-nil

count-grown : (piece : String) (c : Char) → count (piece ++ (c ∷ [])) ≡ count piece + 1
count-grown piece c = length-append piece (c ∷ []) ∙ ap (◌+◌ (count piece)) (count-single c)

grown-AtBorder :
    (chars : ℕ) (piece : String) (c : Char)
    → AtBorder chars piece
    → fills chars ≡ false
    → AtBorder (chars + 1) (piece ++ (c ∷ []))
grown-AtBorder chars piece c b h = record {
  border = b.border;
  counted = let grown = count-grown piece c in let counted = b.counted in omega arith;
  short =
      let grown = count-grown piece c in
      let room = fills_room chars b.border (count piece) b.counted b.short b.begun h in omega arith;
  begun = inr (let grown = count-grown piece c in omega arith);
}

fresh-AtBorder :
    (chars : ℕ) (piece : String) (c : Char)
    → AtBorder chars piece
    → fills chars ≡ true
    → AtBorder (chars + 1) (c ∷ [])
fresh-AtBorder chars piece c b h = record {
  border = b.border + 1;
  counted =
      let single = count-single c in
      let counted = b.counted in
      let full = fills_full chars b.border (count piece) b.counted b.short b.begun h in omega arith;
  short = let single = count-single c in omega arith;
  begun = inr (let single = count-single c in omega arith);
}

single-append : (c : Char) (text : String) → (c ∷ []) ++ text ≡ c ∷ text
single-append c text = cons-append c [] text ∙ ap (◌∷◌ c) (nil-append text)

positive : (piece : String) → piece ≢ "" → 1 ≤ count piece
positive [] more = absurd (more refl)
positive (c ∷ piece) more = let longer = length-cons c piece in omega arith

-- The segments of the text from `start` on join to it.
cut-join :
    (chars : ℕ) (piece text : String)
    → AtBorder chars piece
    → (join (cut chars piece text) ≡ piece ++ text) × All FitsSegment (cut chars piece text)
unfolding cut join
cut-join chars piece [] b = elim (Bool-cases (piece == "")) [
  | inl empty ↦
      let nothing : piece ≡ "" = ground (arith, empty) in
      rw empty (sym (append-nil piece ∙ nothing), tt)
  | inr some_text ↦
      let short = b.short in
      let more : 1 ≤ count piece = positive piece (ground (arith, some_text)) in
      rw some_text (refl, ((more, short), tt))
]
cut-join chars piece (c ∷ text) b = elim (Bool-cases (fills chars)) [
  | inl full ↦
      let (joined, fit) =
        cut-join (chars + 1) (c ∷ []) text (fresh-AtBorder chars piece c b full) in
      let all_of_it = fills_full chars b.border (count piece) b.counted b.short b.begun full in
      rw full (ap (◌++◌ piece) (joined ∙ single-append c text), ((omega arith, omega arith), fit))
  | inr room ↦
      let (joined, fit) =
        cut-join (chars + 1) (piece ++ (c ∷ [])) text (grown-AtBorder chars piece c b room) in
      rw room
        (joined ∙ append_assoc piece (c ∷ []) text ∙ ap (◌++◌ piece) (single-append c text), fit)
]

pub cut_whole : (text : String) → (join (cut 0 "" text) ≡ text) × All FitsSegment (cut 0 "" text)
cut_whole text =
    let (joined, fit) =
      cut-join 0 "" text
        (record { border = 0; counted = refl; short = omega arith; begun = inl refl }) in
    (joined ∙ nil-append text, fit)
