-- ===== src/Attachments/Extraction/Pages.antt =====
-- crates/mcpmem-core/src/attachments.rs: the segments that `complete` stores.
use mcpmem.Prelude.{
  ℕ, ◌+◌, ◌≡◌, ◌≢◌, refl, sym, ap, ◌∙◌, subst, Bool, true, false, ◌&&◌, String, List, [], ◌∷◌, ◌++◌,
  map, arith, inl, inr, Bool-cases, ◌==◌, nat_eq, All, All-map, All-append, All-zip, Keyed, select,
  delete_where, select-append, select_all, select_none, delete_where-All, exists_where-none, ok,
  length,
}
use mathlib.Core.List.{append-nil}
use mcpmem.Attachments.Records.{Segment, Files, Outside}
use mcpmem.Attachments.Segments.{cut, join, FitsSegment, cut_whole}
use mcpmem.Attachments.Extraction.{
  AttachmentJob, complete, numbered, page_segments, fenced, number_of, is_refused,
}
use mcpmem.Index.Records.{Index}

abbrev pub text_of : Segment → String
text_of c = c.text

abbrev pub of_page : ℕ → ℕ → Segment → Bool
of_page id page c = c.attachment_id == id && c.page == page

abbrev pub of_attachment : ℕ → Segment → Bool
of_attachment id c = c.attachment_id == id

-- The segments count from `index` on.
pub Consecutive : ℕ → List Segment → Type 0
Consecutive index [] = Unit {0}
Consecutive index (c ∷ cs) = (c.chunk_index ≡ index) × Consecutive (index + 1) cs

numbered-texts :
    (id page index segment : ℕ) (texts : List String)
    → map text_of (numbered id page index segment texts) ≡ texts
unfolding numbered
numbered-texts id page index segment [] = refl
numbered-texts id page index segment (text ∷ texts) =
    ap (◌∷◌ text) (numbered-texts id page (index + 1) (segment + 1) texts)

numbered-All :
    (id page index segment : ℕ) (texts : List String)
    → All FitsSegment texts
    → All
        (λ (c : Segment). (c.attachment_id ≡ id) × (c.page ≡ page) × FitsSegment c.text)
        (numbered id page index segment texts)
unfolding numbered
numbered-All id page index segment [] a = tt
numbered-All id page index segment (text ∷ texts) (p, a) =
    ((refl, refl, p), numbered-All id page (index + 1) (segment + 1) texts a)

numbered-Consecutive :
    (id page index segment : ℕ) (texts : List String) (cs : List Segment)
    → Consecutive (index + length texts) cs
    → Consecutive index (numbered id page index segment texts ++ cs)
unfolding numbered Consecutive
numbered-Consecutive id page index segment [] cs h = subst (λ i. Consecutive i cs) (omega arith) h
numbered-Consecutive id page index segment (text ∷ texts) cs h = (
  refl,
  numbered-Consecutive id page (index + 1) (segment + 1) texts cs
      (subst (λ i. Consecutive i cs) (omega arith) h),
)

page_segments-Consecutive :
    (id index : ℕ) (pages : List (ℕ × String)) → Consecutive index (page_segments id index pages)
unfolding page_segments Consecutive
page_segments-Consecutive id index [] = tt
page_segments-Consecutive id index ((page, text) ∷ pages) =
    numbered-Consecutive id page index 0 (cut 0 "" text) _
      (page_segments-Consecutive id (index + length (cut 0 "" text)) pages)

page_segments-All :
    (id index : ℕ) (pages : List (ℕ × String))
    → All
        (λ (c : Segment). (c.attachment_id ≡ id) × FitsSegment c.text)
        (page_segments id index pages)
unfolding page_segments
page_segments-All id index [] = tt
page_segments-All id index ((page, text) ∷ pages) =
    All-append _ (numbered id page index 0 (cut 0 "" text)) _
      (All-map _ _ _ (λ c (mine, _, fit). (mine, fit))
        (numbered-All id page index 0 (cut 0 "" text) (cut_whole text).1))
      (page_segments-All id (index + length (cut 0 "" text)) pages)

-- The pages of the segments are the pages.
page_segments-other :
    (id other index : ℕ) (pages : List (ℕ × String))
    → All (λ p. number_of p ≢ other) pages
    → All (λ (c : Segment). of_page id other c ≡ false) (page_segments id index pages)
unfolding page_segments
page_segments-other id other index [] a = tt
page_segments-other id other index ((page, text) ∷ pages) (ne, a) =
    All-append _ (numbered id page index 0 (cut 0 "" text)) _
      (All-map _ _ _ (λ c (_, same, _). apart c same)
        (numbered-All id page index 0 (cut 0 "" text) (cut_whole text).1))
      (page_segments-other id other (index + length (cut 0 "" text)) pages a)
  where
    apart : (c : Segment) → c.page ≡ page → of_page id other c ≡ false
    apart c same = ground (arith, ne)

abbrev pub page_join : ℕ → ℕ → List Segment → String
page_join id page cs = join (map text_of (select (of_page id page) cs))

here-All :
    (id page index : ℕ) (text : String)
    → All (λ (c : Segment). of_page id page c ≡ true) (numbered id page index 0 (cut 0 "" text))
here-All id page index text =
    All-map _ _ _ (λ c (mine, same, _). ground (arith, mine, same))
      (numbered-All id page index 0 (cut 0 "" text) (cut_whole text).1)

elsewhere-All :
    (id page other index : ℕ) (text : String)
    → other ≢ page
    → All (λ (c : Segment). of_page id other c ≡ false) (numbered id page index 0 (cut 0 "" text))
elsewhere-All id page other index text ne =
    All-map _ _ _ (λ c (mine, same, _). apart c same)
      (numbered-All id page index 0 (cut 0 "" text) (cut_whole text).1)
  where
    apart : (c : Segment) → c.page ≡ page → of_page id other c ≡ false
    apart c same = ground (arith, ne)

page_segments-joined :
    (id index : ℕ) (pages : List (ℕ × String))
    → Keyed number_of pages
    → All (λ (page, text). page_join id page (page_segments id index pages) ≡ text) pages
unfolding page_segments
page_segments-joined id index [] k = tt
page_segments-joined id index ((page, text) ∷ pages) (fresh, k) =
    let next_index = index + length (cut 0 "" text) in
    let rest = page_segments id next_index pages in
    let here = numbered id page index 0 (cut 0 "" text) in
    let nothing =
      select_none (of_page id page) rest (page_segments-other id page next_index pages fresh) in
    let mine = select_all (of_page id page) here (here-All id page index text) in
    let selected : select (of_page id page) (here ++ rest) ≡ here =
      select-append (of_page id page) here rest
      ∙ ap (◌++◌ (select (of_page id page) here)) nothing
      ∙ append-nil (select (of_page id page) here)
      ∙ mine in
    (
      ap (λ cs. join (map text_of cs)) selected
          ∙ ap join (numbered-texts id page index 0 (cut 0 "" text))
          ∙ (cut_whole text).0,
      All-map _ _ pages
          (λ p (ne, same).
            later (number_of p) here rest (elsewhere-All id page (number_of p) index text ne)
            ∙ same)
          (All-zip _ _ pages fresh (page_segments-joined id next_index pages k)),
    )
  where
    later :
        (other : ℕ) (here rest : List Segment)
        → All (λ c. of_page id other c ≡ false) here
        → page_join id other (here ++ rest) ≡ page_join id other rest
    later other here rest a =
        ap (λ cs. join (map text_of cs))
          (select-append (of_page id other) here rest
            ∙ ap (λ cs. cs ++ select (of_page id other) rest)
                (select_none (of_page id other) here a))

-- The segments that stay are those of other attachments.
stored :
    (id : ℕ) (new old : List Segment)
    → All (λ (c : Segment). c.attachment_id ≡ id) new
    → select (of_attachment id) (new ++ delete_where (of_attachment id) old) ≡ new
stored id new old a =
    select-append (of_attachment id) new (delete_where (of_attachment id) old)
    ∙ ap (◌++◌ (select (of_attachment id) new))
        (select_none (of_attachment id) _ (delete_where-All (of_attachment id) old))
    ∙ append-nil (select (of_attachment id) new)
    ∙ select_all (of_attachment id) new (All-map _ _ new (λ c mine. ground (arith, mine)) a)

stored_page :
    (id page : ℕ) (new old : List Segment)
    → page_join id page (new ++ delete_where (of_attachment id) old) ≡ page_join id page new
stored_page id page new old =
    ap (λ cs. join (map text_of cs))
      (select-append (of_page id page) new (delete_where (of_attachment id) old)
        ∙ ap (◌++◌ (select (of_page id page) new)) (select_none (of_page id page) _ others)
        ∙ append-nil (select (of_page id page) new))
  where
    others : All (λ c. of_page id page c ≡ false) (delete_where (of_attachment id) old)
    others =
        All-map _ _ _ (λ (c : Segment) other. ground (arith, other))
          (delete_where-All (of_attachment id) old)

is_refused-Keyed : (pages : List (ℕ × String)) → is_refused pages ≡ false → Keyed number_of pages
unfolding is_refused
is_refused-Keyed [] h = tt
is_refused-Keyed (page ∷ pages) h =
    let others =
      exists_where-none (λ other. number_of other == number_of page) pages (ground arith) in
    (All-map _ _ pages (λ other ne. differ other ne) others, is_refused-Keyed pages (ground arith))
  where
    differ :
        (other : ℕ × String)
        → (number_of other == number_of page) ≡ false
        → number_of other ≢ number_of page
    differ other ne e = ground (arith, ne, e)

-- A completion stores the text of every page in segments of 1 to 1600 characters that join to it, and
-- numbers the segments of the attachment from 0.
pub complete-pages :
    (o : Outside) (job : AttachmentJob) (now : ℕ) (pages : List (ℕ × String)) (s : Files)
    (x : Index)
    → (complete o job now pages s x).1 ≡ ok true
    → let s' = (complete o job now pages s x).0.0 in
      All (λ (page, text). page_join job.attachment_id page s'.segments ≡ text) pages
      × All
          (λ (c : Segment). FitsSegment c.text)
          (select (of_attachment job.attachment_id) s'.segments)
      × Consecutive 0 (select (of_attachment job.attachment_id) s'.segments)
unfolding complete
complete-pages o job now pages s x done = elim (Bool-cases (fenced o job now s)) [
  | inr lost ↦ let no : ⊥ = ground (arith, lost) in absurd no
  | inl holds ↦ elim (Bool-cases (is_refused pages)) [
    | inl refused ↦ let no : ⊥ = ground (arith, refused) in absurd no
    | inr taken ↦
        let id = job.attachment_id in
        let new = page_segments id 0 pages in
        let whole = page_segments-All id 0 pages in
        let all_new = stored id new s.segments (All-map _ _ new (λ c w. w.0) whole) in
        rw (holds, complete, taken)
          (
            All-map _ _ pages (λ p same. stored_page id (number_of p) new s.segments ∙ same)
                (page_segments-joined id 0 pages (is_refused-Keyed pages taken)),
            subst (All (λ (c : Segment). FitsSegment c.text)) (sym all_new)
                (All-map _ _ new (λ c w. w.1) whole),
            subst (Consecutive 0) (sym all_new) (page_segments-Consecutive id 0 pages),
          )
  ]
]
