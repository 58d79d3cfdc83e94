-- ===== src/Context/Artifacts/Summary.antt =====
-- What `summarize_text` of context/artifacts.py shows and hides.
use fleet_llm_inference.Common.{
  ℕ, zero, suc, ◌-◌, ◌+◌, ◌≤◌, String, ◌≡◌, refl, ap, sym, ◌∙◌, true, List, [], ◌∷◌, ◌++◌, length,
  take, keep, All, join, arith, All-take, All-keep_self,
}
use fleet_llm_inference.Context.Artifacts.{
  TextTools, Excerpt, excerpt, lines_of, is_match, closing, summarize_text,
}

length-take-le {ℓ} :
    {A : Type ℓ} (n : ℕ) (xs : List A) → (length (take n xs) ≤ n) × (length (take n xs) ≤ length xs)
length-take-le zero xs = (omega arith, omega arith)
length-take-le (suc n) [] = (omega arith, omega arith)
length-take-le (suc n) (x ∷ xs) =
    let (a, b) = length-take-le n xs in (omega (arith, a), omega (arith, b))

module _ (T : TextTools) where
  -- What the excerpt of a content is to show.
  abbrev pub IsExcerpt : List String → ℕ → Excerpt → Type 0
  IsExcerpt lines max_lines e =
      (length e.shown ≤ max_lines)
      × ((keep (is_match T) lines ≡ [])
          → (e.shown ≡ take max_lines lines) × (length e.shown + e.hidden ≡ length lines))
      × ((l : String) (matched : List String)
          → keep (is_match T) lines ≡ l ∷ matched
          → (e.shown ≡ take max_lines (l ∷ matched))
            × All (λ line. is_match T line ≡ true) e.shown
            × (length e.shown + e.hidden ≡ length (l ∷ matched)))

  excerpt-IsExcerpt :
      (lines matched : List String) (max_lines : ℕ)
      → keep (is_match T) lines ≡ matched
      → All (λ line. is_match T line ≡ true) matched
      → IsExcerpt lines max_lines (excerpt T lines matched max_lines)
  unfolding excerpt
  excerpt-IsExcerpt lines [] max_lines e h =
      let (a, b) = length-take-le max_lines lines in
      (a, λ k. (refl, omega (arith, b)), λ l matched k. cc)
  excerpt-IsExcerpt lines (l ∷ matched) max_lines e h =
      let (a, b) = length-take-le max_lines (l ∷ matched) in
      let all = All-take (λ line. is_match T line ≡ true) max_lines (l ∷ matched) h in
      let counted : length (take max_lines (l ∷ matched))
            + (length (l ∷ matched) - length (take max_lines (l ∷ matched)))
          ≡ length (l ∷ matched) =
        omega (arith, b) in
      (
        a,
        λ k. cc,
        λ l' matched' k. (ap (take max_lines) (sym e ∙ k), all, counted ∙ ap length (sym e ∙ k)),
      )

  -- A summary is a header, the lines it shows, and a closing line where it hides some. It shows at most
  -- `max_lines` lines: the first of the matching ones, or of all where none matches. Shown and hidden
  -- lines add up to those.
  pub summarize_text_lem :
      (content : String) (max_lines : ℕ)
      → (e : Excerpt) × (summarize_text T content max_lines
          ≡ join "\n" (e.header ∷ (e.shown ++ closing T e.hidden)))
        × IsExcerpt (lines_of T content) max_lines e
  unfolding summarize_text
  summarize_text_lem content max_lines =
      let lines = lines_of T content in
      (
        excerpt T lines (keep (is_match T) lines) max_lines,
        refl,
        excerpt-IsExcerpt lines _ max_lines refl (All-keep_self (is_match T) lines),
      )
