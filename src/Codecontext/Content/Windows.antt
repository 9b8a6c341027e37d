-- ===== src/Codecontext/Content/Windows.antt =====
-- What buildSymbolContent (internal/codecontext/codecontext.go) shows of the symbols.
use github_pr_review_agent.Common.{
  ℕ, ◌+◌, ◌-◌, ◌<◌, ◌≤◌, Bool, true, false, not, ◌||◌, any, is_empty, length, some, List, [], ◌∷◌,
  ◌++◌, Text, codes, ltb, leb, All, ◌≡◌, refl, ap, inl, inr, arith, Bool-cases, if◌then◌else◌,
}
use mathlib.Core.List.{map}
use github_pr_review_agent.Codecontext.Symbols.{Symbol}
use github_pr_review_agent.Codecontext.Content.{
  in_range, first_target_in_range, size, window, with_snippet, Built, build_from,
  build_symbol_content, heading, end_lines, snippet_text, trim_right,
}
use github_pr_review_agent.Codecontext.Content.Numbered.{excerpt, lines_between_lem}

-- The lines of all the snippets.
unfoldable pub total : List Symbol → ℕ
total [] = 0
total (s ∷ symbols) = size s.snippet_start s.snippet_end + total symbols

-- A symbol stands on lines of the file in their order.
abbrev pub InOrder : List Text → Symbol → Type 0
InOrder lines s = (0 < s.start_line) × (s.start_line ≤ s.end_line) × (s.end_line ≤ length lines)

-- The text of the symbols that are shown: each with its heading and the numbered lines of its
-- snippet, behind `lead` or, from the second on, a newline; then a notice if some are left out.
unfoldable pub written : List Text → Text → List Symbol → List Symbol → Text
written lines lead [] omitted =
    if is_empty omitted then [] else codes "\n[additional context omitted by tool limit]\n"
written lines lead (s ∷ shown) omitted =
    lead
    ++ (heading s ++ end_lines (excerpt lines s.snippet_start s.snippet_end))
    ++ written lines (codes "\n") shown omitted

-- A snippet is a part of its symbol, with the first target line within the symbol if it has one,
-- and all of it unless it is marked as truncated.
pub record IsSnippet (targets : List ℕ) (s : Symbol) : Type 0 where
  pub starts : s.start_line ≤ s.snippet_start
  pub nonempty : s.snippet_start ≤ s.snippet_end
  pub ends : s.snippet_end ≤ s.end_line
  pub focused :
      (s.snippet_start ≤ first_target_in_range s targets)
      × (first_target_in_range s targets ≤ s.snippet_end)
  pub whole : s.truncated ≡ false → (s.snippet_start ≡ s.start_line) × (s.snippet_end ≡ s.end_line)

abbrev pub location : Symbol → ℕ × ℕ
location s = (s.start_line, s.end_line)

abbrev InLines : Symbol → Type 0
InLines s = (0 < s.start_line) × (s.start_line ≤ s.end_line)

first_target-in_range :
    (s : Symbol) (targets : List ℕ)
    → InLines s
    → (s.start_line ≤ first_target_in_range s targets)
      × (first_target_in_range s targets ≤ s.end_line)
unfolding first_target_in_range
first_target-in_range s [] h = (omega arith, h.1)
first_target-in_range s (n ∷ targets) h =
    unfold in_range in ground (arith, first_target-in_range s targets h)

window_fits :
    (remaining : ℕ) (targets : List ℕ) (s : Symbol)
    → InLines s
    → 2 < remaining
    → remaining < size s.start_line s.end_line
    → (s.start_line ≤ (window remaining targets s).0)
      × ((window remaining targets s).0 + remaining ≡ (window remaining targets s).1 + 1)
      × ((window remaining targets s).1 ≤ s.end_line)
      × ((window remaining targets s).0 ≤ first_target_in_range s targets)
      × (first_target_in_range s targets ≤ (window remaining targets s).1)
unfolding window
window_fits remaining targets s h more long =
    let inside = first_target-in_range s targets h in grind (arith, inside.0, inside.1)

-- The target of a symbol does not depend on its snippet.
first_target-snippet :
    (s : Symbol) (a b : ℕ) (c : Bool) (targets : List ℕ)
    → first_target_in_range (record s { snippet_start = a; snippet_end = b; truncated = c }) targets
      ≡ first_target_in_range s targets
unfolding first_target_in_range
first_target-snippet s a b c [] = refl
first_target-snippet s a b c (n ∷ targets) =
    unfold in_range in rw (first_target-snippet s a b c targets) refl

with_snippet-IsSnippet :
    (remaining : ℕ) (targets : List ℕ) (s : Symbol)
    → InLines s
    → 2 < remaining
    → IsSnippet targets (with_snippet remaining targets s)
unfolding with_snippet
with_snippet-IsSnippet remaining targets s h more =
    elim (Bool-cases (ltb remaining (size s.start_line s.end_line))) [
      | inl long ↦
          let (low, long_enough, high, before, after) =
            window_fits remaining targets s h more (ground arith) in
          let same =
            first_target-snippet s (window remaining targets s).0 (window remaining targets s).1
              true targets in
          rw long (record {
            starts = low;
            nonempty = omega (arith, long_enough);
            ends = high;
            focused = rw same (before, after);
            whole = λ e. absurd (cc);
          })
      | inr short ↦
          let inside = first_target-in_range s targets h in
          let same = first_target-snippet s s.start_line s.end_line false targets in
          rw short (record {
            starts = omega arith;
            nonempty = h.1;
            ends = omega arith;
            focused = rw same inside;
            whole = λ _. (refl, refl);
          })
    ]

size-with_snippet :
    (remaining : ℕ) (targets : List ℕ) (s : Symbol)
    → InLines s
    → 2 < remaining
    → size
        (with_snippet remaining targets s).snippet_start
        (with_snippet remaining targets s).snippet_end
      ≤ remaining
unfolding with_snippet
size-with_snippet remaining targets s h more =
    ground (arith, window_fits remaining targets s h more)

with_snippet-location :
    (remaining : ℕ) (targets : List ℕ) (s : Symbol)
    → location (with_snippet remaining targets s) ≡ location s
unfolding with_snippet
with_snippet-location remaining targets s = ground arith

with_snippet-full :
    (remaining : ℕ) (targets : List ℕ) (s : Symbol)
    → InLines s
    → 2 < remaining
    → (with_snippet remaining targets s).truncated ≡ true
    → size
        (with_snippet remaining targets s).snippet_start
        (with_snippet remaining targets s).snippet_end
      ≡ remaining
unfolding with_snippet
with_snippet-full remaining targets s h more cut =
    ground (arith, window_fits remaining targets s h more)

-- What the loop shows of the symbols within the lines that remain.
pub record Shows (lines : List Text) (targets : List ℕ) (lead : Text) (remaining : ℕ)
    (symbols : List Symbol) (built : Built) : Type 0 where
  pub snippets : All (IsSnippet targets) built.shown
  pub fits : total built.shown ≤ remaining
  pub nothing_lost : map location (built.shown ++ built.omitted) ≡ map location symbols
  pub text : built.content ≡ written lines lead built.shown built.omitted
  pub marked :
      built.truncated ≡ (any built.shown (λ s. s.truncated) || not (is_empty built.omitted))
  pub used_up : any built.shown (λ s. s.truncated) ≡ true → total built.shown ≡ remaining
  pub no_room : is_empty built.omitted ≡ false → remaining ≤ total built.shown + 2

-- The snippet of a symbol on lines of the file is written without a panic.
snippet_text_lem :
    (lines : List Text) (targets : List ℕ) (s snippet : Symbol)
    → InOrder lines s
    → s.start_line ≤ snippet.snippet_start
    → snippet.snippet_start ≤ snippet.snippet_end
    → snippet.snippet_end ≤ s.end_line
    → snippet_text lines snippet
      ≡ some
          (heading snippet ++ end_lines (excerpt lines snippet.snippet_start snippet.snippet_end))
unfolding snippet_text
snippet_text_lem lines targets s snippet (positive, ordered, within) starts nonempty ends =
    rw
      (lines_between_lem lines snippet.snippet_start snippet.snippet_end (omega arith) nonempty
        (omega arith))
      refl

with_snippet-starts :
    (remaining : ℕ) (targets : List ℕ) (s : Symbol)
    → InLines s
    → 2 < remaining
    → s.start_line ≤ (with_snippet remaining targets s).snippet_start
unfolding with_snippet
with_snippet-starts remaining targets s h more =
    ground (arith, window_fits remaining targets s h more)

with_snippet-stops :
    (remaining : ℕ) (targets : List ℕ) (s : Symbol)
    → InLines s
    → 2 < remaining
    → (with_snippet remaining targets s).snippet_end ≤ s.end_line
unfolding with_snippet
with_snippet-stops remaining targets s h more =
    ground (arith, window_fits remaining targets s h more)

-- The symbol in front, added to what is shown of the others.
cons-Shows :
    (lines : List Text) (targets : List ℕ) (lead : Text) (remaining : ℕ) (s : Symbol)
    (symbols : List Symbol) (rest : Built)
    → InOrder lines s
    → 2 < remaining
    → let snippet = with_snippet remaining targets s in
      let left = remaining - size snippet.snippet_start snippet.snippet_end in
      Shows lines targets (codes "\n") left symbols rest
      → Shows lines targets lead remaining (s ∷ symbols) (record {
        content =
            lead
            ++ (heading snippet
                ++ end_lines (excerpt lines snippet.snippet_start snippet.snippet_end))
            ++ rest.content;
        truncated = snippet.truncated || rest.truncated;
        shown = snippet ∷ rest.shown;
        omitted = rest.omitted;
      })
unfolding total written any
cons-Shows lines targets lead remaining s symbols rest (positive, ordered, within) more shows =
    let snippet = with_snippet remaining targets s in
    let small = size-with_snippet remaining targets s (positive, ordered) more in
    record {
      snippets =
          (with_snippet-IsSnippet remaining targets s (positive, ordered) more, shows.snippets);
      fits = omega (arith, small, shows.fits);
      nothing_lost =
          rw (with_snippet-location remaining targets s)
            (ap (λ t. location s ∷ t) shows.nothing_lost);
      text = rw shows.text refl;
      marked = ground (arith, shows.marked);
      used_up = λ e. elim (Bool-cases snippet.truncated) [
        | inl cut ↦
            omega (
              arith,
              with_snippet-full remaining targets s (positive, ordered) more cut,
              shows.fits,
            )
        | inr uncut ↦ omega (arith, small, shows.used_up (ground (arith, e, uncut)))
      ];
      no_room = λ e. omega (arith, small, shows.no_room e);
    }

build_from-Shows :
    (lines : List Text) (targets : List ℕ) (lead : Text) (remaining : ℕ) (symbols : List Symbol)
    → All (InOrder lines) symbols
    → (built : Built) × (build_from lines targets lead remaining symbols ≡ some built)
      × Shows lines targets lead remaining symbols built
unfolding build_from total written any
build_from-Shows lines targets lead remaining [] h = (
  record { content = []; truncated = false; shown = []; omitted = [] },
  refl,
  record {
    snippets = tt;
    fits = omega arith;
    nothing_lost = refl;
    text = refl;
    marked = refl;
    used_up = λ e. absurd (cc);
    no_room = λ e. absurd (cc);
  },
)
build_from-Shows lines targets lead remaining (s ∷ symbols) h =
    elim (Bool-cases (leb remaining 2)) [
      | inl stop ↦ (
        record {
          content = codes "\n[additional context omitted by tool limit]\n";
          truncated = true;
          shown = [];
          omitted = s ∷ symbols;
        },
        rw stop refl,
        record {
          snippets = tt;
          fits = omega arith;
          nothing_lost = refl;
          text = refl;
          marked = refl;
          used_up = λ e. absurd (cc);
          no_room = λ e. ground arith;
        },
      )
      | inr more ↦
          let room : 2 < remaining = ground arith in
          let snippet = with_snippet remaining targets s in
          let fine = with_snippet-IsSnippet remaining targets s (h.0.0, h.0.1) room in
          let left = remaining - size snippet.snippet_start snippet.snippet_end in
          let (rest, made, shows) = build_from-Shows lines targets (codes "\n") left symbols h.1 in
          let shown =
            snippet_text_lem lines targets s snippet h.0
              (with_snippet-starts remaining targets s (h.0.0, h.0.1) room) fine.nonempty
              (with_snippet-stops remaining targets s (h.0.0, h.0.1) room) in
          (
            _,
            rw (more, shown, made) refl,
            cons-Shows lines targets lead remaining s symbols rest h.0 room shows,
          )
    ]

-- For symbols on lines of the file in their order and every limit: each symbol is shown with a part
-- of it that has its first target line, or left out, and nothing else; the text is that of what is
-- shown, without the newlines at its end; what is shown has no more lines than the limit allows, and
-- the text is marked as truncated exactly if a symbol is cut, where the limit is used up, or left
-- out, where at most two lines remain.
pub build_symbol_content-Shows :
    (lines : List Text) (symbols : List Symbol) (targets : List ℕ) (max_lines : ℕ)
    → All (InOrder lines) symbols
    → (built : Built) × (build_symbol_content lines symbols targets max_lines
        ≡ some (record built { content = trim_right built.content }))
      × Shows lines targets [] max_lines symbols built
unfolding build_symbol_content
build_symbol_content-Shows lines symbols targets max_lines h =
    let (built, made, shows) = build_from-Shows lines targets [] max_lines symbols h in
    (built, rw made refl, shows)
