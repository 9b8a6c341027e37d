-- ===== src/Codecontext/Content.antt =====
-- internal/codecontext/codecontext.go: the text of the definitions that were found, within a limit
-- of lines; `none` is a panic.
pub mod Numbered
pub mod Windows
pub mod Fallback
use github_pr_review_agent.Common.{
  ℕ, ◌+◌, ◌-◌, ◌/◌, ◌==◌, Bool, true, false, not, ◌&&◌, ◌||◌, List, [], ◌∷◌, ◌++◌, Text, codes,
  newline, join_lines, length, decimal, max, min, Option, none, some, zero, suc, ltb, leb,
  if◌then◌else◌,
}
use mathlib.Core.List.{reverse}
use github_pr_review_agent.Codecontext.Symbols.{Symbol}

unfoldable pub in_range : Symbol → ℕ → Bool
in_range s n = leb s.start_line n && leb n s.end_line

unfoldable pub first_target_in_range : Symbol → List ℕ → ℕ
unfolding in_range
first_target_in_range s [] = s.start_line
first_target_in_range s (n ∷ targets) =
    let rest = first_target_in_range s targets in if in_range s n then n else rest

-- symbolEnd-symbolStart+1
abbrev pub size : ℕ → ℕ → ℕ
size start end = end + 1 - start

-- The window of a symbol that is too long for the lines that remain. Where the source has a
-- negative start, it goes on with that of the symbol, as from 0 here.
unfoldable pub window : ℕ → List ℕ → Symbol → ℕ × ℕ
unfolding first_target_in_range
window remaining targets s =
    let focus = first_target_in_range s targets in
    let around = if ltb 0 focus then focus - remaining / 2 else s.start_line in
    let start = if ltb around s.start_line then s.start_line else around in
    let end = start + remaining - 1 in
    if ltb s.end_line end
    then (max s.start_line (s.end_line + 1 - remaining), s.end_line)
    else (start, end)

-- The symbol with its snippet.
unfoldable pub with_snippet : ℕ → List ℕ → Symbol → Symbol
with_snippet remaining targets s =
    if ltb remaining (size s.start_line s.end_line)
    then record s {
      snippet_start = (window remaining targets s).0;
      snippet_end = (window remaining targets s).1;
      truncated = true;
    }
    else record s { snippet_start = s.start_line; snippet_end = s.end_line; truncated = false }

abbrev pub truncation_suffix : Bool → Text
truncation_suffix true = codes ", truncated"
truncation_suffix false = []

infixl 5 ◌>>=◌
abbrev pub ◌>>=◌ {ℓ κ} : {A : Type ℓ} {B : Type κ} → Option A → (A → Option B) → Option B
none >>= f = none
some a >>= f = f a

-- lines[lineNumber-1]; none is a panic.
abbrev pub line_at : List Text → ℕ → Option Text
line_at lines zero = none
line_at [] (suc n) = none
line_at (line ∷ lines) (suc zero) = some line
line_at (line ∷ lines) (suc (suc n)) = line_at lines (suc n)

-- So many numbered lines from a number on; none is a panic.
unfoldable pub numbered_from : List Text → ℕ → ℕ → Option (List Text)
numbered_from lines n zero = some []
numbered_from lines n (suc count) =
    let rest = numbered_from lines (n + 1) count in
    do line ← line_at lines n; numbered ← rest; some ((decimal n ++ codes ": " ++ line) ∷ numbered)

-- The loop from `start` to `end`.
unfoldable pub lines_between : List Text → ℕ → ℕ → Option (List Text)
unfolding numbered_from
lines_between lines start end = numbered_from lines start (size start end)

abbrev pub end_lines : List Text → Text
end_lines [] = []
end_lines (line ∷ lines) = line ++ newline ∷ end_lines lines

unfoldable pub heading : Symbol → Text
heading s =
    codes "### "
    ++ s.kind
    ++ codes " `"
    ++ s.name
    ++ codes "` (lines "
    ++ decimal s.snippet_start
    ++ codes "-"
    ++ decimal s.snippet_end
    ++ truncation_suffix s.truncated
    ++ codes ")\n"

unfoldable pub snippet_text : List Text → Symbol → Option Text
unfolding heading lines_between
snippet_text lines s = do
  numbered ← lines_between lines s.snippet_start s.snippet_end
  some (heading s ++ end_lines numbered)

-- What the loop leaves: the text, the flag, and the symbols, those with a snippet in the text and
-- those that the limit leaves out, which stay as they were.
pub record Built : Type 0 where
  pub content : Text
  pub truncated : Bool
  pub shown : List Symbol
  pub omitted : List Symbol

-- The loop over the symbols; `lead` is what it writes in front of all but the first, and none is a
-- panic.
unfoldable pub build_from : List Text → List ℕ → Text → ℕ → List Symbol → Option Built
build_from lines targets lead remaining [] =
    some (record { content = []; truncated = false; shown = []; omitted = [] })
build_from lines targets lead remaining (s ∷ symbols) =
    let snippet = with_snippet remaining targets s in
    let left = remaining - size snippet.snippet_start snippet.snippet_end in
    let later = build_from lines targets (codes "\n") left symbols in
    if leb remaining 2
    then some (record {
      content = codes "\n[additional context omitted by tool limit]\n";
      truncated = true;
      shown = [];
      omitted = s ∷ symbols;
    })
    else (do
      text ← snippet_text lines snippet
      rest ← later
      some (record {
        content = lead ++ text ++ rest.content;
        truncated = snippet.truncated || rest.truncated;
        shown = snippet ∷ rest.shown;
        omitted = rest.omitted;
      }))

abbrev drop_newlines : Text → Text
drop_newlines [] = []
drop_newlines (c ∷ s) = if c == newline then drop_newlines s else c ∷ s

-- strings.TrimRight(s, "\n")
unfoldable pub trim_right : Text → Text
trim_right s = reverse (drop_newlines (reverse s))

unfoldable pub build_symbol_content : List Text → List Symbol → List ℕ → ℕ → Option Built
unfolding build_from trim_right
build_symbol_content lines symbols targets max_lines = do
  built ← build_from lines targets [] max_lines symbols
  some (record built { content = trim_right built.content })

-- The first and the last line of fallbackContent, and whether it cuts, for targets from `first` to
-- `last` of a file with `count` lines.
unfoldable pub fallback_window : ℕ → ℕ → ℕ → ℕ → ℕ × ℕ × Bool
fallback_window count max_lines first last =
    let end = min last count in
    let cut = first + max_lines - 1 in
    if ltb max_lines (size first end)
    then (if ltb count cut
        then (max 1 (count + 1 - max_lines), count, true)
        else (first, cut, true))
    else (first, end, false)

abbrev pub last_or : ℕ → List ℕ → ℕ
last_or n [] = n
last_or n (m ∷ ms) = last_or m ms

-- targetLines[0] of no target lines is a panic.
unfoldable pub fallback_content : List Text → List ℕ → ℕ → Option Text
unfolding fallback_window lines_between join_lines
fallback_content lines [] max_lines = none
fallback_content lines (first ∷ targets) max_lines =
    let (start, end, truncated) =
      fallback_window (length lines) max_lines first (last_or first targets) in
    let numbered = lines_between lines start end in
    if ltb (length lines) first then some [] else (do
      selected ← numbered
      let content = join_lines selected
      some (if truncated then content ++ codes "\n[context truncated by tool limit]" else content))
