-- ===== src/Review/Prompt.antt =====
-- internal/review/service.go: what the language model is shown of a pull request. A limit is a
-- number that is not negative; a negative one acts as 0 does.
pub mod Fetching
pub mod Limits
use github_pr_review_agent.Common.{
  ℕ, zero, suc, ◌+◌, ◌-◌, ◌==◌, Bool, true, false, not, ◌&&◌, ◌||◌, none, some, List, [], ◌∷◌, ◌++◌,
  Text, codes, newline, is_empty, text_eq, trim_space, split_lines, join_lines, length, take, any,
  ltb, leb, min, if◌then◌else◌,
}
use mathlib.Core.List.{reverse}
use github_pr_review_agent.Store.Transaction.{Result, ok, err}
use github_pr_review_agent.Worker.Names.{to_lower}

-- The fields of a changed file that are read.
pub record PullRequestFile : Type 0 where
  pub filename : Text
  pub patch : Text

pub record FileContent : Type 0 where
  pub path : Text
  pub content : Text

-- The loop of filepath.Ext, from the end of the path.
ext_back : Text → Text → Text
ext_back suffix [] = []
ext_back suffix (c ∷ before) =
    if c == b'/' then [] else if c == b'.' then c ∷ suffix else ext_back (c ∷ suffix) before

ext : Text → Text
unfolding ext_back
ext path = ext_back [] (reverse path)

-- A switch on the extension. strings.ToLower gives these ASCII letters from ASCII letters only.
unfoldable pub has_extension : List Text → Text → Bool
unfolding ext to_lower any text_eq
has_extension extensions filename = any extensions (text_eq (to_lower (ext filename)))

pub is_documentation_file : Text → Bool
unfolding has_extension
is_documentation_file filename =
    has_extension (codes ".md" ∷ codes ".mdx" ∷ codes ".rst" ∷ codes ".adoc" ∷ codes ".txt" ∷ [])
      filename

pub has_readable_extension : Text → Bool
unfolding has_extension
has_readable_extension filename =
    has_extension
      (codes ".go"
        ∷ codes ".java"
        ∷ codes ".py"
        ∷ codes ".js"
        ∷ codes ".ts"
        ∷ codes ".tsx"
        ∷ codes ".jsx"
        ∷ codes ".rs"
        ∷ codes ".c"
        ∷ codes ".cc"
        ∷ codes ".cpp"
        ∷ codes ".h"
        ∷ codes ".hpp"
        ∷ codes ".rb"
        ∷ codes ".php"
        ∷ codes ".sql"
        ∷ codes ".yml"
        ∷ codes ".yaml"
        ∷ codes ".json"
        ∷ codes ".toml"
        ∷ codes ".md"
        ∷ codes ".txt"
        ∷ codes ".mod"
        ∷ codes ".sum"
        ∷ [])
      filename

unfoldable pub is_docs_only_pr : List PullRequestFile → Bool
unfolding is_documentation_file any
is_docs_only_pr files =
    not (is_empty files) && not (any files (λ f. not (is_documentation_file f.filename)))

abbrev pub file_fetch_concurrency : ℕ
file_fetch_concurrency = 4

-- The next readable files, `size` at most, and the files that are left.
pub next_batch : ℕ → List PullRequestFile → List PullRequestFile × List PullRequestFile
next_batch zero files = ([], files)
next_batch (suc size) [] = ([], [])
next_batch (suc size) (f ∷ files) =
    let (selected, rest) = next_batch size files in
    let skipped = next_batch (suc size) files in
    if has_readable_extension f.filename then (f ∷ selected, rest) else skipped

-- `get` is GetFileContent at the commit of the review. A request of a cancelled context is an
-- error.
module _ (get : Text → Result Text) where
  -- What one goroutine leaves in its slot, if that has a path.
  pub fetch_one : PullRequestFile → List FileContent
  unfolding trim_space
  fetch_one f = elim (get f.filename) [
    | err e ↦ []
    | ok content ↦
        if is_empty (trim_space content) || is_empty f.filename
        then []
        else record { path = f.filename; content = content } ∷ []
  ]

  pub fetch_all : List PullRequestFile → List FileContent
  unfolding fetch_one
  fetch_all [] = []
  fetch_all (f ∷ files) = fetch_one f ++ fetch_all files

  -- The loop over the batches, on fuel. `cancelled` tells whether the context is done when so many
  -- files are left.
  pub fetch_batches :
      (ℕ → Bool) → ℕ → ℕ → List PullRequestFile → List FileContent → List FileContent
  fetch_batches cancelled max zero files contents = contents
  fetch_batches cancelled max (suc fuel) files contents =
      let size = min file_fetch_concurrency (max - length contents) in
      let (selected, rest) = next_batch size files in
      let more = fetch_batches cancelled max fuel rest (contents ++ fetch_all selected) in
      if not (is_empty files) && ltb (length contents) max && not (cancelled (length files))
      then more
      else contents

  -- Every batch takes a file, so one round for each file is enough.
  unfoldable pub fetch_file_contents : (ℕ → Bool) → ℕ → List PullRequestFile → List FileContent
  unfolding fetch_batches
  fetch_file_contents cancelled max files =
      if max == 0 then [] else fetch_batches cancelled max (length files) files []

unfoldable pub limit_lines : Text → ℕ → Text
unfolding split_lines join_lines
limit_lines content max =
    let lines = split_lines content in
    if max == 0
    then content
    else if leb (length lines) max
    then content
    else join_lines (take max lines)
      ++ codes "\n[content truncated because it exceeded the configured line limit]"

unfoldable pub build_file_context : List FileContent → ℕ → Text
unfolding limit_lines
build_file_context [] max = []
build_file_context (c ∷ contents) max =
    codes "\n### "
    ++ c.path
    ++ codes "\n"
    ++ limit_lines c.content max
    ++ codes "\n"
    ++ build_file_context contents max

-- strings.Count(s, "\n")
pub count_newlines : Text → ℕ
count_newlines [] = 0
count_newlines (c ∷ s) = if c == newline then suc (count_newlines s) else count_newlines s

-- The loop of buildDiff, after so many lines.
pub diff_from : ℕ → ℕ → List PullRequestFile → Text
unfolding count_newlines
diff_from max line_count [] = []
diff_from max line_count (f ∷ files) =
    let rest = diff_from max (line_count + count_newlines f.patch + 1) files in
    if ltb 0 max && leb max line_count
    then codes "\n[diff truncated because it exceeded the configured line limit]\n"
    else codes "\n### " ++ f.filename ++ codes "\n" ++ f.patch ++ codes "\n" ++ rest

unfoldable pub build_diff : List PullRequestFile → ℕ → Text
unfolding diff_from
build_diff files max = diff_from max 0 files
