-- ===== src/Codecontext/Symbols/Placed.antt =====
-- Which symbols findSymbols (internal/codecontext/codecontext.go) gives.
use github_pr_review_agent.Common.{
  ℕ, ◌-◌, ◌<◌, any, text_eq, ◌≤◌, Bool, true, false, List, [], ◌∷◌, ◌++◌, Text, length, drop,
  take-All, length-take, select, ltb, All, ◌≡◌, refl, inl, inr, arith, Bool-cases, if◌then◌else◌,
}
use github_pr_review_agent.Codecontext.Targets.{line_offsets}
use github_pr_review_agent.Codecontext.Symbols.{
  max_symbols, kind_of, Symbol, Node, Tree, symbol_of, is_new, Found, add_node, climb, nodes_of,
  nodes_at, find_all, comes_before, insert_symbol, sort_symbols, remove_containing_symbols,
  definition_kinds, find_symbols,
}

-- A symbol as it is found in a file of `count` lines: on lines of the file in their order, all of
-- them its snippet.
pub record IsFound (count : ℕ) (s : Symbol) : Type 0 where
  pub positive : 0 < s.start_line
  pub ordered : s.start_line ≤ s.end_line
  pub within : s.end_line ≤ count
  pub starts : s.snippet_start ≡ s.start_line
  pub ends : s.snippet_end ≡ s.end_line
  pub uncut : s.truncated ≡ false

-- A node ends where it starts or below, and one of a kind that is extracted ends in the file.
abbrev pub InRows : List Text → ℕ → Node → Type 0
InRows allowed count node =
    (node.start_row ≤ node.end_row)
    × (any allowed (text_eq (kind_of node.tree)) ≡ true → node.end_row < count)

-- The nodes of a file in a language, which has `count` lines.
abbrev pub IsTree : Text → ℕ → Tree → Type 0
IsTree language count tree =
    (start end : ℕ) → All (InRows (definition_kinds language) count) (tree start end)

append-All : (P : Symbol → Type 0) (xs ys : List Symbol) → All P xs → All P ys → All P (xs ++ ys)
append-All P [] ys h k = k
append-All P (x ∷ xs) ys h k = (h.0, append-All P xs ys h.1 k)

none_or-All :
    (P : Node → Type 0) (b : Bool) (nodes : List Node)
    → All P nodes
    → All P (if b then [] else nodes)
none_or-All P true nodes h = tt
none_or-All P false nodes h = h

is_new-allowed :
    (allowed : List Text) (seen : List ℕ) (node : Node)
    → is_new allowed seen node ≡ true
    → any allowed (text_eq (kind_of node.tree)) ≡ true
unfolding is_new
is_new-allowed allowed seen node h = ground arith

module _ (allowed : List Text) (count : ℕ) where
  symbol_of-IsFound :
      (node : Node)
      → node.start_row ≤ node.end_row
      → node.end_row < count
      → IsFound count (symbol_of node)
  unfolding symbol_of
  symbol_of-IsFound node h within = record {
    positive = omega arith;
    ordered = omega arith;
    within = omega arith;
    starts = refl;
    ends = refl;
    uncut = refl;
  }

  add_node-IsFound :
      (node : Node) (found : Found)
      → InRows allowed count node
      → All (IsFound count) found.1
      → All (IsFound count) (add_node allowed node found).1
  unfolding add_node
  add_node-IsFound node (seen, symbols) h k = elim (Bool-cases (is_new allowed seen node)) [
    | inl new ↦
        let fine = symbol_of-IsFound node h.0 (h.1 (is_new-allowed allowed seen node new)) in
        rw new (append-All (IsFound count) symbols (symbol_of node ∷ []) k (fine, tt))
    | inr old ↦ rw old k
  ]

  climb-IsFound :
      (nodes : List Node) (found : Found)
      → All (InRows allowed count) nodes
      → All (IsFound count) found.1
      → All (IsFound count) (climb allowed nodes found).1
  unfolding climb
  climb-IsFound [] found h k = k
  climb-IsFound (node ∷ nodes) found h k =
      climb-IsFound nodes (add_node allowed node found) h.1 (add_node-IsFound node found h.0 k)

  module _ (tree : Tree)
      (in_rows : (start end : ℕ) → All (InRows allowed count) (tree start end)) where
    nodes_of-InRows :
        (lines : List Text) (offsets : List ℕ)
        → All (InRows allowed count) (nodes_of tree lines offsets)
    unfolding nodes_of
    nodes_of-InRows [] offsets = tt
    nodes_of-InRows (line ∷ lines) [] = tt
    nodes_of-InRows (line ∷ lines) (offset ∷ offsets) =
        none_or-All (InRows allowed count) _ _ (in_rows _ _)

    nodes_at-InRows :
        (lines : List Text) (offsets : List ℕ) (target : ℕ)
        → All (InRows allowed count) (nodes_at tree lines offsets target)
    unfolding nodes_at
    nodes_at-InRows lines offsets target =
        none_or-All (InRows allowed count) _ _
          (nodes_of-InRows (drop (target - 1) lines) (drop (target - 1) offsets))

    find_all-IsFound :
        (lines : List Text) (offsets targets : List ℕ) (found : Found)
        → All (IsFound count) found.1
        → All (IsFound count) (find_all allowed tree lines offsets targets found).1
    unfolding find_all
    find_all-IsFound lines offsets [] found k = k
    find_all-IsFound lines offsets (target ∷ targets) found k =
        find_all-IsFound lines offsets targets
          (climb allowed (nodes_at tree lines offsets target) found)
          (climb-IsFound (nodes_at tree lines offsets target) found
            (nodes_at-InRows lines offsets target) k)

insert_symbol-All :
    (P : Symbol → Type 0) (s : Symbol) (ts : List Symbol)
    → P s
    → All P ts
    → All P (insert_symbol s ts)
unfolding insert_symbol
insert_symbol-All P s [] h k = (h, tt)
insert_symbol-All P s (t ∷ ts) h k = elim (Bool-cases (comes_before t s)) [
  | inl later ↦ rw later (k.0, insert_symbol-All P s ts h k.1)
  | inr first ↦ rw first (h, k)
]

sort_symbols-All : (P : Symbol → Type 0) (ss : List Symbol) → All P ss → All P (sort_symbols ss)
unfolding sort_symbols
sort_symbols-All P [] h = tt
sort_symbols-All P (s ∷ ss) h =
    insert_symbol-All P s (sort_symbols ss) h.0 (sort_symbols-All P ss h.1)

select-All :
    (P : Symbol → Type 0) (p : Symbol → Bool) (ss : List Symbol) → All P ss → All P (select p ss)
select-All P p [] h = tt
select-All P p (s ∷ ss) h = elim (Bool-cases (p s)) [
  | inl passes ↦ rw passes (h.0, select-All P p ss h.1)
  | inr fails ↦ rw fails (select-All P p ss h.1)
]

either-All :
    (P : Symbol → Type 0) (b : Bool) (xs ys : List Symbol)
    → All P xs
    → All P ys
    → All P (if b then xs else ys)
either-All P true xs ys h k = h
either-All P false xs ys h k = k

remove_containing-All :
    (P : Symbol → Type 0) (symbols : List Symbol)
    → All P symbols
    → All P (remove_containing_symbols symbols)
unfolding remove_containing_symbols
remove_containing-All P symbols h =
    either-All P (ltb (length symbols) 2) symbols _ h (select-All P _ symbols h)

-- With a parser whose nodes do not end above where they start, nor those of the extracted kinds
-- behind the file: at most eight symbols are found, each on lines of the file in their order, with
-- all of them as its snippet.
pub find_symbols-IsFound :
    (tree : Tree) (source language : Text) (targets : List ℕ) (lines : List Text)
    → IsTree language (length lines) tree
    → All (IsFound (length lines)) (find_symbols tree source language targets lines)
      × (length (find_symbols tree source language targets lines) ≤ max_symbols)
unfolding find_symbols
find_symbols-IsFound tree source language targets lines h =
    let kinds = definition_kinds language in
    let found = find_all kinds tree lines (line_offsets source) targets ([], []) in
    let P = IsFound (length lines) in
    let fine : All P found.1 =
      find_all-IsFound kinds (length lines) tree h lines (line_offsets source) targets ([], [])
        tt in
    let sorted = sort_symbols found.1 in
    (
      take-All P max_symbols (remove_containing_symbols sorted)
          (remove_containing-All P sorted (sort_symbols-All P found.1 fine)),
      length-take max_symbols (remove_containing_symbols sorted),
    )
