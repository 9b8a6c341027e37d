-- ===== src/Codecontext/Symbols.antt =====
-- internal/codecontext/codecontext.go: the definitions that a syntax tree has around lines. The
-- parser is a parameter, which gives the nodes around a range of bytes.
pub mod Placed
use github_pr_review_agent.Common.{
  ℕ, zero, suc, ◌+◌, ◌-◌, ◌==◌, Bool, true, false, not, ◌&&◌, ◌||◌, Option, none, some, List, [],
  ◌∷◌, ◌++◌, Text, codes, is_empty, text_eq, trim_space, length, take, drop, select, any, ltb, leb,
  if◌then◌else◌,
}
use github_pr_review_agent.Agent.Messages.{byte_length}
use github_pr_review_agent.Review.Prompt.{has_extension}
use github_pr_review_agent.Codecontext.Targets.{line_offsets}

abbrev pub max_symbols : ℕ
max_symbols = 8

pub record Symbol : Type 0 where
  pub name : Text
  pub kind : Text
  pub start_line : ℕ
  pub end_line : ℕ
  pub snippet_start : ℕ
  pub snippet_end : ℕ
  pub truncated : Bool

-- A node: its kind, the text of its child "name" if it has one, and its named children.
mutual
  pub data Syntax : Type 0 where
    syntax : Text → Option Text → Children → Syntax

  pub data Children : Type 0 where
    childless : Children
    child : Syntax → Children → Children

pub record Node : Type 0 where
  pub id : ℕ
  pub tree : Syntax
  pub start_row : ℕ
  pub end_row : ℕ

-- The node around a range of bytes, with its ancestors.
abbrev pub Tree : Type 0
Tree = ℕ → ℕ → List Node

abbrev pub kind_of : Syntax → Text
kind_of (syntax kind name children) = kind

pub own_name : Syntax → Text
unfolding trim_space
own_name (syntax kind none children) = []
own_name (syntax kind (some name) children) = trim_space name

pub to_list : Children → List Syntax
to_list childless = []
to_list (child tree rest) = tree ∷ to_list rest

-- The next queue.
pub below : List Syntax → List Syntax
unfolding to_list
below [] = []
below (syntax kind name children ∷ queue) = to_list children ++ below queue

pub first_name : List Syntax → Text
unfolding own_name
first_name [] = []
first_name (tree ∷ queue) =
    let rest = first_name queue in if is_empty (own_name tree) then rest else own_name tree

-- The search for a name among the descendants, so many levels deep.
pub search_name : ℕ → Text → List Syntax → Text
unfolding below first_name
search_name zero kind queue = kind
search_name (suc depth) kind queue =
    let next = below queue in
    let deeper = search_name depth kind next in
    if is_empty (first_name next) then deeper else first_name next

pub symbol_name : Syntax → Text
unfolding own_name search_name
symbol_name tree =
    if is_empty (own_name tree) then search_name 4 (kind_of tree) (tree ∷ []) else own_name tree

-- A switch on the extension in lower case.
unfoldable pub language_for_path : Text → Text
unfolding has_extension
language_for_path path =
    if has_extension (codes ".go" ∷ []) path
    then codes "go"
    else if has_extension (codes ".py" ∷ codes ".pyi" ∷ []) path
    then codes "python"
    else if has_extension (codes ".js" ∷ codes ".jsx" ∷ codes ".mjs" ∷ codes ".cjs" ∷ []) path
    then codes "javascript"
    else codes "unsupported"

unfoldable pub definition_kinds : Text → List Text
unfolding text_eq
definition_kinds language =
    if text_eq language (codes "go")
    then codes "function_declaration" ∷ codes "method_declaration" ∷ codes "type_declaration" ∷ []
    else if text_eq language (codes "python")
    then codes "function_definition" ∷ codes "class_definition" ∷ []
    else if text_eq language (codes "javascript")
    then codes "function_declaration"
      ∷ codes "generator_function_declaration"
      ∷ codes "method_definition"
      ∷ codes "class_declaration"
      ∷ codes "lexical_declaration"
      ∷ codes "variable_declaration"
      ∷ []
    else []

unfoldable pub symbol_of : Node → Symbol
unfolding symbol_name
symbol_of node = record {
  name = symbol_name node.tree;
  kind = kind_of node.tree;
  start_line = node.start_row + 1;
  end_line = node.end_row + 1;
  snippet_start = node.start_row + 1;
  snippet_end = node.end_row + 1;
  truncated = false;
}

-- The nodes that were seen, and the symbols so far.
abbrev pub Found : Type 0
Found = List ℕ × List Symbol

unfoldable pub is_new : List Text → List ℕ → Node → Bool
unfolding text_eq any
is_new allowed seen node =
    any allowed (text_eq (kind_of node.tree)) && not (any seen (λ n. n == node.id))

unfoldable pub add_node : List Text → Node → Found → Found
unfolding symbol_of
add_node allowed node (seen, symbols) =
    if is_new allowed seen node
    then (node.id ∷ seen, symbols ++ symbol_of node ∷ [])
    else (seen, symbols)

-- The loop from a node to the root.
unfoldable pub climb : List Text → List Node → Found → Found
climb allowed [] found = found
climb allowed (node ∷ nodes) found = climb allowed nodes (add_node allowed node found)

pub indent_of : Text → ℕ
indent_of [] = 0
indent_of (c ∷ line) = if (c == b' ') || (c == 9) then suc (indent_of line) else 0

-- The nodes around the first of some lines, if it is not blank.
unfoldable pub nodes_of : Tree → List Text → List ℕ → List Node
unfolding indent_of byte_length
nodes_of tree [] offsets = []
nodes_of tree (line ∷ lines) [] = []
nodes_of tree (line ∷ lines) (offset ∷ offsets) =
    if indent_of line == length line
    then []
    else tree (offset + indent_of line) (offset + byte_length line)

unfoldable pub nodes_at : Tree → List Text → List ℕ → ℕ → List Node
unfolding nodes_of
nodes_at tree lines offsets target =
    if target == 0 then [] else nodes_of tree (drop (target - 1) lines) (drop (target - 1) offsets)

-- The loop over the target lines.
unfoldable pub find_all : List Text → Tree → List Text → List ℕ → List ℕ → Found → Found
unfolding climb nodes_at
find_all allowed tree lines offsets [] found = found
find_all allowed tree lines offsets (target ∷ targets) found =
    find_all allowed tree lines offsets targets
      (climb allowed (nodes_at tree lines offsets target) found)

abbrev pub comes_before : Symbol → Symbol → Bool
comes_before a b =
    if a.start_line == b.start_line
    then ltb a.end_line b.end_line
    else ltb a.start_line b.start_line

-- sort.SliceStable
unfoldable pub insert_symbol : Symbol → List Symbol → List Symbol
insert_symbol s [] = s ∷ []
insert_symbol s (t ∷ ts) = if comes_before t s then t ∷ insert_symbol s ts else s ∷ t ∷ ts

unfoldable pub sort_symbols : List Symbol → List Symbol
unfolding insert_symbol
sort_symbols [] = []
sort_symbols (s ∷ ss) = insert_symbol s (sort_symbols ss)

abbrev bool_eq : Bool → Bool → Bool
bool_eq true b = b
bool_eq false b = not b

-- candidate == other
unfoldable pub symbol_eq : Symbol → Symbol → Bool
unfolding text_eq
symbol_eq a b =
    text_eq a.name b.name
    && text_eq a.kind b.kind
    && (a.start_line == b.start_line)
    && (a.end_line == b.end_line)
    && (a.snippet_start == b.snippet_start)
    && (a.snippet_end == b.snippet_end)
    && bool_eq a.truncated b.truncated

unfoldable pub is_nested : Symbol → Symbol → Bool
unfolding symbol_eq
is_nested candidate other =
    not (symbol_eq candidate other)
    && leb candidate.start_line other.start_line
    && leb other.end_line candidate.end_line

unfoldable pub remove_containing_symbols : List Symbol → List Symbol
unfolding is_nested any
remove_containing_symbols symbols =
    if ltb (length symbols) 2
    then symbols
    else select (λ candidate. not (any symbols (is_nested candidate))) symbols

unfoldable pub find_symbols : Tree → Text → Text → List ℕ → List Text → List Symbol
unfolding line_offsets
find_symbols tree source language targets lines =
    let (seen, symbols) =
      find_all (definition_kinds language) tree lines (line_offsets source) targets ([], []) in
    take max_symbols (remove_containing_symbols (sort_symbols symbols))
