-- ===== src/Review/Evidence/Markdown/Fenced.antt =====
-- extractJSONObject (internal/review/service.go) on text in a Markdown fence.
use github_pr_review_agent.Common.{
  ℕ, true, false, some, List, [], ◌∷◌, ◌++◌, append_assoc, Text, codes, newline, is_space,
  trim_left, trim_space, split_lines, split_lines_cons, split_lines-append, split_lines-Flat, Flat,
  join_lines-split_lines, ◌≡◌, refl, sym, ap, subst, ◌∙◌,
}
use mathlib.Core.List.{reverse, reverse-append, reverse-reverse}
use github_pr_review_agent.Review.Evidence.Markdown.{
  unsnoc, is_opening, is_closing, envelope, extract_json_object,
}

trim_left_lem : (c : ℕ) (s : Text) → is_space c ≡ false → trim_left (c ∷ s) ≡ c ∷ s
unfolding trim_left
trim_left_lem c s h = rw h

-- A text with no space at its ends is left alone.
trim_space_lem :
    (c : ℕ) (s : Text) (d : ℕ)
    → is_space c ≡ false
    → is_space d ≡ false
    → trim_space (c ∷ (s ++ d ∷ [])) ≡ c ∷ (s ++ d ∷ [])
unfolding trim_space
trim_space_lem c s d hc hd =
    let whole : Text = c ∷ (s ++ d ∷ []) in
    let reversed : reverse whole ≡ d ∷ reverse (c ∷ s) = reverse-append (c ∷ s) (d ∷ []) in
    ap (λ u. reverse (trim_left (reverse u))) (trim_left_lem c (s ++ d ∷ []) hc)
    ∙ (ap (λ u. reverse (trim_left u)) reversed
        ∙ (ap reverse (trim_left_lem d (reverse (c ∷ s)) hd)
            ∙ (ap reverse (sym reversed) ∙ reverse-reverse whole)))

unsnoc-append : (lines : List Text) (last : Text) → unsnoc (lines ++ last ∷ []) ≡ some (lines, last)
unfolding unsnoc
unsnoc-append [] last = refl
unsnoc-append (line ∷ lines) last = rw (unsnoc-append lines last)

envelope_lem :
    (opening next : Text) (lines : List Text) (last : Text)
    → is_opening opening ≡ true
    → is_closing last ≡ true
    → envelope (opening ∷ (next ∷ (lines ++ last ∷ []))) ≡ some (next ∷ lines)
unfolding envelope
envelope_lem opening next lines last ho hl = rw (unsnoc-append lines last, envelope) (rw (ho, hl))

abbrev pub fence : Text
fence = codes "```"

abbrev pub fenced : Text → Text → Text
fenced info body = fence ++ info ++ newline ∷ (body ++ newline ∷ fence)

-- The lines of a fenced text.
split_fenced :
    (body : Text) → split_lines (body ++ newline ∷ fence) ≡ split_lines body ++ fence ∷ []
split_fenced body = split_lines-append body fence ∙ unfold split_lines in refl

is_closing-fence : is_closing fence ≡ true
unfolding is_closing
is_closing-fence = refl

is_opening-json : is_opening (codes "```json") ≡ true
unfolding is_opening
is_opening-json = refl

is_opening-fence : is_opening fence ≡ true
unfolding is_opening
is_opening-fence = refl

extract_lines :
    (trimmed opening body : Text)
    → is_opening opening ≡ true
    → split_lines trimmed ≡ opening ∷ split_lines (body ++ newline ∷ fence)
    → envelope (split_lines trimmed) ≡ some (split_lines body)
extract_lines trimmed opening body ho e =
    let (line, lines, eq) = split_lines_cons body in
    ap envelope (e ∙ ap (λ t. opening ∷ t) (split_fenced body ∙ ap (λ t. t ++ fence ∷ []) eq))
    ∙ (envelope_lem opening line lines fence ho is_closing-fence ∙ ap some (sym eq))

extract_json_object_lem :
    (content opening body : Text)
    → trim_space content ≡ content
    → is_opening opening ≡ true
    → split_lines content ≡ opening ∷ split_lines (body ++ newline ∷ fence)
    → extract_json_object content ≡ trim_space body
unfolding extract_json_object
extract_json_object_lem content opening body trimmed ho e =
    rw (trimmed, extract_json_object)
      (rw (extract_lines content opening body ho e) (ap trim_space (join_lines-split_lines body)))

-- One line is no envelope.
extract_json_object-line :
    (content : Text) → Flat (trim_space content) → extract_json_object content ≡ trim_space content
unfolding extract_json_object envelope
extract_json_object-line content flat =
    rw (split_lines-Flat (trim_space content) flat, extract_json_object) refl

split_json :
    (rest : Text)
    → split_lines (fence ++ codes "json" ++ newline ∷ rest) ≡ codes "```json" ∷ split_lines rest
unfolding split_lines
split_json rest = refl

split_plain : (rest : Text) → split_lines (fence ++ newline ∷ rest) ≡ fence ∷ split_lines rest
unfolding split_lines
split_plain rest = refl

-- All of a fenced text but its first and last code points.
abbrev fenced_front : Text → Text → Text
fenced_front info body = codes "``" ++ info ++ newline ∷ (body ++ newline ∷ codes "``")

fenced_ends : (info body : Text) → b'`' ∷ (fenced_front info body ++ b'`' ∷ []) ≡ fenced info body
fenced_ends info body =
    ap (λ t. fence ++ t)
      (append_assoc info (newline ∷ (body ++ newline ∷ codes "``")) (b'`' ∷ [])
        ∙ ap (λ t. info ++ newline ∷ t) (append_assoc body (newline ∷ codes "``") (b'`' ∷ [])))

trim_space-fenced : (info body : Text) → trim_space (fenced info body) ≡ fenced info body
trim_space-fenced info body =
    subst (λ (t : Text). trim_space t ≡ t) (fenced_ends info body)
      (trim_space_lem b'`' (fenced_front info body) b'`' refl refl)

-- A body between a line ```json or ``` and a line ``` is extracted, without the space around it,
-- whatever lines it has, fences included; and a text that is one line is taken as it is but for the
-- space around it.
pub extract_json_object-fenced :
    (body : Text)
    → (extract_json_object (fenced (codes "json") body) ≡ trim_space body)
      × (extract_json_object (fenced [] body) ≡ trim_space body)
      × (Flat (trim_space body) → extract_json_object body ≡ trim_space body)
extract_json_object-fenced body = (
  extract_json_object_lem _ (codes "```json") body (trim_space-fenced (codes "json") body)
      is_opening-json (split_json (body ++ newline ∷ fence)),
  extract_json_object_lem _ fence body (trim_space-fenced [] body) is_opening-fence
      (split_plain (body ++ newline ∷ fence)),
  extract_json_object-line body,
)
