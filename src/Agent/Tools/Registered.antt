-- ===== src/Agent/Tools/Registered.antt =====
-- Which tool a call reaches (internal/agent/tool.go).
use github_pr_review_agent.Common.{
  Option, none, some, List, [], ◌∷◌, Text, text_eq, text_eq→≡, text_eq_refl, trim_space, All, ◌≡◌,
  ◌≢◌, refl, sym, ap, subst, inl, inr, arith, Bool-cases, Option-cases,
}
use github_pr_review_agent.Store.Transaction.{ok, Result-cases}
use github_pr_review_agent.Agent.Tools.{
  Tool, Registry, find_tool, register, register_all, new_registry,
}

module _ {S : Type 0} (quoted : Text → Text) where
  -- The registry has the tool under its trimmed name.
  abbrev Reached : Registry S → Option (Tool S) → Type 0
  Reached registry none = ⊥
  Reached registry (some tool) = find_tool (trim_space tool.name) registry ≡ some tool

  -- A new name hides none that is known.
  find_tool-cons :
      (name other : Text) (tool known : Tool S) (registry : Registry S)
      → find_tool name registry ≡ none
      → find_tool other registry ≡ some known
      → find_tool other ((name, tool) ∷ registry) ≡ some known
  unfolding find_tool
  find_tool-cons name other tool known registry new old = elim (Bool-cases (text_eq name other)) [
    | inl same ↦ absurd (cc (ap (λ n. find_tool n registry) (text_eq→≡ name other same)))
    | inr differs ↦ rw differs old
  ]

  register-ok :
      (tool : Tool S) (registry registry' : Registry S)
      → register quoted (some tool) registry ≡ ok registry'
      → (find_tool (trim_space tool.name) registry ≡ none)
        × (registry' ≡ (trim_space tool.name, tool) ∷ registry)
  unfolding register
  register-ok tool registry registry' h =
      elim (Option-cases (find_tool (trim_space tool.name) registry)) [
        | inl new ↦ (new, ground arith)
        | inr (known, old) ↦ absurd (ground arith)
      ]

  nil_fails :
      (tools : List (Option (Tool S))) (registry registry' : Registry S)
      → register_all quoted (none ∷ tools) registry ≢ ok registry'
  unfolding register_all register
  nil_fails tools registry registry' h = cc

  register_all-keeps :
      (tools : List (Option (Tool S))) (registry registry' : Registry S) (name : Text)
      (known : Tool S)
      → register_all quoted tools registry ≡ ok registry'
      → find_tool name registry ≡ some known
      → find_tool name registry' ≡ some known
  unfolding register_all
  register_all-keeps [] registry registry' name known h old =
      let same : registry ≡ registry' = cc in subst (λ g. find_tool name g ≡ some known) same old
  register_all-keeps (none ∷ tools) registry registry' name known h old =
      absurd (nil_fails tools registry registry' h)
  register_all-keeps (some tool ∷ tools) registry registry' name known h old =
      elim (Result-cases (register quoted (some tool) registry)) [
        | inr (e, bad) ↦ absurd (ground arith)
        | inl (next, good) ↦
            let (new, grown) = register-ok tool registry next good in
            register_all-keeps tools next registry' name known (ground arith) (
              subst (λ g. find_tool name g ≡ some known) (sym grown)
                (find_tool-cons (trim_space tool.name) name tool known registry new old))
      ]

  find_tool_head :
      (name : Text) (tool : Tool S) (registry : Registry S)
      → find_tool name ((name, tool) ∷ registry) ≡ some tool
  unfolding find_tool
  find_tool_head name tool registry = rw (text_eq_refl name) refl

  register_all-Reached :
      (tools : List (Option (Tool S))) (registry registry' : Registry S)
      → register_all quoted tools registry ≡ ok registry'
      → All (Reached registry') tools
  unfolding register_all
  register_all-Reached [] registry registry' h = tt
  register_all-Reached (none ∷ tools) registry registry' h =
      absurd (nil_fails tools registry registry' h)
  register_all-Reached (some tool ∷ tools) registry registry' h =
      elim (Result-cases (register quoted (some tool) registry)) [
        | inr (e, bad) ↦ absurd (ground arith)
        | inl (next, good) ↦
            let (new, grown) = register-ok tool registry next good in
            let name = trim_space tool.name in
            let rest : register_all quoted tools next ≡ ok registry' = ground arith in
            (
              register_all-keeps tools next registry' name tool rest (
                  subst (λ g. find_tool name g ≡ some tool) (sym grown)
                    (find_tool_head name tool registry)),
              register_all-Reached tools next registry' rest,
            )
      ]

  -- In a registry that NewRegistry accepts, every tool is there under its name without the space
  -- around it: none is nil, and none hides another.
  new_registry-Reached :
      (tools : List (Option (Tool S))) (registry : Registry S)
      → new_registry quoted tools ≡ ok registry
      → All (Reached registry) tools
  unfolding new_registry
  new_registry-Reached tools registry h = register_all-Reached tools [] registry h
