-- ===== src/Agent/Tools.antt =====
-- internal/agent/tool.go: the registry of the tools that an agent can call.
pub mod Registered
use github_pr_review_agent.Common.{
  ℕ, Bool, true, false, not, ◌&&◌, ◌||◌, Option, none, some, List, [], ◌∷◌, ◌++◌, Text, codes,
  is_empty, text_eq, trim_space, ltb, ◌==◌, if◌then◌else◌,
}
use mathlib.Core.List.{map}
use github_pr_review_agent.Common.Json.{Fields, end, field}
use github_pr_review_agent.Store.Transaction.{message, broken, Result, ok, err, ◌>>=◌}
use github_pr_review_agent.Agent.Messages.{ToolDefinition, ToolEnd}

-- A tool acts on the state `S`. The name, the description and the schema are the answers of its
-- methods.
pub record Tool (S : Type 0) : Type 0 where
  pub name : Text
  pub description : Text
  pub schema : Fields
  pub execute : Fields → S → ToolEnd × S

abbrev pub Registry : Type 0 → Type 0
Registry S = List (Text × Tool S)

module _ {S : Type 0} where
  unfoldable pub find_tool : Text → Registry S → Option (Tool S)
  unfolding text_eq
  find_tool name [] = none
  find_tool name ((n, tool) ∷ registry) =
      if text_eq n name then some tool else find_tool name registry

  abbrev pub is_known : Option (Tool S) → Bool
  is_known none = false
  is_known (some tool) = true

abbrev pub has_no_fields : Fields → Bool
has_no_fields end = true
has_no_fields (field name value fields) = false

-- `quoted` is %q.
module _ {S : Type 0} (quoted : Text → Text) where
  -- The checks of one tool; nil has no model but `none`.
  unfoldable pub register : Option (Tool S) → Registry S → Result (Registry S)
  register none registry = err (broken (codes "register agent tool: tool is nil"))
  register (some tool) registry =
      let name = trim_space tool.name in
      let refuse : Text → Result (Registry S) =
        λ reason. err (broken (codes "register agent tool " ++ quoted name ++ reason)) in
      if is_empty name
      then err (broken (codes "register agent tool: name is required"))
      else if is_empty tool.description
      then refuse (codes ": description is required")
      else if has_no_fields tool.schema
      then refuse (codes ": schema is required")
      else if is_known (find_tool name registry)
      then refuse (codes ": tool already registered")
      else ok ((name, tool) ∷ registry)

  unfoldable pub register_all : List (Option (Tool S)) → Registry S → Result (Registry S)
  register_all [] registry = ok registry
  register_all (tool ∷ tools) registry = do
    registry' ← register tool registry
    register_all tools registry'

  unfoldable pub new_registry : List (Option (Tool S)) → Result (Registry S)
  unfolding register_all register
  new_registry tools = register_all tools []

-- The order of sort.Strings; that of UTF-8 bytes is that of code points.
pub text_le : Text → Text → Bool
text_le [] t = true
text_le (a ∷ s) [] = false
text_le (a ∷ s) (b ∷ t) = ltb a b || ((a == b) && text_le s t)

abbrev failed : Text → ToolEnd
failed e = record { output = []; error = e; duration_ms = 0 }

module _ {S : Type 0} where
  pub insert_by_name : Text × Tool S → Registry S → Registry S
  unfolding text_le
  insert_by_name entry [] = entry ∷ []
  insert_by_name entry (other ∷ rest) =
      if text_le entry.0 other.0 then entry ∷ other ∷ rest else other ∷ insert_by_name entry rest

  pub sort_names : Registry S → Registry S
  unfolding insert_by_name
  sort_names [] = []
  sort_names (entry ∷ rest) = insert_by_name entry (sort_names rest)

  unfoldable pub definitions : Registry S → List ToolDefinition
  unfolding sort_names
  definitions registry =
      map
        (λ (entry : Text × Tool S). record {
          name = entry.1.name;
          description = entry.1.description;
          parameters = entry.1.schema;
        })
        (sort_names registry)

  -- Registry.Execute. `decode` is json.Unmarshal into a map.
  unfoldable pub registry_execute :
      (Text → Text) → (Text → Result Fields) → Registry S → Text → Text → S → ToolEnd × S
  unfolding trim_space find_tool
  registry_execute quoted decode registry name arguments s =
      elim (find_tool (trim_space name) registry) [
        | none ↦ (failed (codes "agent tool " ++ quoted name ++ codes " is not registered"), s)
        | some tool ↦
            if is_empty (trim_space arguments)
            then tool.execute end s
            else elim (decode arguments) [
              | ok input ↦ tool.execute input s
              | err e ↦ (
                failed (
                    codes "decode agent tool " ++ quoted name ++ codes " arguments: " ++ message e),
                s,
              )
            ]
      ]
