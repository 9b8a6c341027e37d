-- ===== src/Common/Json.antt =====
-- What encoding/json decodes a text into.
use github_pr_review_agent.Common.Strings.{Text}

-- A value of type any; a map lists its fields in the order in which Go happens to range over them.
mutual
  pub data Value : Type 0 where
    text : Text → Value
    items : Values → Value
    object : Fields → Value
    scalar : Value

  pub data Values : Type 0 where
    done : Values
    item : Value → Values → Values

  pub data Fields : Type 0 where
    end : Fields
    field : Text → Value → Fields → Fields
