-- ===== src/Agent/Monad.antt =====
-- How Agent.Run (internal/agent/agent.go) goes on: its variables are passed along, and an error
-- ends it.
use github_pr_review_agent.Common.{Bool, [], ◌∷◌, ◌++◌, Text, if◌then◌else◌}
use github_pr_review_agent.Store.Transaction.{broken, Result, ok, err}
use github_pr_review_agent.Agent.Messages.{ChatMessage, ChatResponse, AgentResult, Session, wrap}

-- An error ends the run, which returns its result all the same.
abbrev pub M : Type 0 → Type 0 → Type 0
M S A = Session S → Result A × Session S

infixl 5 ◌>>=◌ ◌>>◌
unfoldable pub bind : {S A B : Type 0} → Result A × Session S → (A → M S B) → Result B × Session S
bind (ok a, r) f = f a r
bind (err e, r) f = (err e, r)

unfoldable pub ◌>>=◌ : {S A B : Type 0} → M S A → (A → M S B) → M S B
unfolding bind
◌>>=◌ m f r = bind (m r) f

unfoldable pub ◌>>◌ : {S A B : Type 0} → M S A → M S B → M S B
unfolding bind
◌>>◌ m k r = bind (m r) (λ _. k)

unfoldable pub give : {S A : Type 0} → A → M S A
give a r = (ok a, r)

unfoldable pub give_up : {S A : Type 0} → Text → M S A
give_up e r = (err (broken e), r)

-- `err e` with a text in front.
unfoldable pub with_prefix : {S A : Type 0} → Text → M S A → M S A
with_prefix prefix m r = let (x, r') = m r in (wrap prefix x, r')

-- A step that depends on the variables of the run.
unfoldable pub reading : {S A : Type 0} → (Session S → M S A) → M S A
reading f r = f r r

unfoldable pub update : {S : Type 0} → (AgentResult → AgentResult) → M S (Unit {0})
update f r = (ok tt, record r { result = f r.result })

unfoldable pub require : {S : Type 0} → Bool → Text → M S (Unit {0})
unfolding give give_up
require b e = if b then give tt else give_up e

-- messages = append(messages, ...)
unfoldable pub say : {S : Type 0} → ChatMessage → M S (Unit {0})
say m r = (ok tt, record r { messages = r.messages ++ m ∷ [] })

abbrev pub set_content : ChatResponse → AgentResult → AgentResult
set_content response result = record result { content = response.content }
