-- ===== src/Store/Transaction.antt =====
-- How a Go function of internal/store runs its SQL: statements that may fail, a deferred Rollback,
-- and a Commit whose confirmation may be lost.
use github_pr_review_agent.Common.{
  ℕ, ◌==◌, Option, none, some, Text, codes, if◌then◌else◌, ◌≡◌, refl, arith, ◌++◌, ◌⊎◌, inl, inr,
}
use github_pr_review_agent.Store.Tables.{Database}

-- The errors that callers tell apart; `broken` carries the text of any other.
pub data Error : Type 0 where
  task_not_found task_transition_failed review_result_not_found : Error
  review_delivery_not_found : Error
  task_superseded : Text → Error
  broken : Text → Error

-- err.Error()
unfoldable pub message : Error → Text
message task_not_found = codes "review task not found"
message task_transition_failed = codes "review task transition failed"
message review_result_not_found = codes "review result not found"
message review_delivery_not_found = codes "review delivery not found"
message (task_superseded detail) = codes "review task superseded by a newer PR head: " ++ detail
message (broken text) = text

pub data Result {ℓ} (A : Type ℓ) : Type ℓ where
  ok : A → Result A
  err : Error → Result A

pub Result-cases {ℓ} :
    {A : Type ℓ} (r : Result A) → ((a : A) × (r ≡ ok a)) ⊎ ((e : Error) × (r ≡ err e))
Result-cases (ok a) = inl (a, refl)
Result-cases (err e) = inr (e, refl)

-- sql.ErrNoRows.Error()
abbrev pub no_rows : Text
no_rows = codes "sql: no rows in result set"

abbrev pub or_fail {ℓ} : {A : Type ℓ} → Option A → Error → Result A
or_fail none e = err e
or_fail (some a) e = ok a

-- `if err != nil { return err }` after a call.
infixl 5 ◌>>=◌ ◌>>◌
abbrev pub ◌>>=◌ {ℓ κ} : {A : Type ℓ} {B : Type κ} → Result A → (A → Result B) → Result B
err failed >>= next = err failed
ok value >>= next = next value

abbrev pub ◌>>◌ {ℓ} : {A : Type ℓ} → Result (Unit {0}) → Result A → Result A
first >> rest = first >>= (λ _. rest)

-- What goes wrong in a call: nothing, statement number j (with the text of its error), or the
-- answer to a commit that took effect.
pub data Fault : Type 0 where
  sound : Fault
  breaks : ℕ → Text → Fault
  unconfirmed : Text → Fault

-- What a call takes from its surroundings: its fault, the server's clock, and how many
-- AUTO_INCREMENT values were skipped since the last one in use.
pub record Conn : Type 0 where
  pub fault : Fault
  pub clock : ℕ
  pub gap : ℕ

-- Statement number k is sent.
unfoldable pub statement : Conn → ℕ → Result (Unit {0})
statement c k = elim c.fault [
  | sound ↦ ok tt
  | breaks j text ↦ if j == k then err (broken text) else ok tt
  | unconfirmed text ↦ ok tt
]

-- How the body of a transaction ends: with its value and the changed tables, or by the deferred
-- Rollback with a value.
pub data Ending {ℓ} (A : Type ℓ) : Type ℓ where
  commit : A → Database → Ending A
  rollback : A → Ending A

confirm {ℓ} : {A : Type ℓ} → Fault → A → Result A
confirm sound a = ok a
confirm (breaks j text) a = ok a
confirm (unconfirmed text) a = err (broken text)

settle {ℓ} : {A : Type ℓ} → Conn → Database → Result (Ending A) → Result A × Database
unfolding confirm
settle c db (ok (commit a db')) = (confirm c.fault a, db')
settle c db (ok (rollback a)) = (ok a, db)
settle c db (err e) = (err e, db)

unfoldable pub transaction {ℓ} :
    {A : Type ℓ} → Conn → (Database → Result (Ending A)) → Database → Result A × Database
unfolding settle
transaction c body db = settle c db (body db)

-- Both ways for a transaction to end: the tables are as before, and a value comes from the
-- rollback; or the body has committed what it computed, and an error means that the confirmation
-- was lost.
pub transaction_cases {ℓ κ} :
    {A : Type ℓ} (c : Conn) (body : Database → Result (Ending A)) (db : Database)
    (P : Result A × Database → Type κ)
    → ((r : Result A) → ((a : A) → r ≡ ok a → body db ≡ ok (rollback a)) → P (r, db))
    → ((a : A) (db' : Database) (r : Result A)
        → body db ≡ ok (commit a db')
        → ((b : A) → r ≡ ok b → b ≡ a)
        → P (r, db'))
    → P (transaction c body db)
unfolding transaction
transaction_cases {A} c body db P same changed = go (body db) refl
  where
    confirmed : (a : A) (b : A) → confirm c.fault a ≡ ok b → b ≡ a
    confirmed a b e = ground arith

    go : (r : Result (Ending A)) → body db ≡ r → P (settle c db r)
    go (ok (commit a db')) e = changed a db' (confirm c.fault a) e (confirmed a)
    go (ok (rollback a)) e = same (ok a) (λ b q. rw e (cc))
    go (err x) e = same (err x) (λ b q. cc)

-- With nothing failing, a body that commits is what the transaction does.
pub transaction_sound {ℓ} :
    {A : Type ℓ} (c : Conn) (body : Database → Result (Ending A)) (db db' : Database) (a : A)
    → c.fault ≡ sound
    → body db ≡ ok (commit a db')
    → transaction c body db ≡ (ok a, db')
unfolding transaction
transaction_sound c body db db' a fine e = rw e (rw fine refl)

pub transaction_err {ℓ} :
    {A : Type ℓ} (c : Conn) (body : Database → Result (Ending A)) (db : Database) (e : Error)
    → body db ≡ err e
    → transaction c body db ≡ (err e, db)
unfolding transaction
transaction_err c body db e q = rw q refl

-- The tables of the reviews are as they were.
abbrev pub SameReviews : Database → Database → Type 0
SameReviews db db' = (db'.deliveries ≡ db.deliveries) × (db'.results ≡ db.results)

pub transaction-SameReviews {ℓ} :
    {A : Type ℓ} (c : Conn) (body : Database → Result (Ending A)) (db : Database)
    → ((a : A) (db' : Database) → body db ≡ ok (commit a db') → SameReviews db db')
    → SameReviews db (transaction c body db).1
transaction-SameReviews c body db keeps =
    transaction_cases c body db (λ r. SameReviews db r.1) (λ r _. (refl, refl))
      (λ a db' r e _. keeps a db' e)

-- A transaction whose body commits the deliveries as they were leaves them as they were.
pub transaction-deliveries {ℓ} :
    {A : Type ℓ} (c : Conn) (body : Database → Result (Ending A)) (db : Database)
    → ((a : A) (db' : Database) → body db ≡ ok (commit a db') → db'.deliveries ≡ db.deliveries)
    → (transaction c body db).1.deliveries ≡ db.deliveries
transaction-deliveries c body db keeps =
    transaction_cases c body db (λ r. r.1.deliveries ≡ db.deliveries) (λ r _. refl)
      (λ a db' r e _. keeps a db' e)
