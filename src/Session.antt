-- ===== src/Session.antt =====
-- One request's `AsyncSession`: the rows that it sees and has flushed, and what the environment
-- has handed out so far. An operation either returns, with the session that it leaves, or raises;
-- a request that raises never commits, so its writes are dropped with it.
pub mod Steps
pub mod Tables
pub mod Runs
pub mod Yields
pub mod Ensures
pub mod History
pub mod Writes
use occj.Prelude.{
  ℕ, suc, ◌+◌, String, Bool, Option, none, some, List, [], ◌∷◌, ◌++◌, first, update, ◌==◌,
  if◌then◌else◌,
}
use occj.Models.Rows.{
  User, Customer, Case, EvidenceRecord, CanonicalEvent, UncertaintyFlag, Hypothesis, EvidenceLink,
  ImpactAssessment, ActionRequest, Approval, ToolExecution, AuditEntry,
}

pub record Db : Type 0 where
  pub users : List User
  pub customers : List Customer
  pub cases : List Case
  pub evidence : List EvidenceRecord
  pub events : List CanonicalEvent
  pub flags : List UncertaintyFlag
  pub hypotheses : List Hypothesis
  pub links : List EvidenceLink
  pub impacts : List ImpactAssessment
  pub actions : List ActionRequest
  pub approvals : List Approval
  pub executions : List ToolExecution
  pub audit : List AuditEntry
  -- how many keys `new_id` has made, and how often the clock has been read
  pub ids : ℕ
  pub reads : ℕ

abbrev pub empty_db : Db
empty_db = record {
  users = [];
  customers = [];
  cases = [];
  evidence = [];
  events = [];
  flags = [];
  hypotheses = [];
  links = [];
  impacts = [];
  actions = [];
  approvals = [];
  executions = [];
  audit = [];
  ids = 0;
  reads = 0;
}

-- The exceptions that an operation may raise.
pub data Error : Type 0 where
  -- `ApprovalError`, with its reason
  not_a_decision already_decided wrong_role action_not_found : Error
  -- `ConnectorError`
  not_configured : Error
  -- `float(...)`, an enumeration's or a `fromisoformat` lookup of a bad value, a value of a type
  -- that an operation does not take, or a dictionary's missing key
  value_error : Error
  -- an attribute of `None`
  attribute_error : Error
  -- `HTTPException`, by its status
  unauthorized forbidden not_found : Error

pub data Result {ℓ} (A : Type ℓ) : Type ℓ where
  ok : A → Result A
  err : Error → Result A

abbrev pub M : Type 0 → Type 0
M A = Db → Result (A × Db)

module _ {A : Type 0} where
  abbrev pub pure : A → M A
  pure a s = ok (a, s)

  abbrev pub raise : Error → M A
  raise e s = err e

  abbrev pub gets : (Db → A) → M A
  gets f s = ok (f s, s)

  -- `if value is None: raise …`
  abbrev pub or_raise : Option A → Error → M A
  or_raise none e = raise e
  or_raise (some a) e = pure a

infixl 5 ◌>>=◌ ◌>>◌
abbrev pub ◌>>=◌ : {A B : Type 0} → M A → (A → M B) → M B
◌>>=◌ m f s = elim (m s) [ ok (a, s') ↦ f a s' | err e ↦ err e ]

abbrev pub ◌>>◌ : {A B : Type 0} → M A → M B → M B
m >> k = m >>= λ _. k

abbrev pub modify : (Db → Db) → M (Unit {0})
modify f s = ok (tt, f s)

abbrev pub skip : M (Unit {0})
skip = pure tt

-- `if c: …` with no result
abbrev pub when : Bool → M (Unit {0}) → M (Unit {0})
when c m = if c then m else skip

-- `if value is None: … else: …`
abbrev pub on_option : {A B : Type 0} → Option A → M B → (A → M B) → M B
on_option none m f = m
on_option (some a) m f = f a

-- `for x in xs: …`
unfoldable pub for_each : {A : Type 0} → List A → (A → M (Unit {0})) → M (Unit {0})
for_each [] f = skip
for_each (x ∷ xs) f = do f x; for_each xs f

-- What the environment hands out: the n-th key of `new_id` and the n-th reading of `utcnow`.
pub record Supply : Type 0 where
  pub key : ℕ → String
  pub clock : ℕ → ℕ

module _ (env : Supply) where
  unfoldable pub new_id : M String
  new_id s = ok (env.key s.ids, record s { ids = s.ids + 1 })

  unfoldable pub utcnow : M ℕ
  utcnow s = ok (env.clock s.reads, record s { reads = s.reads + 1 })
