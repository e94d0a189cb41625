-- ===== src/Store.antt =====
-- internal/database/tx.go, and PostgreSQL as the repositories use it: tables, statements that may
-- fail, and transactions that commit or roll back as a whole.
pub mod Laws
pub mod Reads
mod Tests
pub use lightweight_saas_backend.Result.{Result, err, ok}
use lightweight_saas_backend.Prelude.{
  Bool, List, Option, [], false, if◌then◌else◌, ltb, none, some, ℕ, ◌++◌, ◌∷◌,
}
use lightweight_saas_backend.Audit.{Event}
use lightweight_saas_backend.Connection.Model.{Row}
use lightweight_saas_backend.Project.Model.{Credential, Project}
use lightweight_saas_backend.Workspace.Model.{Workspace}

-- The tables.
pub record Db : Type 0 where
  pub workspaces : List Workspace
  pub projects : List Project
  pub credentials : List Credential
  pub connections : List Row
  pub audit : List Event

-- A connection: the data it sees, and for each statement to come whether it fails. Where the list
-- ends, no more statement fails.
pub record Session : Type 0 where
  pub db : Db
  pub faults : List Bool

-- Code that talks to the database.
abbrev pub M : Type 0 → Type 0 → Type 0
M E A = Session → Result E A × Session

abbrev pub continue_with :
    {E A B : Type 0} → (A → M E B) → Result E A × Session → Result E B × Session
continue_with f (ok a, s) = f a s
continue_with f (err e, s) = (err e, s)

infixl 5 ◌>>=◌ ◌>>◌
abbrev pub ◌>>=◌ : {E A B : Type 0} → M E A → (A → M E B) → M E B
◌>>=◌ m f s = continue_with f (m s)

abbrev pub ◌>>◌ : {E B : Type 0} → M E (Unit {0}) → M E B → M E B
m >> k = m >>= λ _. k

abbrev pub pure : {E A : Type 0} → A → M E A
pure a s = (ok a, s)

abbrev pub fail : {E A : Type 0} → E → M E A
fail e s = (err e, s)

abbrev pub lift : {E A : Type 0} → Result E A → M E A
lift r s = (r, s)

-- Whether the next statement fails, and the faults behind it.
abbrev pub next_fails : List Bool → Bool
next_fails [] = false
next_fails (b ∷ faults) = b

abbrev pub later_faults : List Bool → List Bool
later_faults [] = []
later_faults (b ∷ faults) = faults

-- What a statement leaves, where it did not fail: an error changes nothing.
unfoldable pub written : {E A : Type 0} → Session → Result E (A × Db) → Result E A × Session
written s (ok (a, db)) = (ok a, record s { db = db })
written s (err e) = (err e, s)

-- One statement: `fault` is the error it ends with where it fails, `run` what it does.
unfoldable pub statement : {E A : Type 0} → E → (Db → Result E (A × Db)) → M E A
unfolding written
statement fault run s =
    let s' = record s { faults = later_faults s.faults } in
    if next_fails s.faults then (err fault, s') else written s' (run s.db)

-- A query: it reads and changes nothing.
unfoldable pub query : {E A : Type 0} → E → (Db → A) → M E A
unfolding statement
query fault read = statement fault (λ db. ok (read db, db))

-- COMMIT, where the body ended well, and ROLLBACK to what the transaction began with, where not.
pub commit : {E A : Type 0} → E → Db → Result E A × Session → Result E A × Session
commit fault before (err e, s) = (err e, record s { db = before })
commit fault before (ok a, s) =
    if next_fails s.faults
    then (err fault, record { db = before; faults = later_faults s.faults })
    else (ok a, record s { faults = later_faults s.faults })

-- `InTx`: BEGIN, the body, COMMIT or ROLLBACK. The error of the body is returned as it is.
unfoldable pub in_tx : {E A : Type 0} → E → M E A → M E A
unfolding commit
in_tx fault body s =
    let s' = record s { faults = later_faults s.faults } in
    if next_fails s.faults then (err fault, s') else commit fault s.db (body s')

-- RELEASE of a savepoint is no statement of GORM's; an error goes back to the savepoint.
pub release : {E A : Type 0} → Db → Result E A × Session → Result E A × Session
release before (err e, s) = (err e, record s { db = before })
release before (ok a, s) = (ok a, s)

-- `Transaction` of GORM inside another: a SAVEPOINT, and ROLLBACK TO it on an error.
unfoldable pub savepoint : {E A : Type 0} → E → M E A → M E A
unfolding release
savepoint fault body s =
    let s' = record s { faults = later_faults s.faults } in
    if next_fails s.faults then (err fault, s') else release s.db (body s')

-- What the methods ask of the audit writer: whether an event can be attributed to an actor and a
-- workspace, which is when it is persisted. The recorder is another component.

abbrev pub Writer : Type 0
Writer = Event → Bool

-- `RecordTx` in the transaction.
unfoldable pub record_tx : {E : Type 0} → E → Writer → Event → M E (Unit {0})
record_tx refused writer e =
    statement refused
      (λ db. if writer e then ok (tt, record db { audit = db.audit ++ e ∷ [] }) else err refused)

-- Errors of the code that talks to the database, turned into others.
abbrev pub map_error : {E F A : Type 0} → (E → F) → Result E A × Session → Result F A × Session
map_error f (ok a, s) = (ok a, s)
map_error f (err e, s) = (err (f e), s)

abbrev pub masking : {E F A : Type 0} → (E → F) → M E A → M F A
masking f m s = map_error f (m s)
