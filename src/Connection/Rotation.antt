-- ===== src/Connection/Rotation.antt =====
-- internal/connection/rotate.go: re-sealing the secrets of all connections under the current master
-- key, one transaction a row.
use lightweight_saas_backend.Prelude.{
  Bool, List, Option, [], any, false, find, if◌then◌else◌, length, map, none, not, select, some,
  true, ℕ, ◌&&◌, ◌++◌, ◌+◌, ◌==◌, ◌∷◌,
}
use lightweight_saas_backend.Connection.Model.{Row}
use lightweight_saas_backend.Connection.Repository.{
  row_has_id, sealed_of, set_connections, update_rows,
}
use lightweight_saas_backend.Connection.Service.{secret_aad}
use lightweight_saas_backend.PublicId.{connection_prefix, format}
use lightweight_saas_backend.Secrets.{
  Aead, Keyring, Sealed, SecretError, cannot_open, duplicate_key_version, empty_keyring,
  empty_value, invalid_key_version, key_size_wrong, no_current_key, no_key, no_nonce, open_sealed,
  seal, unknown_key_version, unsupported_algorithm,
}
use lightweight_saas_backend.Store.{
  Db, M, Result, Session, err, later_faults, next_fails, ok, pure, query, statement,
}
use lightweight_saas_backend.Text.{Text, text_eq}

-- The collaborators of a `Rotator`: what crypto/rand gives for the nonce of a row, and whether the
-- context is cancelled when the turn of a row comes.
pub record Rotator : Type 0 where
  pub aead : Aead
  pub ring : Keyring
  pub nonce : Text → Option (List ℕ)
  pub cancelled : Text → Bool

pub data Reason : Type 0 where
  no_reason missing_key_version unopenable write_lost read_failed write_failed unsealable : Reason

pub record Failure : Type 0 where
  pub connection_public_id : Text
  pub key_version : ℕ
  pub reason : Reason

-- The outcome of a row, with the failure it ends with.
pub data Outcome : Type 0 where
  rotated already_current : Outcome
  failed : Failure → Outcome

unfoldable pub fail_with : Text → ℕ → Reason → Outcome
fail_with id version reason = failed (record {
  connection_public_id = format connection_prefix id;
  key_version = version;
  reason = reason;
})

abbrev pub is_failed : Outcome → Bool
is_failed rotated = false
is_failed already_current = false
is_failed (failed f) = true

-- What the closure decides on the row it has read: an outcome, or a value to write.
pub data Decision : Type 0 where
  settled : Outcome → Decision
  reseals : Sealed → Sealed → Decision

unopened : SecretError → Reason
unopened unknown_key_version = missing_key_version
unopened key_size_wrong = unopenable
unopened no_key = unopenable
unopened cannot_open = unopenable
unopened unsupported_algorithm = unopenable
unopened empty_value = unopenable
unopened no_nonce = unopenable
unopened invalid_key_version = unopenable
unopened duplicate_key_version = unopenable
unopened no_current_key = unopenable
unopened empty_keyring = unopenable

unfoldable pub sealed_again : Text → Sealed → Result SecretError Sealed → Decision
sealed_again id old (err e) = settled (fail_with id old.key_version unsealable)
sealed_again id old (ok new_sealed) = reseals old new_sealed

unfoldable pub opened_row : Rotator → Text → Sealed → Result SecretError (List ℕ) → Decision
unfolding unopened
opened_row r id old (err e) = settled (fail_with id old.key_version (unopened e))
opened_row r id old (ok plaintext) =
    sealed_again id old (seal r.aead r.ring (r.nonce id) plaintext (secret_aad id))

unfoldable pub decide_row : Rotator → Text → Option Sealed → Decision
decide_row r id none = settled already_current
decide_row r id (some old) =
    if old.key_version == r.ring.current
    then settled already_current
    else opened_row r id old (open_sealed r.aead r.ring old (secret_aad id))

-- WHERE id = ? AND secret_key_version = ?
abbrev pub sealed_under : Text → ℕ → Row → Bool
sealed_under id version r = text_eq r.conn.id id && r.sealed.key_version == version

-- The four columns of the secret; `updated_at` stays.
unfoldable pub resealed : Sealed → Row → Row
resealed new_sealed r = record r { sealed = new_sealed }

-- The guarded UPDATE. An error of the closure carries the outcome it has set.
unfoldable pub write_row : Text → Sealed → Sealed → M Outcome Outcome
write_row id old new_sealed = statement (fail_with id old.key_version write_failed) (λ db.
    if any (sealed_under id old.key_version) db.connections
    then ok (
      rotated,
      set_connections db
          (update_rows (sealed_under id old.key_version) (resealed new_sealed) db.connections),
    )
    else err (fail_with id old.key_version write_lost))

unfoldable pub apply_decision : Text → Decision → M Outcome Outcome
apply_decision id (settled outcome) = pure outcome
apply_decision id (reseals old new_sealed) = write_row id old new_sealed

abbrev pub observed_version : Option Sealed → ℕ
observed_version none = 0
observed_version (some old) = old.key_version

-- The closure, from what the locked SELECT gave: a read that failed is an outcome, not an error. The
-- version that was observed goes with the outcome.
unfoldable pub after_read :
    Rotator
    → Text
    → Result Outcome (Option Sealed) × Session
    → ℕ × (Result Outcome Outcome × Session)
after_read r id (err e, s) = (0, (ok e, s))
after_read r id (ok row, s) = (observed_version row, apply_decision id (decide_row r id row) s)

unfoldable pub read_locked : Text → M Outcome (Option Sealed)
read_locked id =
    query (fail_with id 0 read_failed) (λ db. sealed_of (find (row_has_id id) db.connections))

-- COMMIT or ROLLBACK. Where COMMIT fails the row did not move, whatever the closure had decided.
unfoldable pub finish : Text → Db → ℕ × (Result Outcome Outcome × Session) → Outcome × Session
finish id before (version, (err e, s)) = (e, record s { db = before })
finish id before (version, (ok outcome, s)) =
    if next_fails s.faults
    then (
      if is_failed outcome then outcome else fail_with id version write_failed,
      record { db = before; faults = later_faults s.faults },
    )
    else (outcome, record s { faults = later_faults s.faults })

-- The outcome that the variables hold before the transaction begins.
abbrev pub blank : Outcome
blank = failed (record { connection_public_id = []; key_version = 0; reason = no_reason })

-- `rotateOne`
unfoldable pub rotate_one : Rotator → Text → Session → Outcome × Session
rotate_one r id s =
    let begun = record s { faults = later_faults s.faults } in
    if next_fails s.faults
    then (blank, begun)
    else finish id s.db (after_read r id (read_locked id begun))

pub record Report : Type 0 where
  pub total : ℕ
  pub already_current_count : ℕ
  pub rotated_count : ℕ
  pub failures : List Failure

-- `Complete`
unfoldable pub complete : Report → Bool
complete report = length report.failures == 0

unfoldable pub counted : Report → Outcome → Report
counted report rotated = record report { rotated_count = report.rotated_count + 1 }
counted report already_current = record report {
  already_current_count = report.already_current_count + 1;
}
counted report (failed f) = record report { failures = report.failures ++ f ∷ [] }

-- How a run ends: of itself, cancelled between two rows, or without the list of rows.
pub data RunEnd : Type 0 where
  ran_through interrupted not_listed : RunEnd

-- The loop of `Rotate`.
unfoldable pub rotate_rows : Rotator → List Text → Report → Session → Report × (RunEnd × Session)
rotate_rows r [] report s = (report, (ran_through, s))
rotate_rows r (id ∷ ids) report s =
    let one = rotate_one r id s in
    let rest = rotate_rows r ids (counted report one.0) one.1 in
    if r.cancelled id then (report, (interrupted, s)) else rest

abbrev pub not_current : ℕ → Row → Bool
not_current current r = not (r.sealed.key_version == current)

abbrev pub id_of : Row → Text
id_of r = r.conn.id

-- What the run works on: the ids of the rows that are not current, without their order, and the two
-- counts the report starts with.
unfoldable pub listed : ℕ → M RunEnd (List Text)
listed current = query not_listed (λ db. map id_of (select (not_current current) db.connections))

unfoldable pub started : ℕ → M RunEnd Report
started current = query not_listed (λ db. record {
  total = length db.connections;
  already_current_count = length (select (λ r. r.sealed.key_version == current) db.connections);
  rotated_count = 0;
  failures = [];
})

abbrev pub empty_report : Report
empty_report = record { total = 0; already_current_count = 0; rotated_count = 0; failures = [] }

unfoldable pub rotate_listed :
    Rotator → List Text → Result RunEnd Report × Session → Report × (RunEnd × Session)
rotate_listed r ids (err e, s) = (empty_report, (e, s))
rotate_listed r ids (ok report, s) = rotate_rows r ids report s

unfoldable pub rotate_from :
    Rotator → Result RunEnd (List Text) × Session → Report × (RunEnd × Session)
rotate_from r (err e, s) = (empty_report, (e, s))
rotate_from r (ok ids, s) = rotate_listed r ids (started r.ring.current s)

-- `Rotate`
unfoldable pub rotate : Rotator → Session → Report × (RunEnd × Session)
rotate r s = rotate_from r (listed r.ring.current s)
