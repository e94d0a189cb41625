-- ===== src/Store/Tests.antt =====
-- A transaction that writes and then fails to commit.
use lightweight_saas_backend.Prelude.{[], false, refl, true, ◌∷◌, ◌≡◌}
use lightweight_saas_backend.Examples.{anyone, db_with, happening}
use lightweight_saas_backend.Store.{M, Session, err, in_tx, record_tx, statement, written}
use lightweight_saas_backend.Store.Laws.{IsAtomic, in_tx-IsAtomic}
use lightweight_saas_backend.Text.{Text, codes}

abbrev doubtful : Session
doubtful = record { db = db_with []; faults = false ∷ false ∷ true ∷ [] }

abbrev attempt : M Text (Unit {0})
attempt = in_tx (codes "commit failed") (record_tx (codes "no writer") anyone happening)

in_tx-IsAtomic_example : IsAtomic attempt
in_tx-IsAtomic_example =
    in_tx-IsAtomic (codes "commit failed") (record_tx (codes "no writer") anyone happening)

rolled_back :
    attempt doubtful ≡ (err (codes "commit failed"), record { db = db_with []; faults = [] })
unfolding in_tx record_tx statement written
rolled_back = refl
