-- ===== src/Connection/Census.antt =====
-- internal/connection/rotate.go: the census of key versions and the plan of a rotation.
use lightweight_saas_backend.Prelude.{
  List, [], if◌then◌else◌, leb, ltb, map, not, select, ℕ, ◌&&◌, ◌+◌, ◌==◌, ◌∷◌,
}
use lightweight_saas_backend.Connection.Model.{Row}
use lightweight_saas_backend.Connection.Rotation.{RunEnd, not_listed}
use lightweight_saas_backend.Secrets.{KeyMaterial, Keyring, has}
use lightweight_saas_backend.Store.{M, query}

-- The map of `KeyVersionCensus`, in ascending order of the versions.
abbrev pub Census : Type 0
Census = List (ℕ × ℕ)

unfoldable pub tally : ℕ → Census → Census
tally v [] = (v, 1) ∷ []
tally v ((w, n) ∷ c) =
    let rest = tally v c in
    if v == w then (w, n + 1) ∷ c else if ltb v w then (v, 1) ∷ (w, n) ∷ c else (w, n) ∷ rest

unfoldable pub census_of : List Row → Census
census_of [] = []
census_of (r ∷ rows) = tally r.sealed.key_version (census_of rows)

unfoldable pub census : M RunEnd Census
census = query not_listed (λ db. census_of db.connections)

unfoldable pub rows_under : ℕ → Census → ℕ
rows_under v [] = 0
rows_under v ((w, n) ∷ c) = if v == w then n else rows_under v c

abbrev pub version_of : ℕ × ℕ → ℕ
version_of e = e.0

unfoldable pub versions : Census → List ℕ
versions c = map version_of c

unfoldable pub total : Census → ℕ
total [] = 0
total ((v, n) ∷ c) = n + total c

unfoldable pub unopenable_versions : Keyring → Census → List ℕ
unopenable_versions ring c = select (λ v. not (has ring v)) (versions c)

insert_version : ℕ → List ℕ → List ℕ
insert_version v [] = v ∷ []
insert_version v (w ∷ vs) =
    let rest = insert_version v vs in if leb v w then v ∷ w ∷ vs else w ∷ rest

-- `Versions` of the keyring, ascending.
unfoldable pub ring_versions : List KeyMaterial → List ℕ
unfolding insert_version
ring_versions [] = []
ring_versions (k ∷ ks) = insert_version k.version (ring_versions ks)

unfoldable pub safe_to_remove : Keyring → Census → List ℕ
safe_to_remove ring c =
    select (λ v. not (v == ring.current) && rows_under v c == 0) (ring_versions ring.keys)

pub record RotationPlan : Type 0 where
  pub counts : Census
  pub current_version : ℕ
  pub need_rotation : ℕ
  pub already_there : ℕ
  pub missing_versions : List ℕ
  pub blocked : ℕ

-- The loop of `PlanFrom`: the rows under other versions, and those of them that cannot be opened.
unfoldable pub need_of : ℕ → Census → ℕ
need_of current [] = 0
need_of current ((v, n) ∷ c) =
    let rest = need_of current c in if v == current then rest else n + rest

unfoldable pub blocked_of : Keyring → Census → ℕ
blocked_of ring [] = 0
blocked_of ring ((v, n) ∷ c) =
    let rest = blocked_of ring c in
    if v == ring.current then rest else if has ring v then rest else n + rest

unfoldable pub plan_from : Census → Keyring → RotationPlan
plan_from c ring = record {
  counts = c;
  current_version = ring.current;
  need_rotation = need_of ring.current c;
  already_there = rows_under ring.current c;
  missing_versions = unopenable_versions ring c;
  blocked = blocked_of ring c;
}
