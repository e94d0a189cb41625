-- ===== src/Connection/Table.antt =====
-- The table of connections: what its constraints say, and that updates, inserts and deletes keep it.
use lightweight_saas_backend.Prelude.{
  All, Bool, Bool-cases, List, Option, [], any, arith, false, inl, inr, map, none, refl, select,
  true, ℕ, ◌++◌, ◌||◌, ◌∙◌, ◌∷◌, ◌≡◌,
}
use lightweight_saas_backend.Connection.Model.{
  Health, Row, Status, active, draft, health_unknown, healthy, is_active, retired, unhealthy,
}
use lightweight_saas_backend.Connection.Repository.{active_in, is_given, row_has_id, two_active}
use lightweight_saas_backend.Text.{Text, text_eq}
use lightweight_saas_backend.Text.Laws.{text_eq_iff}

abbrev pub Stamped : Option ℕ → Type 0
Stamped o = is_given o ≡ true

-- connections_retired_at_check and connections_activated_at_check
abbrev pub DatedAs : Status → Option ℕ → Option ℕ → Type 0
DatedAs draft activated_at retired_at = (activated_at ≡ none) × (retired_at ≡ none)
DatedAs active activated_at retired_at = Stamped activated_at × (retired_at ≡ none)
DatedAs retired activated_at retired_at = Stamped retired_at

-- connections_verified_at_check
abbrev pub JudgedAs : Health → Option ℕ → Type 0
JudgedAs health_unknown last_verified_at = last_verified_at ≡ none
JudgedAs healthy last_verified_at = Stamped last_verified_at
JudgedAs unhealthy last_verified_at = Stamped last_verified_at

abbrev pub IsRow : Row → Type 0
IsRow r =
    DatedAs r.conn.status r.conn.activated_at r.conn.retired_at
    × JudgedAs r.conn.health r.conn.last_verified_at

abbrev pub DistinctIds : List Row → Type 0
DistinctIds [] = Unit
DistinctIds (r ∷ rows) = (any (row_has_id r.conn.id) rows ≡ false) × DistinctIds rows

pub record IsTable (rows : List Row) : Type 0 where
  pub distinct : DistinctIds rows
  pub one_active : two_active rows ≡ false
  pub well_formed : All IsRow rows

-- A change of rows that keeps what the indexes look at, but may take a row out of service.
pub record IsTame (h : Row → Row) : Type 0 where
  pub keeps_id : (r : Row) → (h r).conn.id ≡ r.conn.id
  pub keeps_workspace : (r : Row) → (h r).conn.workspace_id ≡ r.conn.workspace_id
  pub keeps_row : (r : Row) → IsRow r → IsRow (h r)

module _ (h : Row → Row) (tame : IsTame h) where
  any-id_map :
      (id : Text) (rows : List Row) → any (row_has_id id) (map h rows) ≡ any (row_has_id id) rows
  any-id_map id [] = refl
  any-id_map id (r ∷ rows) = rw (tame.keeps_id r) (rw (any-id_map id rows) refl)

  pub map-DistinctIds : (rows : List Row) → DistinctIds rows → DistinctIds (map h rows)
  map-DistinctIds [] d = tt
  map-DistinctIds (r ∷ rows) (d, ds) =
      (rw (tame.keeps_id r) (any-id_map r.conn.id rows ∙ d), map-DistinctIds rows ds)

  pub map-IsRow : (rows : List Row) → All IsRow rows → All IsRow (map h rows)
  map-IsRow [] w = tt
  map-IsRow (r ∷ rows) (w, ws) = (tame.keeps_row r w, map-IsRow rows ws)

  module _
      (no_more : (r : Row)
        → is_active (h r).conn.status ≡ true
        → is_active r.conn.status ≡ true) where
    none_active :
        (workspace_id : Text) (rows : List Row)
        → any (active_in workspace_id) rows ≡ false
        → any (active_in workspace_id) (map h rows) ≡ false
    none_active workspace_id [] f = refl
    none_active workspace_id (r ∷ rows) f =
        ground (arith, tame.keeps_workspace r, no_more r, none_active workspace_id rows)

    pub map-two_active :
        (rows : List Row) → two_active rows ≡ false → two_active (map h rows) ≡ false
    unfolding two_active
    map-two_active [] f = refl
    map-two_active (r ∷ rows) f = ground (
      arith,
      tame.keeps_workspace r,
      no_more r,
      none_active r.conn.workspace_id rows,
      map-two_active rows,
    )

module _ (keep : Row → Bool) where
  any-select :
      (p : Row → Bool) (rows : List Row) → any p rows ≡ false → any p (select keep rows) ≡ false
  any-select p [] f = refl
  any-select p (r ∷ rows) f = ground (arith, any-select p rows)

  pub select-IsTable : (rows : List Row) → IsTable rows → IsTable (select keep rows)
  unfolding two_active
  select-IsTable [] t = t
  select-IsTable (r ∷ rows) t =
      let tail : IsTable rows = record {
        distinct = t.distinct.1;
        one_active = ground (arith, t.one_active);
        well_formed = t.well_formed.1;
      } in
      let rest = select-IsTable rows tail in
      elim (Bool-cases (keep r)) [
        | inl kept ↦ rw kept (record {
          distinct = (any-select (row_has_id r.conn.id) rows t.distinct.0, rest.distinct);
          one_active = ground (
            arith,
            t.one_active,
            rest.one_active,
            any-select (active_in r.conn.workspace_id) rows,
          );
          well_formed = (t.well_formed.0, rest.well_formed);
        })
        | inr dropped ↦ rw dropped rest
      ]

any-id_append :
    (id : Text) (rows : List Row) (r : Row)
    → any (row_has_id id) (rows ++ r ∷ []) ≡ (any (row_has_id id) rows || row_has_id id r)
any-id_append id [] r = ground arith
any-id_append id (x ∷ rows) r = ground (arith, any-id_append id rows r)

pub append-DistinctIds :
    (rows : List Row) (r : Row)
    → DistinctIds rows
    → any (row_has_id r.conn.id) rows ≡ false
    → DistinctIds (rows ++ r ∷ [])
append-DistinctIds [] r d f = (refl, tt)
append-DistinctIds (x ∷ rows) r (d, ds) f =
    let apart : text_eq r.conn.id x.conn.id ≡ false =
      ground (arith, text_eq_iff r.conn.id x.conn.id, text_eq_iff x.conn.id r.conn.id) in
    (
      any-id_append x.conn.id rows r ∙ rw (d, apart) refl,
      append-DistinctIds rows r ds (ground arith),
    )
