-- ===== src/Connection/Lifecycle.antt =====
-- That the service with its table follows the life cycle of a connection.
use lightweight_saas_backend.Prelude.{
  List, Option-cases, [], arith, inl, inr, none, refl, some, ◌∷◌, ◌≡◌, ◌≢◌, ◌⊎◌,
}
use lightweight_saas_backend.Connection.Calls.{Request, serve, serve_all}
use lightweight_saas_backend.Connection.Changes.{ended-IsTame, judged-IsTame, patched-IsTame}
use lightweight_saas_backend.Connection.Invariant.{Step-IsTable}
use lightweight_saas_backend.Connection.Model.{Row, active, draft, is_draft, retired}
use lightweight_saas_backend.Connection.Repository.{
  changing, ended, guarded_by, judged, not_retired, patched, row_has_id,
}
use lightweight_saas_backend.Connection.Service.{fresh_connection}
use lightweight_saas_backend.Connection.Step.{
  Step, activated_as, created_as, deleted_as, edited_as, judged_as, perform-Step, retired_as,
  unchanged,
}
use lightweight_saas_backend.Connection.Table.{IsTable}
use lightweight_saas_backend.Connection.View.{
  Keeps, Moves, View, drafted, dropped, entered, left, stays, view,
}
use lightweight_saas_backend.Connection.Views.{
  activated_view, appended_view, deleted_view, ended-Moves, map-Moves, patched-seen, unmoved,
}
use lightweight_saas_backend.Store.{Db}
use lightweight_saas_backend.Text.{Text}

Step-Moves :
    {rows after : List Row}
    → Step rows after
    → IsTable rows
    → (id : Text) → Moves (view id rows) (view id after)
unfolding fresh_connection judged
Step-Moves (unchanged rows) table id = stays (view id rows)
Step-Moves (created_as new_id workspace_id config now sealed rows unseen free) table id =
    appended_view id rows
      (record { conn = fresh_connection new_id workspace_id config now; sealed = sealed }) unseen
      refl
Step-Moves (edited_as edited_id patch sealed now rows) table id =
    let guard = guarded_by edited_id is_draft in
    map-Moves (changing guard (patched patch sealed now)) (patched-IsTame guard patch sealed now)
      (unmoved guard (patched patch sealed now) (patched-seen patch sealed now)) id rows
Step-Moves (judged_as judged_id report rows) table id =
    let guard = row_has_id judged_id in
    map-Moves (changing guard (judged report)) (judged-IsTame guard report)
      (unmoved guard (judged report) (λ r. refl)) id rows
Step-Moves (activated_as active_id workspace_id now rows free) table id =
    activated_view active_id workspace_id now id rows
Step-Moves (retired_as ended_id now rows) table id =
    let guard = guarded_by ended_id not_retired in
    map-Moves (changing guard (ended now)) (ended-IsTame guard now) (ended-Moves ended_id now) id
      rows
Step-Moves (deleted_as deleted_id rows) table id = deleted_view id deleted_id rows table.distinct

-- One move for each request, for what stands under the id.
abbrev pub Follows : Text → List Request → Db → Type 0
Follows id [] db = Unit
Follows id (q ∷ qs) db =
    Moves (view id db.connections) (view id (serve q db).connections) × Follows id qs (serve q db)

-- After one of the requests nothing stands under the id.
abbrev pub Vacated : Text → List Request → Db → Type 0
Vacated id [] db = ⊥
Vacated id (q ∷ qs) db = (view id (serve q db).connections ≡ none) ⊎ Vacated id qs (serve q db)

Keeps-refl : (v : View) → Keeps v v
Keeps-refl none = tt
Keeps-refl (some (w, st)) = (st, refl, omega arith)

Keeps-trans : (u v w : View) → v ≢ none → Keeps u v → Keeps v w → Keeps u w
Keeps-trans none v w there first second = tt
Keeps-trans (some a) none w there first second = absurd (there refl)
Keeps-trans (some (a, st)) (some (b, mid)) w there (st', same, up) second = ground (arith, second)

Moves-Keeps : {u v : View} → Moves u v → (v ≡ none) ⊎ Keeps u v
Moves-Keeps (stays v) = inr (Keeps-refl v)
Moves-Keeps (drafted w) = inr tt
Moves-Keeps (entered w) = inr (active, refl, omega arith)
Moves-Keeps (left w draft live) = inr (retired, refl, omega arith)
Moves-Keeps (left w active live) = inr (retired, refl, omega arith)
Moves-Keeps (left w retired live) = absurd (ground arith)
Moves-Keeps (dropped w st idle) = inl refl

kept_through :
    (q : Request) (qs : List Request) (db : Db) (id : Text)
    → Moves (view id db.connections) (view id (serve q db).connections)
    → Vacated id qs (serve q db)
      ⊎ Keeps (view id (serve q db).connections) (view id (serve_all qs (serve q db)).connections)
    → Vacated id (q ∷ qs) db
      ⊎ Keeps (view id db.connections) (view id (serve_all (q ∷ qs) db).connections)
kept_through q qs db id move (inl vacated) = inl (inr vacated)
kept_through q qs db id move (inr later) =
    let u = view id db.connections in
    let v = view id (serve q db).connections in
    let w = view id (serve_all qs (serve q db)).connections in
    elim (Option-cases v) [
      | inl vacant ↦ inl (inl vacant)
      | inr (x, there) ↦ elim (Moves-Keeps move) [
        | inl vacant ↦ inl (inl vacant)
        | inr now ↦ inr (Keeps-trans u v w (λ e. ground (arith, e, there)) now later)
      ]
    ]

-- Whatever requests are served one after another, with whatever collaborators and failing
-- statements, on a table that meets its constraints: each request makes at most one move of the life
-- cycle under each id, so that a connection is created as a draft, enters service from the draft
-- only, and is dropped only while it is out of service. And unless one of the requests left the id
-- vacant, the connection is of the workspace it was of, and at no earlier stage: one that was
-- retired is retired.
pub serve_all-Follows :
    (qs : List Request) (db : Db) (id : Text)
    → IsTable db.connections
    → Follows id qs db
      × (Vacated id qs db ⊎ Keeps (view id db.connections) (view id (serve_all qs db).connections))
serve_all-Follows [] db id table = (tt, inr (Keeps-refl (view id db.connections)))
serve_all-Follows (q ∷ qs) db id table =
    let step = perform-Step q.env q.call (record { db = db; faults = q.faults }) in
    let move = Step-Moves step table id in
    let (moves, rest) = serve_all-Follows qs (serve q db) id (Step-IsTable step table) in
    ((move, moves), kept_through q qs db id move rest)
