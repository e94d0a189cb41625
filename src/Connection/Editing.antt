-- ===== src/Connection/Editing.antt =====
-- An edit of what a verification was made against takes the verification back.
use mathlib.Core.Path.{subst}
use lightweight_saas_backend.Prelude.{
  Bool, Bool-cases, List, Option, [], all, ap, arith, false, if◌then◌else◌, inl, inr, none, not,
  refl, some, sym, true, ℕ, ◌||◌, ◌∙◌, ◌∷◌, ◌≡◌, ◌⊎◌,
}
use lightweight_saas_backend.Audit.{Event}
use lightweight_saas_backend.Connection.Given.{checked_patch-given, reseal-given}
use lightweight_saas_backend.Connection.Model.{Connection, Row, is_draft, is_verified}
use lightweight_saas_backend.Connection.Operations.{UpdateInput, update}
use lightweight_saas_backend.Connection.Outcome.{update-outcome}
use lightweight_saas_backend.Connection.Repository.{
  ConfigPatch, guarded_by, is_given, or_else, patched, touches_target, unverified, update_rows,
}
use lightweight_saas_backend.Connection.RotatedTable.{Pairwise}
use lightweight_saas_backend.Connection.Service.{Env}
use lightweight_saas_backend.PublicId.{connection_prefix, parse, parsed}
use lightweight_saas_backend.Secrets.{Sealed}
use lightweight_saas_backend.Store.{Session, ok}
use lightweight_saas_backend.Text.{Text}

-- The row is no draft of the id, or no verification of it counts at the time.
abbrev pub needs_verification : Text → ℕ → Row → Bool
needs_verification id later r = not (guarded_by id is_draft r) || not (is_verified later r.conn)

patched-needs_verification :
    (id : Text) (patch : ConfigPatch) (sealed : Option Sealed) (now later : ℕ) (r : Row)
    → touches_target patch sealed ≡ true
    → needs_verification id later (patched patch sealed now r) ≡ true
unfolding patched unverified is_verified
patched-needs_verification id patch sealed now later r touches =
    rw touches (or_true (not (guarded_by id is_draft r)))
  where
    or_true : (b : Bool) → (b || true) ≡ true
    or_true true = refl
    or_true false = refl

edited-needs_verification :
    (id : Text) (patch : ConfigPatch) (sealed : Option Sealed) (now later : ℕ) (rows : List Row)
    → touches_target patch sealed ≡ true
    → all
        (needs_verification id later)
        (update_rows (guarded_by id is_draft) (patched patch sealed now) rows)
      ≡ true
edited-needs_verification id patch sealed now later [] touches = refl
edited-needs_verification id patch sealed now later (r ∷ rows) touches =
    let rest = edited-needs_verification id patch sealed now later rows touches in
    elim (Bool-cases (guarded_by id is_draft r)) [
      | inl hit ↦
          rw hit
            (ground (arith, patched-needs_verification id patch sealed now later r touches, rest))
      | inr miss ↦ rw (miss, rest) (ground arith)
    ]

untouched :
    (patch : ConfigPatch) (sealed : Option Sealed)
    → touches_target patch sealed ≡ false
    → (is_given patch.base_url ≡ false)
      × (is_given patch.realm ≡ false)
      × (is_given patch.client_id ≡ false)
      × (is_given sealed ≡ false)
unfolding touches_target
untouched patch sealed h = ground arith

not_given {ℓ} : {A : Type ℓ} (o : Option A) → is_given o ≡ false → o ≡ none
not_given none h = refl
not_given (some a) h = absurd (ground arith)

-- What a verification is made against is the same.
abbrev pub SameTarget : Row → Row → Type 0
SameTarget x y =
    (y.conn.base_url ≡ x.conn.base_url)
    × (y.conn.realm ≡ x.conn.realm)
    × (y.conn.client_id ≡ x.conn.client_id)
    × (y.sealed ≡ x.sealed)

-- The later row counts as verified only for what the earlier one was verified against.
abbrev pub SoundVerdict : ℕ → Row → Row → Type 0
SoundVerdict later x y = (is_verified later y.conn ≡ false) ⊎ SameTarget x y

or_else_ungiven {ℓ} : {A : Type ℓ} (o : Option A) (a : A) → is_given o ≡ false → or_else o a ≡ a
or_else_ungiven none a h = refl
or_else_ungiven (some b) a h = absurd (ground arith)

patched-unverified :
    (patch : ConfigPatch) (sealed : Option Sealed) (now later : ℕ) (r : Row)
    → touches_target patch sealed ≡ true
    → is_verified later (patched patch sealed now r).conn ≡ false
unfolding patched unverified is_verified
patched-unverified patch sealed now later r touches = rw touches refl

patched-SameTarget :
    (patch : ConfigPatch) (sealed : Option Sealed) (now : ℕ) (r : Row)
    → touches_target patch sealed ≡ false
    → SameTarget r (patched patch sealed now r)
unfolding patched
patched-SameTarget patch sealed now r idle =
    let (url, realm, client, secret) = untouched patch sealed idle in
    (
      rw idle (or_else_ungiven patch.base_url r.conn.base_url url),
      rw idle (or_else_ungiven patch.realm r.conn.realm realm),
      rw idle (or_else_ungiven patch.client_id r.conn.client_id client),
      or_else_ungiven sealed r.sealed secret,
    )

edited-SoundVerdict :
    (guard : Row → Bool) (patch : ConfigPatch) (sealed : Option Sealed) (now later : ℕ)
    (rows : List Row)
    → Pairwise (SoundVerdict later) rows (update_rows guard (patched patch sealed now) rows)
edited-SoundVerdict guard patch sealed now later [] = tt
edited-SoundVerdict guard patch sealed now later (r ∷ rows) =
    (here, edited-SoundVerdict guard patch sealed now later rows)
  where
    here : SoundVerdict later r (if guard r then patched patch sealed now r else r)
    here = elim (Bool-cases (guard r)) [
      | inl hit ↦ rw hit (elim (Bool-cases (touches_target patch sealed)) [
        | inl touches ↦ inl (patched-unverified patch sealed now later r touches)
        | inr idle ↦ inr (patched-SameTarget patch sealed now r idle)
      ])
      | inr miss ↦ rw miss (inr (refl, refl, refl, refl))
    ]

-- The input has none of the fields that a verification is made against.
abbrev pub LeavesTarget : UpdateInput → Type 0
LeavesTarget input =
    (input.base_url ≡ none)
    × (input.realm ≡ none)
    × (input.client_id ≡ none)
    × (input.client_secret ≡ none)

leaves_target :
    (input : UpdateInput) (patch : ConfigPatch) (sealed : Option Sealed)
    → (is_given patch.base_url ≡ is_given input.base_url)
      × (is_given patch.realm ≡ is_given input.realm)
      × (is_given patch.client_id ≡ is_given input.client_id)
    → is_given sealed ≡ is_given input.client_secret
    → touches_target patch sealed ≡ false
    → LeavesTarget input
leaves_target input patch sealed (same_url, same_realm, same_client) same_secret idle =
    let (url, realm, client, secret) = untouched patch sealed idle in
    (
      not_given input.base_url (sym same_url ∙ url),
      not_given input.realm (sym same_realm ∙ realm),
      not_given input.client_id (sym same_client ∙ client),
      not_given input.client_secret (sym same_secret ∙ secret),
    )

-- When `Update` succeeds, in any session: a connection counts as verified, at any later time, only if
-- its base URL, realm, client id and sealed secret are those it had before; and unless the input has
-- none of the four, no draft of the addressed id counts as verified, so that none can be activated
-- until a verification is saved.
pub update-SoundVerdict :
    (env : Env) (workspace_public connection_public : Text) (input : UpdateInput) (ev : Event)
    (later : ℕ) (s t : Session) (c : Connection)
    → update env workspace_public connection_public input ev s ≡ (ok c, t)
    → Pairwise (SoundVerdict later) s.db.connections t.db.connections
      × (LeavesTarget input
          ⊎ ((id : Text) × (parse connection_prefix connection_public ≡ parsed id)
              × (all (needs_verification id later) t.db.connections ≡ true)))
update-SoundVerdict env workspace_public connection_public input ev later s t c h =
    let (id, patch, sealed, public, (u, v, checked_as), resealed_as, rows) =
      update-outcome env workspace_public connection_public input ev s t c h in
    let given = checked_patch-given env input u v patch checked_as in
    let secret = reseal-given env id input.client_secret sealed resealed_as in
    (
      subst (Pairwise (SoundVerdict later) s.db.connections) (sym rows) (
          edited-SoundVerdict (guarded_by id is_draft) patch sealed env.now later s.db.connections),
      elim (Bool-cases (touches_target patch sealed)) [
        | inl touches ↦ inr (
          id,
          public,
          ap (all (needs_verification id later)) rows
              ∙ edited-needs_verification id patch sealed env.now later s.db.connections touches,
        )
        | inr idle ↦ inl (leaves_target input patch sealed given secret idle)
      ],
    )
