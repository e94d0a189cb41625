-- ===== src/AuditLog.antt =====
-- internal/auditlog/redaction.go: what of an event may be kept.
pub mod Laws
use lightweight_saas_backend.Prelude.{
  Bool, List, Option, [], any, false, find, if◌then◌else◌, leb, map, none, some, take, true, ℕ, ◌-◌,
  ◌||◌, ◌∷◌,
}
use lightweight_saas_backend.Text.{Text, codes, len, strip_prefix, text_eq, to_lower}

-- `reasonCodeUnclassified`
abbrev pub reason_code_unclassified : Text
reason_code_unclassified = codes "unclassified_error"

abbrev pub known_reason_codes : List Text
known_reason_codes =
    codes "workspace_mismatch"
    ∷ codes "insufficient_scope"
    ∷ codes "operator_only"
    ∷ codes "role_privileged"
    ∷ codes "forbidden"
    ∷ codes "provider_forbidden"
    ∷ codes "provider_unavailable"
    ∷ codes "provider_credentials_unavailable"
    ∷ codes "connection_read_only"
    ∷ codes "workspace_connection_missing"
    ∷ codes "workspace_connection_unusable"
    ∷ codes "workspace_not_found"
    ∷ codes "workspace_archived"
    ∷ codes "user_not_found"
    ∷ codes "role_not_found"
    ∷ codes "session_not_found"
    ∷ codes "invitation_not_found"
    ∷ codes "project_not_found"
    ∷ codes "project_archived"
    ∷ codes "credential_not_found"
    ∷ codes "credential_already_revoked"
    ∷ codes "credential_limit_reached"
    ∷ codes "role_already_exists"
    ∷ codes "role_reserved"
    ∷ codes "project_name_taken"
    ∷ codes "workspace_slug_taken"
    ∷ codes "invalid_request"
    ∷ codes "invalid_scope"
    ∷ codes "invalid_workspace_id"
    ∷ codes "invalid_user_id"
    ∷ codes "invalid_role_name"
    ∷ codes "invalid_session_id"
    ∷ codes "internal_error"
    ∷ []

abbrev pub begins : Option Text → Bool
begins none = false
begins (some rest) = true

-- `strings.Contains`
unfoldable pub contains : Text → Text → Bool
contains part [] = begins (strip_prefix part [])
contains part (c ∷ s) = begins (strip_prefix part (c ∷ s)) || contains part s

abbrev pub or_unclassified : Option Text → Text
or_unclassified none = reason_code_unclassified
or_unclassified (some code) = code

unfoldable pub reason_code_for : (ℕ → ℕ) → Text → Text
reason_code_for table reason =
    let lowered = to_lower table reason in
    if text_eq reason []
    then []
    else or_unclassified (find (λ code. contains code lowered) known_reason_codes)

abbrev pub max_metadata_values : ℕ
max_metadata_values = 8

abbrev pub max_metadata_string_length : ℕ
max_metadata_string_length = 256

-- The longest beginning of whole characters that has the given number of bytes.
unfoldable pub truncate : ℕ → Text → Text
truncate room [] = []
truncate room (c ∷ s) =
    let width = len (c ∷ []) in
    let rest = truncate (room - width) s in if leb width room then c ∷ rest else []

-- The values of metadata: a text, a Boolean or a number, a list of texts, anything else.
pub data Value : Type 0 where
  text_value : Text → Value
  scalar_value : ℕ → Value
  texts_value : List Text → Value
  other_value : Value

unfoldable pub safe_metadata_value : Value → Option Value
safe_metadata_value (text_value s) = some (text_value (truncate max_metadata_string_length s))
safe_metadata_value (scalar_value n) = some (scalar_value n)
safe_metadata_value (texts_value ss) =
    some (texts_value (map (truncate max_metadata_string_length) (take max_metadata_values ss)))
safe_metadata_value other_value = none

abbrev pub Metadata : Type 0
Metadata = List (Text × Value)

abbrev pub metadata_allowlist : List (Text × List Text)
metadata_allowlist = (codes "project_credential.created", codes "scopes" ∷ []) ∷ []

abbrev pub keys_of : Option (Text × List Text) → List Text
keys_of none = []
keys_of (some e) = e.1

unfoldable pub allowed_keys : Text → List Text
allowed_keys event_type = keys_of (find (λ e. text_eq e.0 event_type) metadata_allowlist)

abbrev pub with_safe : Text → Option Value → Metadata → Metadata
with_safe key none kept = kept
with_safe key (some v) kept = (key, v) ∷ kept

-- The loop over the map, of which the order is of no matter while one key at most is allowed.
unfoldable pub allowlisted : List Text → Metadata → Metadata
allowlisted allowed [] = []
allowlisted allowed ((key, value) ∷ extra) =
    let rest = allowlisted allowed extra in
    if any (text_eq key) allowed then with_safe key (safe_metadata_value value) rest else rest

-- `allowlistMetadata`, with no metadata as the empty list.
unfoldable pub allowlist_metadata : Text → Metadata → Metadata
allowlist_metadata event_type extra =
    take max_metadata_values (allowlisted (allowed_keys event_type) extra)
