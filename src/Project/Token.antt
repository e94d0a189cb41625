-- ===== src/Project/Token.antt =====
-- internal/project/token.go: minting and parsing of credential tokens.
pub mod Laws
mod Tests
-- SHA-256 of a text, which the code takes from crypto/sha256, is the argument `hash`.
use lightweight_saas_backend.Prelude.{
  Bool, List, Option, [], all, if◌then◌else◌, leb, ltb, none, not, some, ℕ, ◌%◌, ◌&&◌, ◌*◌, ◌++◌,
  ◌+◌, ◌-◌, ◌/◌, ◌==◌, ◌||◌, ◌∷◌,
}
use lightweight_saas_backend.Auth.{project_token_prefix}
use lightweight_saas_backend.Text.{Text, cut, len, strip_prefix, text_eq}

abbrev pub Hash : Type 0
Hash = Text → List ℕ

abbrev pub token_prefix : Text
token_prefix = project_token_prefix

abbrev pub lookup_len : ℕ
lookup_len = 16

abbrev pub secret_len : ℕ
secret_len = 52

-- The alphabet a-z2-7.
abbrev pub base32_char : ℕ → ℕ
base32_char n = if ltb (n % 32) 26 then b'a' + n % 32 else b'2' + (n % 32 - 26)

-- `EncodeToString` of an unpadded base32: eight characters for five bytes, and for the rest as many
-- as its bits need.
unfoldable pub encode : List ℕ → Text
encode (a ∷ b ∷ c ∷ d ∷ e ∷ bytes) =
    base32_char (a / 8)
    ∷ base32_char (a * 4 + b / 64)
    ∷ base32_char (b / 2)
    ∷ base32_char (b * 16 + c / 16)
    ∷ base32_char (c * 2 + d / 128)
    ∷ base32_char (d / 4)
    ∷ base32_char (d * 8 + e / 32)
    ∷ base32_char e
    ∷ encode bytes
encode (a ∷ b ∷ c ∷ d ∷ []) =
    base32_char (a / 8)
    ∷ base32_char (a * 4 + b / 64)
    ∷ base32_char (b / 2)
    ∷ base32_char (b * 16 + c / 16)
    ∷ base32_char (c * 2 + d / 128)
    ∷ base32_char (d / 4)
    ∷ base32_char (d * 8)
    ∷ []
encode (a ∷ b ∷ c ∷ []) =
    base32_char (a / 8)
    ∷ base32_char (a * 4 + b / 64)
    ∷ base32_char (b / 2)
    ∷ base32_char (b * 16 + c / 16)
    ∷ base32_char (c * 2)
    ∷ []
encode (a ∷ b ∷ []) =
    base32_char (a / 8)
    ∷ base32_char (a * 4 + b / 64)
    ∷ base32_char (b / 2)
    ∷ base32_char (b * 16)
    ∷ []
encode (a ∷ []) = base32_char (a / 8) ∷ base32_char (a * 4) ∷ []
encode [] = []

pub record MintedCredential : Type 0 where
  pub key_prefix : Text
  pub key_hash : List ℕ
  pub token : Text

-- `MintCredential` over what the two reads of crypto/rand give, ten and 32 bytes; none is a failure.
unfoldable pub mint_credential : Hash → Option (List ℕ) → Option (List ℕ) → Option MintedCredential
mint_credential hash none secret_raw = none
mint_credential hash (some lookup_raw) none = none
mint_credential hash (some lookup_raw) (some secret_raw) =
    let lookup = encode lookup_raw in
    let secret = encode secret_raw in
    some (record {
      key_prefix = lookup;
      key_hash = hash secret;
      token = token_prefix ++ (lookup ++ b'_' ∷ secret);
    })

pub record ParsedToken : Type 0 where
  pub lookup : Text
  pub secret : Text

unfoldable pub is_base32_lower : Text → Bool
is_base32_lower = all (λ c. (leb b'a' c && leb c b'z') || (leb b'2' c && leb c b'7'))

-- What stands behind the prefix, cut at the first separator.
token_of : Option (Text × Text) → Option ParsedToken
token_of none = none
token_of (some (lookup, secret)) =
    if not (len lookup == lookup_len) || not (len secret == secret_len)
    then none
    else if not (is_base32_lower lookup) || not (is_base32_lower secret)
    then none
    else some (record { lookup = lookup; secret = secret })

after_token_prefix : Option Text → Option ParsedToken
unfolding token_of
after_token_prefix none = none
after_token_prefix (some body) = token_of (cut b'_' body)

unfoldable pub parse_token : Text → Option ParsedToken
unfolding after_token_prefix
parse_token raw = after_token_prefix (strip_prefix token_prefix raw)

-- `subtle.ConstantTimeCompare` of two digests is 1 exactly if they are equal.
unfoldable pub secret_matches : Hash → Text → List ℕ → Bool
secret_matches hash secret stored = text_eq (hash secret) stored
