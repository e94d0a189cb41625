-- ===== src/Secrets.antt =====
-- internal/secrets/aesgcm.go and keyring.go: sealing under versioned master keys.
pub mod Laws
mod Tests
-- AES-GCM is an argument: its functions take the key, the nonce, the text and the associated data.
use lightweight_saas_backend.Prelude.{
  Bool, List, Option, [], any, find, if◌then◌else◌, length, ltb, none, not, some, ℕ, ◌&&◌, ◌++◌,
  ◌==◌, ◌||◌, ◌∷◌,
}
use lightweight_saas_backend.Result.{Result, err, ok}
use lightweight_saas_backend.Text.{Text, codes, text_eq}

pub record Aead : Type 0 where
  pub nonce_size : ℕ
  pub seal_bytes : List ℕ → List ℕ → List ℕ → List ℕ → List ℕ
  pub open_bytes : List ℕ → List ℕ → List ℕ → List ℕ → Option (List ℕ)

abbrev pub key_size : ℕ
key_size = 32

abbrev pub algorithm_aes_gcm : Text
algorithm_aes_gcm = codes "aes-256-gcm"

pub data SecretError : Type 0 where
  key_size_wrong no_key cannot_open unsupported_algorithm empty_value no_nonce : SecretError
  unknown_key_version invalid_key_version duplicate_key_version : SecretError
  no_current_key empty_keyring : SecretError

pub record Sealed : Type 0 where
  pub ciphertext : List ℕ
  pub nonce : List ℕ
  pub key_version : ℕ
  pub algorithm : Text

-- `KeyMaterial`, and `key` once it is checked.
pub record KeyMaterial : Type 0 where
  pub version : ℕ
  pub material : List ℕ

pub record Keyring : Type 0 where
  pub keys : List KeyMaterial
  pub current : ℕ

-- `newKey` without building the cipher, which fails for no key of the right size.
unfoldable pub new_key : KeyMaterial → Result SecretError KeyMaterial
new_key m =
    if ltb m.version 1
    then err invalid_key_version
    else if text_eq m.material []
    then err no_key
    else if not (length m.material == key_size)
    then err key_size_wrong
    else ok m

abbrev pub of_version : ℕ → KeyMaterial → Bool
of_version v k = k.version == v

-- The map of `Keyring`.
unfoldable pub key_of : ℕ → List KeyMaterial → Option KeyMaterial
key_of v ks = find (of_version v) ks

unfoldable pub has : Keyring → ℕ → Bool
has r v = any (of_version v) r.keys

-- The loop of `NewKeyring`, with the keys already taken.
add_keys : List KeyMaterial → List KeyMaterial → Result SecretError (List KeyMaterial)
add_keys taken [] = ok taken
add_keys taken (m ∷ ms) =
    let rest = add_keys (taken ++ m ∷ []) ms in
    if any (of_version m.version) taken
    then err duplicate_key_version
    else elim (new_key m) [ err e ↦ err e | ok _ ↦ rest ]

with_current : ℕ → Result SecretError (List KeyMaterial) → Result SecretError Keyring
with_current current (err e) = err e
with_current current (ok ks) =
    if any (of_version current) ks
    then ok (record { keys = ks; current = current })
    else err no_current_key

unfoldable pub new_keyring : List KeyMaterial → ℕ → Result SecretError Keyring
unfolding add_keys with_current
new_keyring [] current = err empty_keyring
new_keyring (m ∷ ms) current = with_current current (add_keys [] (m ∷ ms))

-- `key.seal`; the nonce is what crypto/rand gives.
unfoldable pub seal_with :
    Aead → KeyMaterial → Option (List ℕ) → List ℕ → List ℕ → Result SecretError Sealed
seal_with aead k nonce plaintext aad =
    if text_eq plaintext [] then err empty_value else elim nonce [
      | none ↦ err no_nonce
      | some n ↦ ok (record {
        ciphertext = aead.seal_bytes k.material n plaintext aad;
        nonce = n;
        key_version = k.version;
        algorithm = algorithm_aes_gcm;
      })
    ]

opened : Option (List ℕ) → Result SecretError (List ℕ)
opened none = err cannot_open
opened (some plaintext) = ok plaintext

-- `key.open`
unfoldable pub open_with : Aead → KeyMaterial → Sealed → List ℕ → Result SecretError (List ℕ)
unfolding opened
open_with aead k s aad =
    if not (s.key_version == k.version)
    then err cannot_open
    else if not (length s.nonce == aead.nonce_size) || text_eq s.ciphertext []
    then err cannot_open
    else opened (aead.open_bytes k.material s.nonce s.ciphertext aad)

-- `Keyring.Seal`; the current key is in every keyring that was built.
unfoldable pub seal : Aead → Keyring → Option (List ℕ) → List ℕ → List ℕ → Result SecretError Sealed
seal aead r nonce plaintext aad = elim (key_of r.current r.keys) [
  | none ↦ err no_current_key
  | some k ↦ seal_with aead k nonce plaintext aad
]

open_under : Aead → Option KeyMaterial → Sealed → List ℕ → Result SecretError (List ℕ)
open_under aead none s aad = err unknown_key_version
open_under aead (some k) s aad = open_with aead k s aad

-- `Keyring.Open`
unfoldable pub open_sealed : Aead → Keyring → Sealed → List ℕ → Result SecretError (List ℕ)
unfolding open_under
open_sealed aead r s aad =
    if not (text_eq s.algorithm []) && not (text_eq s.algorithm algorithm_aes_gcm)
    then err unsupported_algorithm
    else open_under aead (key_of s.key_version r.keys) s aad

-- `AAD`
unfoldable pub associated_data : Text → Text → Text → Text
associated_data kind id field = kind ++ (b':' ∷ (id ++ (b':' ∷ field)))
