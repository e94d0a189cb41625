-- ===== src/Secrets/Laws.antt =====
-- What a keyring seals, every keyring that still holds the key opens.
-- What the code relies on of AES-GCM: what was sealed opens under the same key, nonce and data, and
-- no ciphertext is empty.
use mathlib.Core.Path.{subst}
use lightweight_saas_backend.Prelude.{
  ==_iff, ==_refl, Bool-cases, List, Option, Option-cases, [], ap, arith, false, inl, inr, length,
  none, not, refl, some, sym, ℕ, ◌&&◌, ◌∙◌, ◌∷◌, ◌≡◌, ◌≢◌,
}
use lightweight_saas_backend.Secrets.{
  Aead, KeyMaterial, Keyring, Sealed, algorithm_aes_gcm, key_of, of_version, open_sealed,
  open_under, open_with, opened, seal, seal_with,
}
use lightweight_saas_backend.Result.{ok}
use lightweight_saas_backend.Text.{text_eq}
use lightweight_saas_backend.Text.Laws.{text_eq_refl, text_ne}

pub record IsAead (aead : Aead) : Type 0 where
  pub opens :
      (k n plaintext aad : List ℕ)
      → length n ≡ aead.nonce_size
      → aead.open_bytes k n (aead.seal_bytes k n plaintext aad) aad ≡ some plaintext
  pub nonempty : (k n plaintext aad : List ℕ) → aead.seal_bytes k n plaintext aad ≢ []

-- The random bytes have the length that was asked for, where there are any.
abbrev pub IsNonce : Aead → Option (List ℕ) → Type 0
IsNonce aead none = Unit
IsNonce aead (some n) = length n ≡ aead.nonce_size

pub key_of-version :
    (v : ℕ) (ks : List KeyMaterial) (k : KeyMaterial) → key_of v ks ≡ some k → k.version ≡ v
unfolding key_of
key_of-version v [] k h = absurd (ground arith)
key_of-version v (x ∷ ks) k h = elim (Bool-cases (of_version v x)) [
  | inl hit ↦
      let same : x ≡ k = ground arith in ap (λ y. y.version) (sym same) ∙ (==_iff x.version v).0 hit
  | inr miss ↦ key_of-version v ks k (rw miss at h)
]

abbrev sealed_by : Aead → KeyMaterial → List ℕ → List ℕ → List ℕ → Sealed
sealed_by aead k n plaintext aad = record {
  ciphertext = aead.seal_bytes k.material n plaintext aad;
  nonce = n;
  key_version = k.version;
  algorithm = algorithm_aes_gcm;
}

open_with-sealed_by :
    (aead : Aead) (k : KeyMaterial) (n plaintext aad : List ℕ)
    → IsAead aead
    → length n ≡ aead.nonce_size
    → open_with aead k (sealed_by aead k n plaintext aad) aad ≡ ok plaintext
unfolding open_with opened
open_with-sealed_by aead k n plaintext aad laws fits =
    let full =
      text_ne (aead.seal_bytes k.material n plaintext aad) []
        (laws.nonempty k.material n plaintext aad) in
    rw (==_refl k.version) (
      rw ((==_iff (length n) aead.nonce_size).1 fits)
        (rw full (rw (laws.opens k.material n plaintext aad fits) refl)))

-- What a key sealed it opens; the sealed value names its version.
abbrev OpensWith : Aead → KeyMaterial → List ℕ → List ℕ → Sealed → Type 0
OpensWith aead k plaintext aad s =
    (s.key_version ≡ k.version)
    × (s.algorithm ≡ algorithm_aes_gcm)
    × (open_with aead k s aad ≡ ok plaintext)

open_with-seal_with :
    (aead : Aead) (k : KeyMaterial) (nonce : Option (List ℕ)) (plaintext aad : List ℕ) (s : Sealed)
    → IsAead aead
    → IsNonce aead nonce
    → seal_with aead k nonce plaintext aad ≡ ok s
    → OpensWith aead k plaintext aad s
unfolding seal_with
open_with-seal_with aead k none plaintext aad s laws fits h = absurd (ground arith)
open_with-seal_with aead k (some n) plaintext aad s laws fits h =
    let same : sealed_by aead k n plaintext aad ≡ s = ground arith in
    subst (OpensWith aead k plaintext aad) same
      (refl, refl, open_with-sealed_by aead k n plaintext aad laws fits)

open_sealed_of_key :
    (aead : Aead) (r : Keyring) (k : KeyMaterial) (plaintext aad : List ℕ) (s : Sealed)
    → OpensWith aead k plaintext aad s
    → key_of k.version r.keys ≡ some k
    → open_sealed aead r s aad ≡ ok plaintext
unfolding open_sealed open_under
open_sealed_of_key aead r k plaintext aad s (version, algorithm, opens) holds =
    let checked : (not (text_eq s.algorithm []) && not (text_eq s.algorithm algorithm_aes_gcm))
        ≡ false =
      subst (λ a. (not (text_eq a []) && not (text_eq a algorithm_aes_gcm)) ≡ false) (sym algorithm)
        (ground (arith, text_eq_refl algorithm_aes_gcm)) in
    let key : key_of s.key_version r.keys ≡ some k = ap (λ v. key_of v r.keys) version ∙ holds in
    rw checked (rw key opens)

-- What a keyring seals under its current version opens, with the same associated data, under every
-- keyring that holds the same key for that version; the sealed value names the current version.
-- AES-GCM opens what it sealed, and no ciphertext is empty; the nonce has the length asked for.
pub open_sealed-seal :
    (aead : Aead) (r r' : Keyring) (nonce : Option (List ℕ)) (plaintext aad : List ℕ) (s : Sealed)
    → IsAead aead
    → IsNonce aead nonce
    → seal aead r nonce plaintext aad ≡ ok s
    → key_of r.current r'.keys ≡ key_of r.current r.keys
    → (s.key_version ≡ r.current) × (open_sealed aead r' s aad ≡ ok plaintext)
unfolding seal
open_sealed-seal aead r r' nonce plaintext aad s laws fits h same =
    elim (Option-cases (key_of r.current r.keys)) [
      | inl missing ↦ absurd (ground arith)
      | inr (k, holds) ↦
          let version = key_of-version r.current r.keys k holds in
          let o =
            open_with-seal_with aead k nonce plaintext aad s laws fits (rw (seal, holds) at h) in
          (
            o.0 ∙ version,
            open_sealed_of_key aead r' k plaintext aad s o
                (ap (λ v. key_of v r'.keys) version ∙ same ∙ holds),
          )
    ]
