-- ===== src/Secrets/Tests.antt =====
-- A secret that outlives a rotation of the keys.
use lightweight_saas_backend.Prelude.{refl, some, ◌≡◌}
use lightweight_saas_backend.Examples.{
  envelope, envelope-IsAead, new_ring, old_ring, old_secret, zeros,
}
use lightweight_saas_backend.Result.{ok}
use lightweight_saas_backend.Secrets.{key_of, open_sealed, seal, seal_with}
use lightweight_saas_backend.Secrets.Laws.{open_sealed-seal}
use lightweight_saas_backend.Text.{codes, text_eq}

old_secret_sealed :
    seal envelope old_ring (some (zeros 2)) (codes "secret") (codes "connection:1") ≡ ok old_secret
unfolding seal seal_with key_of text_eq
old_secret_sealed = refl

same_key : key_of 1 new_ring.keys ≡ key_of 1 old_ring.keys
unfolding key_of
same_key = refl

-- Sealed under the first key, opened by a keyring that seals under the second.
open_sealed-seal_example :
    (old_secret.key_version ≡ 1)
    × (open_sealed envelope new_ring old_secret (codes "connection:1") ≡ ok (codes "secret"))
open_sealed-seal_example =
    open_sealed-seal envelope old_ring new_ring (some (zeros 2)) (codes "secret")
      (codes "connection:1") old_secret envelope-IsAead refl old_secret_sealed same_key
