-- ===== src/ProviderCache/Tests.antt =====
-- A cache for two providers, which are numbers here.
use lightweight_saas_backend.Prelude.{[], arith, refl, some, true, ℕ, ◌∷◌, ◌≡◌}
use lightweight_saas_backend.ProviderCache.{ProviderCache, get, insert, put, replaced}
use lightweight_saas_backend.ProviderCache.Laws.{IsCache, get-put, operations-IsCache}
use lightweight_saas_backend.Text.{codes, text_eq}

abbrev cache : ProviderCache ℕ
cache = record {
  enabled = true;
  max = 2;
  order =
      record { key = codes "c1@5"; connection_id = codes "c1"; provider = 1 }
      ∷ record { key = codes "c2@7"; connection_id = codes "c2"; provider = 2 }
      ∷ [];
}

cache-IsCache : IsCache cache
cache-IsCache = record {
  bounded = ground arith;
  single = (((λ e. absurd (ground arith)), tt), (tt, tt));
}

operations-IsCache_example :
    IsCache (get (codes "c2@7") cache).0 × IsCache (put (codes "c3") (codes "c2@7") 3 cache)
operations-IsCache_example = operations-IsCache cache (codes "c3") (codes "c2@7") 3 cache-IsCache

get-put_example : (get (codes "c3@9") (put (codes "c3") (codes "c3@9") 3 cache)).1 ≡ some 3
get-put_example = get-put cache (codes "c3") (codes "c3@9") 3 refl (ground arith)

evicts_the_back :
    (put (codes "c3") (codes "c3@9") 3 cache).order
    ≡ record { key = codes "c3@9"; connection_id = codes "c3"; provider = 3 }
      ∷ record { key = codes "c1@5"; connection_id = codes "c1"; provider = 1 }
      ∷ []
unfolding put replaced insert text_eq
evicts_the_back = refl
