-- ===== src/RateLimit/Tests.antt =====
-- A burst of two, and one token a second.
use lightweight_saas_backend.Prelude.{[], arith, refl, ◌*◌, ◌+◌, ◌-◌, ◌∷◌, ◌≡◌, ◌≤◌}
use lightweight_saas_backend.RateLimit.{
  RateLimiter, allow, lookup, one_token, refilled, store, taken,
}
use lightweight_saas_backend.RateLimit.Laws.{admitted, admitted-Within}
use lightweight_saas_backend.Text.{codes, text_eq}

abbrev limiter : RateLimiter
limiter = record { buckets = []; rate = 1; burst = 2 * one_token }

admitted-Within_example :
    admitted (codes "10.0.0.1") limiter (5 ∷ 6 ∷ 7 ∷ []) * one_token ≤ 2 * one_token + (8 - 5) * 1
admitted-Within_example =
    admitted-Within (codes "10.0.0.1") limiter 5 (6 ∷ 7 ∷ []) 8
      (ground arith, (ground arith, ground arith))

two_of_three : admitted (codes "a") limiter (5 ∷ 6 ∷ 7 ∷ []) ≡ 2
unfolding admitted allow refilled taken lookup store text_eq
two_of_three = refl
