-- ===== src/RateLimit/Laws.antt =====
-- How much a bucket admits, and what the operations keep.
use native.Mathlib.Nat.{add-mul}
use mathlib.Core.Path.{subst}
use lightweight_saas_backend.Prelude.{
  Bool, Bool-cases, List, Option, [], ap, arith, false, if◌then◌else◌, inl, inr, none, refl, some,
  sym, true, ℕ, ◌*◌, ◌+◌, ◌-◌, ◌∙◌, ◌∷◌, ◌≡◌, ◌≢◌, ◌≤◌,
}
use lightweight_saas_backend.RateLimit.{
  Bucket, RateLimiter, allow, lookup, one_token, refilled, request, store, taken,
}
use lightweight_saas_backend.Text.{Text, text_eq}
use lightweight_saas_backend.Text.Laws.{text_eq_iff, text_eq_refl, text_ne}

lookup-store :
    (key : Text) (b : Bucket) (bs : List (Text × Bucket)) → lookup key (store key b bs) ≡ some b
unfolding lookup store
lookup-store key b [] = rw (text_eq_refl key) refl
lookup-store key b ((k, c) ∷ bs) = elim (Bool-cases (text_eq k key)) [
  | inl same ↦ rw same (rw same refl)
  | inr other ↦ rw other (rw other (lookup-store key b bs))
]

lookup-store_other :
    (key other : Text) (b : Bucket) (bs : List (Text × Bucket))
    → key ≢ other
    → lookup other (store key b bs) ≡ lookup other bs
unfolding lookup store
lookup-store_other key other b [] ne = rw (text_ne key other ne) refl
lookup-store_other key other b ((k, c) ∷ bs) ne = elim (Bool-cases (text_eq k key)) [
  | inl same ↦
      let k_other : text_eq k other ≡ false =
        text_ne k other (λ e. ne (sym ((text_eq_iff k key).0 same) ∙ e)) in
      rw same (rw k_other refl)
  | inr differs ↦ rw differs (elim (Bool-cases (text_eq k other)) [
    | inl hit ↦ rw hit refl
    | inr miss ↦ rw miss (lookup-store_other key other b bs ne)
  ])
]

-- The number of requests for a key that are admitted, at the times given.
abbrev pub count_if : Bool → ℕ → ℕ
count_if b n = if b then n + 1 else n

unfoldable pub admitted : Text → RateLimiter → List ℕ → ℕ
admitted key l [] = 0
admitted key l (t ∷ ts) =
    let r = allow key t l in let rest = admitted key r.0 ts in count_if r.1 rest

-- Times in order, from one time to another.
abbrev pub Within : ℕ → List ℕ → ℕ → Type 0
Within a [] z = a ≤ z
Within a (t ∷ ts) z = (a ≤ t) × Within t ts z

request_bound :
    (rate burst now : ℕ) (b : Bucket)
    → count_if (request rate burst now (some b)).1 0 * one_token
        + (request rate burst now (some b)).0.tokens
      ≤ b.tokens + (now - b.last) * rate
unfolding refilled taken
request_bound rate burst now b = ground arith

request-last : (rate burst now : ℕ) (o : Option Bucket) → (request rate burst now o).0.last ≡ now
unfolding refilled taken
request-last rate burst now none = ground arith
request-last rate burst now (some b) = ground arith

request-capped :
    (rate burst now : ℕ) (o : Option Bucket)
    → count_if (request rate burst now o).1 0 * one_token + (request rate burst now o).0.tokens
      ≤ burst
unfolding refilled taken
request-capped rate burst now none = ground arith
request-capped rate burst now (some b) = ground arith

elapsed_split : (a t z rate : ℕ) → a ≤ t → t ≤ z → (t - a) * rate + (z - t) * rate ≡ (z - a) * rate
elapsed_split a t z rate h k =
    let sum : (t - a) + (z - t) ≡ z - a = omega (arith, h, k) in
    sym (add-mul (t - a) (z - t) rate) ∙ ap (λ n. n * rate) sum

Within-≤ : (a : ℕ) (ts : List ℕ) (z : ℕ) → Within a ts z → a ≤ z
Within-≤ a [] z h = h
Within-≤ a (t ∷ ts) z (h, k) = omega (arith, h, Within-≤ t ts z k)

allow-bucket :
    (key : Text) (t : ℕ) (l : RateLimiter)
    → lookup key (allow key t l).0.buckets
      ≡ some (request l.rate l.burst t (lookup key l.buckets)).0
unfolding allow
allow-bucket key t l = lookup-store key _ l.buckets

-- One request more, in numbers.
count_step :
    (x : Bool) (n rest before wait spent total : ℕ)
    → count_if x 0 * one_token + rest ≤ before + spent
    → n * one_token ≤ rest + wait
    → spent + wait ≡ total
    → count_if x n * one_token ≤ before + total
count_step true n rest before wait spent total h k e = omega (arith, h, k, e)
count_step false n rest before wait spent total h k e = omega (arith, h, k, e)

admitted_bound :
    (key : Text) (l : RateLimiter) (b : Bucket) (ts : List ℕ) (z : ℕ)
    → lookup key l.buckets ≡ some b
    → Within b.last ts z
    → admitted key l ts * one_token ≤ b.tokens + (z - b.last) * l.rate
unfolding admitted allow
admitted_bound key l b [] z e h = ground arith
admitted_bound key l b (t ∷ ts) z e (h, k) =
    let r = request l.rate l.burst t (some b) in
    let x = allow key t l in
    let n = admitted key x.0 ts in
    let later : n * one_token ≤ r.0.tokens + (z - r.0.last) * l.rate =
      admitted_bound key x.0 r.0 ts z (allow-bucket key t l ∙ rw e refl)
        (rw (request-last l.rate l.burst t (some b)) k) in
    let then_on : n * one_token ≤ r.0.tokens + (z - t) * l.rate =
      subst (λ u. n * one_token ≤ r.0.tokens + (z - u) * l.rate)
        (request-last l.rate l.burst t (some b)) later in
    let at_once : count_if x.1 0 * one_token + r.0.tokens ≤ b.tokens + (t - b.last) * l.rate =
      rw e (request_bound l.rate l.burst t b) in
    let split = elapsed_split b.last t z l.rate h (Within-≤ t ts z k) in
    count_step x.1 n r.0.tokens b.tokens ((z - t) * l.rate) ((t - b.last) * l.rate)
      ((z - b.last) * l.rate) at_once then_on split

-- From the first request on, in any state of the limiter, no more requests for a key are admitted
-- than the burst and what is refilled until the time of the last one, the first included. The times
-- do not go back.
pub admitted-Within :
    (key : Text) (l : RateLimiter) (t : ℕ) (ts : List ℕ) (z : ℕ)
    → Within t ts z
    → admitted key l (t ∷ ts) * one_token ≤ l.burst + (z - t) * l.rate
unfolding admitted allow
admitted-Within key l t ts z k =
    let o = lookup key l.buckets in
    let r = request l.rate l.burst t o in
    let x = allow key t l in
    let n = admitted key x.0 ts in
    let later : n * one_token ≤ r.0.tokens + (z - r.0.last) * l.rate =
      admitted_bound key x.0 r.0 ts z (allow-bucket key t l)
        (rw (request-last l.rate l.burst t o) k) in
    let then_on : n * one_token ≤ r.0.tokens + (z - t) * l.rate =
      subst (λ u. n * one_token ≤ r.0.tokens + (z - u) * l.rate) (request-last l.rate l.burst t o)
        later in
    let at_once : count_if x.1 0 * one_token + r.0.tokens ≤ l.burst + 0 =
      omega (arith, request-capped l.rate l.burst t o) in
    count_step x.1 n r.0.tokens l.burst ((z - t) * l.rate) 0 ((z - t) * l.rate) at_once then_on
      (omega arith)

-- A request for one key leaves the bucket of every other key as it is.
pub allow-other :
    (key other : Text) (t : ℕ) (l : RateLimiter)
    → key ≢ other
    → lookup other (allow key t l).0.buckets ≡ lookup other l.buckets
unfolding allow
allow-other key other t l ne = lookup-store_other key other _ l.buckets ne
