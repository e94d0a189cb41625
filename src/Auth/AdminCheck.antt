-- ===== src/Auth/AdminCheck.antt =====
-- internal/auth/admin_check.go: the cached live admin check.
use lightweight_saas_backend.Prelude.{
  Bool, List, Option, [], arith, false, if◌then◌else◌, ltb, none, some, sym, true, ℕ, ◌+◌, ◌<◌,
  ◌==◌, ◌∷◌, ◌≡◌, ◌≢◌, ◌≤◌,
}
use lightweight_saas_backend.Text.{Text, text_eq}
use lightweight_saas_backend.Text.Laws.{text_eq_iff, text_eq_refl, text_ne}

-- The answer of an `AdminChecker`; `none` is an error.
abbrev pub Answer : Type 0
Answer = Option Bool

-- `adminCacheEntry`; times are nanoseconds.
pub record AdminCacheEntry : Type 0 where
  pub is_admin : Bool
  pub expires_at : ℕ

-- 30 s.
abbrev pub default_admin_ttl : ℕ
default_admin_ttl = 30000000000

-- `CachedAdminChecker` without its upstream and its clock, which are arguments of `is_admin`.
pub record CachedAdminChecker : Type 0 where
  pub ttl : ℕ
  pub entries : List (Text × AdminCacheEntry)

-- `NewCachedAdminChecker`; a duration of zero or below becomes the default, here zero.
unfoldable pub new_cached_admin_checker : ℕ → CachedAdminChecker
new_cached_admin_checker ttl = record {
  ttl = if ttl == 0 then default_admin_ttl else ttl;
  entries = [];
}

-- A Go map from subjects: reading, `delete` and assignment.
unfoldable pub entry_of : Text → List (Text × AdminCacheEntry) → Option AdminCacheEntry
entry_of k [] = none
entry_of k ((j, e) ∷ m) = if text_eq j k then some e else entry_of k m

unfoldable pub delete : Text → List (Text × AdminCacheEntry) → List (Text × AdminCacheEntry)
delete k [] = []
delete k ((j, e) ∷ m) = let rest = delete k m in if text_eq j k then rest else (j, e) ∷ rest

-- The cached answer, where it is still in force.
fresh_at : ℕ → Option AdminCacheEntry → Option Bool
fresh_at now none = none
fresh_at now (some e) = if ltb now e.expires_at then some e.is_admin else none

-- What is stored after the upstream answered at `then_now`; an error stores nothing.
pub store : CachedAdminChecker → Text → ℕ → Answer → CachedAdminChecker
store c subject then_now none = c
store c subject then_now (some yes_no) =
    let e : AdminCacheEntry = record { is_admin = yes_no; expires_at = then_now + c.ttl } in
    record c { entries = (subject, e) ∷ delete subject c.entries }

-- `IsAdmin`: `now` is the clock at the read, `then_now` at the write, `upstream` what the live check
-- answers if it is asked. The last part says whether it was asked.
unfoldable pub is_admin :
    CachedAdminChecker → Text → ℕ → ℕ → Answer → CachedAdminChecker × Answer × Bool
unfolding fresh_at store
is_admin c subject now then_now upstream =
    if text_eq subject []
    then (c, some false, false)
    else elim (fresh_at now (entry_of subject c.entries)) [
      | some cached ↦ (c, some cached, false)
      | none ↦ (store c subject then_now upstream, upstream, true)
    ]

unfoldable pub invalidate : CachedAdminChecker → Text → CachedAdminChecker
invalidate c subject =
    if text_eq subject [] then c else record c { entries = delete subject c.entries }

unfoldable pub invalidate_all : CachedAdminChecker → CachedAdminChecker
invalidate_all c = record c { entries = [] }

entry_of-delete :
    (k j : Text) (m : List (Text × AdminCacheEntry))
    → entry_of j (delete k m) ≡ (if text_eq k j then none else entry_of j m)
unfolding entry_of delete
entry_of-delete k j [] = ground arith
entry_of-delete k j ((i, e) ∷ m) =
    ground (arith, entry_of-delete k j m, text_eq_iff k j, text_eq_iff i k, text_eq_iff i j)

-- The check of a subject that has no entry in force asks the live backend.
is_admin_asks :
    (c : CachedAdminChecker) (subject : Text) (now then_now : ℕ) (upstream : Answer)
    → subject ≢ []
    → fresh_at now (entry_of subject c.entries) ≡ none
    → is_admin c subject now then_now upstream ≡ (store c subject then_now upstream, upstream, true)
unfolding is_admin
is_admin_asks c subject now then_now upstream ne e = rw (text_ne subject [] ne) (rw (e, is_admin))

is_admin_answers :
    (c : CachedAdminChecker) (subject : Text) (now then_now : ℕ) (upstream : Answer) (cached : Bool)
    → subject ≢ []
    → fresh_at now (entry_of subject c.entries) ≡ some cached
    → is_admin c subject now then_now upstream ≡ (c, some cached, false)
unfolding is_admin
is_admin_answers c subject now then_now upstream cached ne e =
    rw (text_ne subject [] ne) (rw (e, is_admin))

invalidate_misses :
    (c : CachedAdminChecker) (subject : Text) (now : ℕ)
    → subject ≢ []
    → fresh_at now (entry_of subject (invalidate c subject).entries) ≡ none
unfolding invalidate fresh_at
invalidate_misses c subject now ne =
    rw (text_ne subject [] ne)
      (rw (entry_of-delete subject subject c.entries) (rw (text_eq_refl subject)))

entry_of-invalidate :
    (c : CachedAdminChecker) (subject other : Text)
    → subject ≢ []
    → other ≢ subject
    → entry_of other (invalidate c subject).entries ≡ entry_of other c.entries
unfolding invalidate
entry_of-invalidate c subject other ne different = rw (text_ne subject [] ne) (
    rw (entry_of-delete subject other c.entries)
      (rw (text_ne subject other (λ e. different (sym e)))))

-- After an invalidation the next check of that subject asks the live backend and answers what it
-- answers, an error included; the entries of every other subject are left as they were.
pub is_admin-invalidate :
    (c : CachedAdminChecker) (subject other : Text) (now then_now : ℕ) (upstream : Answer)
    → subject ≢ []
    → other ≢ subject
    → ((is_admin (invalidate c subject) subject now then_now upstream).1 ≡ upstream)
      × ((is_admin (invalidate c subject) subject now then_now upstream).2 ≡ true)
      × (entry_of other (invalidate c subject).entries ≡ entry_of other c.entries)
is_admin-invalidate c subject other now then_now upstream ne different =
    let asks =
      is_admin_asks (invalidate c subject) subject now then_now upstream ne
        (invalidate_misses c subject now ne) in
    (rw asks, rw asks, entry_of-invalidate c subject other ne different)

stored_entry :
    (c : CachedAdminChecker) (subject : Text) (t now : ℕ) (answer : Bool)
    → fresh_at now (entry_of subject (store c subject t (some answer)).entries)
      ≡ (if ltb now (t + c.ttl) then some answer else none)
unfolding store entry_of fresh_at
stored_entry c subject t now answer = rw (text_eq_refl subject)

module _ (c : CachedAdminChecker) (subject : Text) (t now then_now : ℕ) (answer : Bool)
    (upstream : Answer) (ne : subject ≢ []) where
  is_admin-store_within :
      now < t + c.ttl
      → let again = is_admin (store c subject t (some answer)) subject now then_now upstream in
        (again.1 ≡ some answer) × (again.2 ≡ false)
  is_admin-store_within h =
      let fits : ltb now (t + c.ttl) ≡ true = ground arith in
      let found =
        is_admin_answers (store c subject t (some answer)) subject now then_now upstream answer ne
          (rw (stored_entry c subject t now answer) (rw fits)) in
      (rw found, rw found)

  is_admin-store_after :
      t + c.ttl ≤ now
      → let again = is_admin (store c subject t (some answer)) subject now then_now upstream in
        (again.1 ≡ upstream) × (again.2 ≡ true)
  is_admin-store_after h =
      let passed : ltb now (t + c.ttl) ≡ false = ground arith in
      let asks =
        is_admin_asks (store c subject t (some answer)) subject now then_now upstream ne
          (rw (stored_entry c subject t now answer) (rw passed)) in
      (rw asks, rw asks)

-- An answer stored at time `t`, in whatever state of the cache, is repeated without asking until the
-- lifetime has passed, whatever the live backend would say; from then on the backend is asked.
pub is_admin-store :
    (c : CachedAdminChecker) (subject : Text) (t now then_now : ℕ) (answer : Bool)
    (upstream : Answer)
    → subject ≢ []
    → let again = is_admin (store c subject t (some answer)) subject now then_now upstream in
      (now < t + c.ttl → (again.1 ≡ some answer) × (again.2 ≡ false))
      × (t + c.ttl ≤ now → (again.1 ≡ upstream) × (again.2 ≡ true))
is_admin-store c subject t now then_now answer upstream ne = (
  (λ h. is_admin-store_within c subject t now then_now answer upstream ne h),
  λ h. is_admin-store_after c subject t now then_now answer upstream ne h,
)
