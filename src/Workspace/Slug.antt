-- ===== src/Workspace/Slug.antt =====
-- internal/workspace/slug.go: slug normalization, validation and the reserved set.
pub mod Grammar
pub mod Derive
mod Tests
use lightweight_saas_backend.Prelude.{
  Bool, List, Option, [], any, false, if◌then◌else◌, leb, ltb, none, not, some, take, true, ℕ, ◌&&◌,
  ◌++◌, ◌==◌, ◌||◌, ◌∷◌,
}
use lightweight_saas_backend.Text.{Text, codes, len, text_eq, to_lower, trim_space, trim_suffix}

abbrev pub max_slug_length : ℕ
max_slug_length = 63

abbrev pub max_name_length : ℕ
max_name_length = 200

-- [a-z0-9]
unfoldable pub is_slug_char : ℕ → Bool
is_slug_char c = (leb b'a' c && leb c b'z') || (leb b'0' c && leb c b'9')

-- A run of the pattern's automaton; `inside` says that the last character was in a group.
pub match_from : Bool → Text → Bool
unfolding is_slug_char
match_from inside [] = inside
match_from inside (c ∷ s) =
    (is_slug_char c || (inside && c == b'-')) && match_from (is_slug_char c) s

-- `slugPattern.MatchString`: ^[a-z0-9]+(-[a-z0-9]+)*$
unfoldable pub slug_pattern : Text → Bool
unfolding match_from
slug_pattern s = match_from false s

-- The keys of `reservedSlugs`.
abbrev pub reserved_slugs : List Text
reserved_slugs =
    codes "admin"
    ∷ codes "api"
    ∷ codes "system"
    ∷ codes "health"
    ∷ codes "static"
    ∷ codes "docs"
    ∷ codes "swagger"
    ∷ codes "v1"
    ∷ []

unfoldable pub is_reserved : Text → Bool
is_reserved slug = any (text_eq slug) reserved_slugs

pub data SlugError : Type 0 where
  slug_invalid slug_reserved : SlugError

-- `table` is the lower case of the letters beyond ASCII.
unfoldable pub normalize_slug : (ℕ → ℕ) → Text → Text
normalize_slug table s = to_lower table (trim_space s)

-- What one round of the loop of `SlugFromName` writes.
emit : Bool → ℕ → Text
emit last_was_hyphen r =
    if is_slug_char r then r ∷ [] else if not last_was_hyphen then b'-' ∷ [] else []

-- The loop: a slug character clears the flag, any other sets it or leaves it set.
pub slug_loop : Bool → Text → Text
unfolding emit is_slug_char
slug_loop last_was_hyphen [] = []
slug_loop last_was_hyphen (r ∷ s) =
    emit last_was_hyphen r ++ slug_loop (if is_slug_char r then false else true) s

-- What is written holds only ASCII characters, so the slice cuts no character in two.
unfoldable pub slug_from_name : (ℕ → ℕ) → Text → Text
unfolding slug_loop
slug_from_name table name =
    let out = trim_suffix b'-' (slug_loop true (to_lower table (trim_space name))) in
    if ltb max_slug_length (len out) then trim_suffix b'-' (take max_slug_length out) else out

-- `none` where the slug is accepted.
unfoldable pub validate_slug : Text → Option SlugError
validate_slug slug =
    if text_eq slug [] || ltb max_slug_length (len slug) || not (slug_pattern slug)
    then some slug_invalid
    else if is_reserved slug
    then some slug_reserved
    else none

unfoldable pub is_reserved_slug : (ℕ → ℕ) → Text → Bool
is_reserved_slug table s = is_reserved (normalize_slug table s)

unfoldable pub normalize_name : Text → Text
normalize_name name = trim_space name
