-- ===== src/PublicId.antt =====
-- internal/publicid/publicid.go: the prefixed identifiers of the public API.
pub mod Laws
pub mod Canonical
pub mod Fresh
mod Tests
use Prim.Native.Nat.{bit_and, bit_or}
use lightweight_saas_backend.Prelude.{
  Bool, List, Option, [], drop, false, get_or, if◌then◌else◌, leb, ltb, none, not, set, some, take,
  true, ℕ, ◌%◌, ◌&&◌, ◌*◌, ◌++◌, ◌+◌, ◌-◌, ◌/◌, ◌==◌, ◌||◌, ◌∷◌,
}
use lightweight_saas_backend.Text.{Text, codes, cut, len, text_eq, to_lower, trim_space}

-- The two errors of the package.
pub data ParseError : Type 0 where
  wrong_prefix malformed : ParseError

pub data Parsed : Type 0 where
  parsed : Text → Parsed
  unparsed : ParseError → Parsed

abbrev pub workspace_prefix : Text
workspace_prefix = codes "ws"

abbrev pub connection_prefix : Text
connection_prefix = codes "conn"

abbrev pub project_prefix : Text
project_prefix = codes "prj"

abbrev pub credential_prefix : Text
credential_prefix = codes "key"

abbrev pub separator : ℕ
separator = b'_'

unfoldable pub format : Text → Text → Text
format prefix uuid = prefix ++ separator ∷ uuid

unfoldable pub is_hex : ℕ → Bool
is_hex c = (leb b'0' c && leb c b'9') || (leb b'a' c && leb c b'f') || (leb b'A' c && leb c b'F')

is_hyphen_place : ℕ → Bool
is_hyphen_place i = i == 8 || i == 13 || i == 18 || i == 23

-- The loop of `normalizeUUID`, from the index `i` on.
unfoldable pub check_from : ℕ → Text → Bool
unfolding is_hyphen_place is_hex
check_from i [] = true
check_from i (c ∷ s) = (if is_hyphen_place i then c == b'-' else is_hex c) && check_from (i + 1) s

-- What is lowercased has only ASCII characters, so no table of other letters is asked for.
unfoldable pub normalize_uuid : Text → Option Text
unfolding check_from
normalize_uuid s =
    if not (len s == 36) then none else if check_from 0 s then some (to_lower (λ c. c) s) else none

of_uuid : Option Text → Parsed
of_uuid none = unparsed malformed
of_uuid (some uuid) = parsed uuid

-- What stands behind the prefix, where the string has a separator.
after_prefix : Text → Option (Text × Text) → Text → Parsed
unfolding of_uuid normalize_uuid
after_prefix prefix none s = of_uuid (normalize_uuid s)
after_prefix prefix (some (before, after)) s =
    if not (text_eq before prefix) then unparsed wrong_prefix else of_uuid (normalize_uuid after)

unfoldable pub parse : Text → Text → Parsed
unfolding after_prefix
parse prefix raw =
    let s = trim_space raw in
    if text_eq s [] then unparsed malformed else after_prefix prefix (cut separator s) s

-- `hextable` of encoding/hex.
abbrev pub hex_digit : ℕ → ℕ
hex_digit n = if ltb n 10 then b'0' + n else b'a' + n - 10

-- `hex.Encode`: two digits for each byte.
unfoldable pub hex_encode : List ℕ → Text
hex_encode [] = []
hex_encode (b ∷ bs) = hex_digit (b / 16 % 16) ∷ hex_digit (b % 16) ∷ hex_encode bs

-- The version and the variant of RFC 4122, in bytes 6 and 8.
unfoldable pub stamp : List ℕ → List ℕ
stamp b =
    let b' = set b 6 (bit_or (bit_and (get_or b 6 0) 0x0f) 0x40) in
    set b' 8 (bit_or (bit_and (get_or b' 8 0) 0x3f) 0x80)

-- The buffer, with the hyphens at 8, 13, 18 and 23.
unfoldable pub layout : List ℕ → Text
unfolding hex_encode
layout b =
    hex_encode (take 4 b)
    ++ (b'-'
        ∷ (hex_encode (take 2 (drop 4 b))
            ++ (b'-'
                ∷ (hex_encode (take 2 (drop 6 b))
                    ++ (b'-'
                        ∷ (hex_encode (take 2 (drop 8 b))
                            ++ (b'-' ∷ hex_encode (take 6 (drop 10 b)))))))))

-- `New` over what `rand.Read` gives: sixteen bytes, or none if it fails.
unfoldable pub new : Option (List ℕ) → Option Text
unfolding stamp layout
new none = none
new (some b) = some (layout (stamp b))
