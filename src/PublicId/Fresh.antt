-- ===== src/PublicId/Fresh.antt =====
-- `New` of publicid.go: sixteen random bytes become a canonical UUID.
use Prim.Native.Nat.{bit_and, bit_or}
use lightweight_saas_backend.Prelude.{
  ==_iff, All, Bool, Bool-cases, List, [], and-true, ap, arith, false, get_or, inl, inr, length,
  length-set, ltb, refl, some, suc, sym, true, zero, ℕ, ◌%◌, ◌&&◌, ◌+◌, ◌/◌, ◌<◌, ◌==◌, ◌||◌, ◌∙◌,
  ◌∷◌, ◌≡◌, ◌≤◌,
}
use lightweight_saas_backend.PublicId.{
  check_from, hex_digit, is_hex, is_hyphen_place, layout, new, stamp,
}
use lightweight_saas_backend.PublicId.Laws.{IsCanonical, check_from-IsCanonical}
use lightweight_saas_backend.Text.{Text, ascii_lower, to_lower}

is_hex-hex_digit : (n : ℕ) → is_hex (hex_digit (n % 16)) ≡ true
unfolding is_hex
is_hex-hex_digit n = ground arith

lower-hex_digit : (n : ℕ) → ascii_lower (hex_digit (n % 16)) ≡ hex_digit (n % 16)
lower-hex_digit n = ground arith

hex_digit_ascii : (n : ℕ) → ltb (hex_digit (n % 16)) 0x80 ≡ true
hex_digit_ascii n = ground arith

-- Positions that are not a hyphen's, for two digits.
abbrev IsDigitPair : ℕ → Type 0
IsDigitPair i = (is_hyphen_place i ≡ false) × (is_hyphen_place (i + 1) ≡ false)

check_from-pair :
    (i b : ℕ) (rest : Text)
    → IsDigitPair i
    → check_from i (hex_digit (b / 16 % 16) ∷ hex_digit (b % 16) ∷ rest) ≡ check_from (i + 2) rest
unfolding check_from
check_from-pair i b rest h =
    rw (h.0, h.1, is_hex-hex_digit (b / 16), is_hex-hex_digit b)
      (ap (λ k. check_from k rest) (omega arith))

check_from-hyphen :
    (i : ℕ) (rest : Text)
    → is_hyphen_place i ≡ true
    → check_from i (b'-' ∷ rest) ≡ check_from (i + 1) rest
unfolding check_from
check_from-hyphen i rest h = rw h

to_lower-pair :
    (b : ℕ) (rest : Text)
    → to_lower (λ c. c) (hex_digit (b / 16 % 16) ∷ hex_digit (b % 16) ∷ rest)
      ≡ hex_digit (b / 16 % 16) ∷ hex_digit (b % 16) ∷ to_lower (λ c. c) rest
unfolding to_lower
to_lower-pair b rest =
    rw (hex_digit_ascii (b / 16), hex_digit_ascii b, lower-hex_digit (b / 16), lower-hex_digit b)

-- Sixteen bytes, written out.
layout_check :
    (a b c d e f g h i j k l m n o p : ℕ)
    → check_from 0 (layout (a ∷ b ∷ c ∷ d ∷ e ∷ f ∷ g ∷ h ∷ i ∷ j ∷ k ∷ l ∷ m ∷ n ∷ o ∷ p ∷ []))
      ≡ true
unfolding layout check_from
layout_check a b c d e f g h i j k l m n o p = simp is_hex-hex_digit

length-layout :
    (a b c d e f g h i j k l m n o p : ℕ)
    → length (layout (a ∷ b ∷ c ∷ d ∷ e ∷ f ∷ g ∷ h ∷ i ∷ j ∷ k ∷ l ∷ m ∷ n ∷ o ∷ p ∷ [])) ≡ 36
unfolding layout
length-layout a b c d e f g h i j k l m n o p = refl

layout_lower :
    (a b c d e f g h i j k l m n o p : ℕ)
    → let u = layout (a ∷ b ∷ c ∷ d ∷ e ∷ f ∷ g ∷ h ∷ i ∷ j ∷ k ∷ l ∷ m ∷ n ∷ o ∷ p ∷ []) in
      to_lower (λ c. c) u ≡ u
unfolding layout to_lower
layout_lower a b c d e f g h i j k l m n o p = simp (hex_digit_ascii, lower-hex_digit)

layout-IsCanonical : (s : List ℕ) → length s ≡ 16 → IsCanonical (layout s)
layout-IsCanonical (a ∷ b ∷ c ∷ d ∷ e ∷ f ∷ g ∷ h ∷ i ∷ j ∷ k ∷ l ∷ m ∷ n ∷ o ∷ p ∷ []) q =
    check_from-IsCanonical (layout_check a b c d e f g h i j k l m n o p)
      (length-layout a b c d e f g h i j k l m n o p) (layout_lower a b c d e f g h i j k l m n o p)
layout-IsCanonical s q = ground arith

-- Over one byte, check all values.
-- Whether a test holds for `count` numbers in a row, from `first` on.
holds_from : ℕ → (ℕ → Bool) → ℕ → Bool
holds_from first test zero = true
holds_from first test (suc count) = holds_from (first + 1) test count && test first

holds_from_lem :
    (test : ℕ → Bool) (first count byte : ℕ)
    → first ≤ byte
    → byte < first + count
    → holds_from first test count ≡ true
    → test byte ≡ true
unfolding holds_from
holds_from_lem test first zero byte low high all_hold = absurd (omega (arith, low, high))
holds_from_lem test first (suc count) byte low high all_hold =
    let (later, now) = and-true (holds_from (first + 1) test count) (test first) all_hold in
    elim (Bool-cases (first == byte)) [
      | inl here ↦ ap test (sym ((==_iff first byte).0 here)) ∙ now
      | inr there ↦
          holds_from_lem test (first + 1) count byte (ground arith) (omega (arith, high)) later
    ]

version : (x : ℕ) → x < 256 → (hex_digit (bit_or (bit_and x 0x0f) 0x40 / 16 % 16) == b'4') ≡ true
unfolding holds_from
version x h =
    holds_from_lem (λ y. hex_digit (bit_or (bit_and y 0x0f) 0x40 / 16 % 16) == b'4') 0 256 x
      (omega arith) h refl

-- One of 8, 9, a and b.
abbrev pub is_variant : ℕ → Bool
is_variant c = c == b'8' || c == b'9' || c == b'a' || c == b'b'

variant : (x : ℕ) → x < 256 → is_variant (hex_digit (bit_or (bit_and x 0x3f) 0x80 / 16 % 16)) ≡ true
unfolding holds_from
variant x h =
    holds_from_lem (λ y. is_variant (hex_digit (bit_or (bit_and y 0x3f) 0x80 / 16 % 16))) 0 256 x
      (omega arith) h refl

stamped_digits :
    (s : List ℕ)
    → length s ≡ 16
    → All (λ x. x < 256) s
    → (get_or (layout (stamp s)) 14 0 ≡ b'4') × (is_variant (get_or (layout (stamp s)) 19 0) ≡ true)
unfolding layout stamp
stamped_digits (a ∷ b ∷ c ∷ d ∷ e ∷ f ∷ g ∷ h ∷ i ∷ j ∷ k ∷ l ∷ m ∷ n ∷ o ∷ p ∷ []) q bytes =
    ((==_iff _ _).0 (version g bytes.1.1.1.1.1.1.0), variant i bytes.1.1.1.1.1.1.1.1.0)
stamped_digits s q bytes = ground arith

length-stamp : (s : List ℕ) → length s ≡ 16 → length (stamp s) ≡ 16
unfolding stamp
length-stamp s q = simp length-set q

-- From sixteen random bytes `New` makes a canonical UUID, of version 4 and of the variant 10xx;
-- `Parse` accepts it under every prefix.
pub new-IsCanonical :
    (s : List ℕ)
    → length s ≡ 16
    → All (λ x. x < 256) s
    → (u : Text) × (new (some s) ≡ some u)
      × IsCanonical u
      × (get_or u 14 0 ≡ b'4')
      × (is_variant (get_or u 19 0) ≡ true)
unfolding new
new-IsCanonical s q bytes =
    let digits = stamped_digits s q bytes in
    (layout (stamp s), refl, layout-IsCanonical (stamp s) (length-stamp s q), digits.0, digits.1)
