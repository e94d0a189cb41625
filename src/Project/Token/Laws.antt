-- ===== src/Project/Token/Laws.antt =====
-- Tokens parse back into what was minted, and nothing else parses.
use mathlib.Core.Path.{subst}
use lightweight_saas_backend.Prelude.{
  List, Option, Option-cases, [], ap, arith, inl, inr, leb, length, none, refl, some, true, ℕ, ◌&&◌,
  ◌++◌, ◌+◌, ◌||◌, ◌↔◌, ◌∙◌, ◌∷◌, ◌≡◌,
}
use lightweight_saas_backend.Project.Token.{
  Hash, MintedCredential, ParsedToken, base32_char, encode, is_base32_lower, lookup_len,
  mint_credential, parse_token, secret_len, secret_matches, token_of, token_prefix,
}
use lightweight_saas_backend.Text.{Text, cut, len, strip_prefix}
use lightweight_saas_backend.Text.Laws.{
  IsAscii, Lacks, cut-append, cut_sound, len_of_IsAscii, strip_prefix-append, strip_prefix_sound,
  text_eq_refl,
}

abbrev IsBase32 : ℕ → Type 0
IsBase32 c = ((leb b'a' c && leb c b'z') || (leb b'2' c && leb c b'7')) ≡ true

base32_char-IsBase32 : (n : ℕ) → IsBase32 (base32_char n)
base32_char-IsBase32 n = ground arith

encode-is_base32_lower : (bytes : List ℕ) → is_base32_lower (encode bytes) ≡ true
unfolding is_base32_lower encode
encode-is_base32_lower (a ∷ b ∷ c ∷ d ∷ e ∷ bytes) =
    simp (base32_char-IsBase32, encode-is_base32_lower bytes)
encode-is_base32_lower (a ∷ b ∷ c ∷ d ∷ []) = simp base32_char-IsBase32
encode-is_base32_lower (a ∷ b ∷ c ∷ []) = simp base32_char-IsBase32
encode-is_base32_lower (a ∷ b ∷ []) = simp base32_char-IsBase32
encode-is_base32_lower (a ∷ []) = simp base32_char-IsBase32
encode-is_base32_lower [] = refl

-- Five bytes become eight characters.
length-encode_five :
    (bytes : List ℕ) (n : ℕ)
    → length bytes ≡ 5 + n
    → (rest : List ℕ) × (length rest ≡ n) × (length (encode bytes) ≡ 8 + length (encode rest))
unfolding encode
length-encode_five (a ∷ b ∷ c ∷ d ∷ e ∷ bytes) n h = (bytes, omega arith, omega arith)
length-encode_five (a ∷ b ∷ c ∷ d ∷ []) n h = absurd (omega arith)
length-encode_five (a ∷ b ∷ c ∷ []) n h = absurd (omega arith)
length-encode_five (a ∷ b ∷ []) n h = absurd (omega arith)
length-encode_five (a ∷ []) n h = absurd (omega arith)
length-encode_five [] n h = absurd (omega arith)

length-encode_nil : (bytes : List ℕ) → length bytes ≡ 0 → length (encode bytes) ≡ 0
unfolding encode
length-encode_nil [] h = refl
length-encode_nil (a ∷ bytes) h = absurd (omega arith)

length-encode_two : (bytes : List ℕ) → length bytes ≡ 2 → length (encode bytes) ≡ 4
unfolding encode
length-encode_two (a ∷ b ∷ []) h = refl
length-encode_two bytes h = absurd (ground arith)

length-encode_lookup : (bytes : List ℕ) → length bytes ≡ 10 → length (encode bytes) ≡ lookup_len
length-encode_lookup bytes h =
    let (r1, h1, e1) = length-encode_five bytes 5 h in
    let (r2, h2, e2) = length-encode_five r1 0 h1 in omega (arith, length-encode_nil r2 h2)

length-encode_secret : (bytes : List ℕ) → length bytes ≡ 32 → length (encode bytes) ≡ secret_len
length-encode_secret bytes h =
    let (r1, h1, e1) = length-encode_five bytes 27 h in
    let (r2, h2, e2) = length-encode_five r1 22 h1 in
    let (r3, h3, e3) = length-encode_five r2 17 h2 in
    let (r4, h4, e4) = length-encode_five r3 12 h3 in
    let (r5, h5, e5) = length-encode_five r4 7 h4 in
    let (r6, h6, e6) = length-encode_five r5 2 h5 in omega (arith, length-encode_two r6 h6)

base32-IsAscii : (s : Text) → is_base32_lower s ≡ true → IsAscii s
unfolding is_base32_lower
base32-IsAscii [] h = tt
base32-IsAscii (c ∷ s) h = (ground arith, base32-IsAscii s (ground arith))

base32-Lacks : (s : Text) → is_base32_lower s ≡ true → Lacks b'_' s
unfolding is_base32_lower
base32-Lacks [] h = tt
base32-Lacks (c ∷ s) h = (ground arith, base32-Lacks s (ground arith))

-- The two segments of a token.
pub record IsToken (t : ParsedToken) : Type 0 where
  pub lookup_long : len t.lookup ≡ lookup_len
  pub secret_long : len t.secret ≡ secret_len
  pub lookup_base32 : is_base32_lower t.lookup ≡ true
  pub secret_base32 : is_base32_lower t.secret ≡ true

abbrev pub spelled : ParsedToken → Text
spelled t = token_prefix ++ (t.lookup ++ b'_' ∷ t.secret)

parse_token_complete : (t : ParsedToken) → IsToken t → parse_token (spelled t) ≡ some t
unfolding parse_token
parse_token_complete t h =
    rw (strip_prefix-append token_prefix (t.lookup ++ b'_' ∷ t.secret)) (
      rw (cut-append b'_' t.lookup t.secret (base32-Lacks t.lookup h.lookup_base32)) (ground arith))

token_of_sound :
    (o : Option (Text × Text)) (t : ParsedToken)
    → token_of o ≡ some t
    → (o ≡ some (t.lookup, t.secret)) × IsToken t
unfolding token_of
token_of_sound none t h = absurd (ground arith)
token_of_sound (some (lookup, secret)) t h =
    let parts : IsToken (record { lookup = lookup; secret = secret }) = record {
      lookup_long = ground arith;
      secret_long = ground arith;
      lookup_base32 = ground arith;
      secret_base32 = ground arith;
    } in
    let same : record { lookup = lookup; secret = secret } ≡ t = ground arith in
    (ap (λ (u : ParsedToken). some (u.lookup, u.secret)) same, subst IsToken same parts)

parse_token_sound :
    (raw : Text) (t : ParsedToken) → parse_token raw ≡ some t → (raw ≡ spelled t) × IsToken t
unfolding parse_token
parse_token_sound raw t h = elim (Option-cases (strip_prefix token_prefix raw)) [
  | inl e ↦ absurd (ground arith)
  | inr (body, e) ↦
      let parsed_body : token_of (cut b'_' body) ≡ some t = rw e at h in
      let (parts, valid) = token_of_sound (cut b'_' body) t parsed_body in
      let (body_is, _) = cut_sound b'_' body t.lookup t.secret parts in
      (strip_prefix_sound token_prefix raw body e ∙ ap (λ b. token_prefix ++ b) body_is, valid)
]

-- `parseToken` accepts exactly the prefix followed by 16 and 52 characters of the base32 alphabet,
-- joined by one underscore, and returns the two segments.
pub parse_token_iff :
    (raw : Text) (t : ParsedToken) → (parse_token raw ≡ some t) ↔ ((raw ≡ spelled t) × IsToken t)
parse_token_iff raw t =
    (parse_token_sound raw t, λ h. ap parse_token h.0 ∙ parse_token_complete t h.1)

len-encode : (bytes : List ℕ) → len (encode bytes) ≡ length (encode bytes)
len-encode bytes = len_of_IsAscii (encode bytes) (base32-IsAscii _ (encode-is_base32_lower bytes))

encode-IsToken :
    (lookup_raw secret_raw : List ℕ)
    → length lookup_raw ≡ 10
    → length secret_raw ≡ 32
    → IsToken (record { lookup = encode lookup_raw; secret = encode secret_raw })
encode-IsToken lookup_raw secret_raw lookup_long secret_long = record {
  lookup_long = len-encode lookup_raw ∙ length-encode_lookup lookup_raw lookup_long;
  secret_long = len-encode secret_raw ∙ length-encode_secret secret_raw secret_long;
  lookup_base32 = encode-is_base32_lower lookup_raw;
  secret_base32 = encode-is_base32_lower secret_raw;
}

-- A minted token parses back into the stored lookup segment and a secret whose hash is the stored one.
pub parse_token-mint :
    (hash : Hash) (lookup_raw secret_raw : List ℕ)
    → length lookup_raw ≡ 10
    → length secret_raw ≡ 32
    → (m : MintedCredential) × (t : ParsedToken) × (mint_credential hash
          (some lookup_raw)
          (some secret_raw)
        ≡ some m)
      × (parse_token m.token ≡ some t)
      × (t.lookup ≡ m.key_prefix)
      × (secret_matches hash t.secret m.key_hash ≡ true)
unfolding mint_credential secret_matches
parse_token-mint hash lookup_raw secret_raw lookup_long secret_long =
    let t : ParsedToken = record { lookup = encode lookup_raw; secret = encode secret_raw } in
    let valid = encode-IsToken lookup_raw secret_raw lookup_long secret_long in
    (_, t, refl, parse_token_complete t valid, refl, text_eq_refl (hash (encode secret_raw)))
