-- ===== src/Crypto/Base64.antt =====
-- `_b64encode` and `_b64decode`: `base64.b64encode`, and `base64.b64decode` with `validate=True`.
-- Bytes and characters are numbers.
use project_hamilton.Base.{
  ℕ, ◌+◌, ◌-◌, ◌*◌, ◌/◌, ◌%◌, ◌<◌, ◌≡◌, ◌≢◌, ◌∙◌, ap, refl, Option, none, some, List, [], ◌∷◌, Text,
  dec_lt, dec_le, ℕ_discrete, All, arith,
}

-- The character of six bits.
unfoldable pub b64_char : ℕ → ℕ
b64_char n = elim (dec_lt n 26) [
  | yes _ ↦ b'A' + n
  | no _ ↦ elim (dec_lt n 52) [
    | yes _ ↦ b'a' + (n - 26)
    | no _ ↦ elim (dec_lt n 62) [
      | yes _ ↦ b'0' + (n - 52)
      | no _ ↦ elim (ℕ_discrete n 62) [ yes _ ↦ b'+' | no _ ↦ b'/' ]
    ]
  ]
]

-- The six bits of a character of the alphabet.
unfoldable pub b64_value : ℕ → Option ℕ
b64_value c = elim (dec_lt c b'A') [
  | yes _ ↦ elim (dec_lt c b'0') [
    | yes _ ↦ elim (ℕ_discrete c b'+') [
      | yes _ ↦ some 62
      | no _ ↦ elim (ℕ_discrete c b'/') [ yes _ ↦ some 63 | no _ ↦ none ]
    ]
    | no _ ↦ elim (dec_le c b'9') [ yes _ ↦ some (c - b'0' + 52) | no _ ↦ none ]
  ]
  | no _ ↦ elim (dec_le c b'Z') [
    | yes _ ↦ some (c - b'A')
    | no _ ↦ elim (dec_lt c b'a') [
      | yes _ ↦ none
      | no _ ↦ elim (dec_le c b'z') [ yes _ ↦ some (c - b'a' + 26) | no _ ↦ none ]
    ]
  ]
]

-- Three bytes make four characters; what is left is padded by `=`.
unfoldable pub b64encode : List ℕ → Text
b64encode [] = []
b64encode (a ∷ []) = b64_char (a / 4) ∷ b64_char (a % 4 * 16) ∷ b'=' ∷ b'=' ∷ []
b64encode (a ∷ b ∷ []) =
    b64_char (a / 4) ∷ b64_char (a % 4 * 16 + b / 16) ∷ b64_char (b % 16 * 4) ∷ b'=' ∷ []
b64encode (a ∷ b ∷ c ∷ rest) =
    b64_char (a / 4)
    ∷ b64_char (a % 4 * 16 + b / 16)
    ∷ b64_char (b % 16 * 4 + c / 64)
    ∷ b64_char (c % 64)
    ∷ b64encode rest

-- A whole group in front of what was decoded.
unfoldable pub decode_group : ℕ → ℕ → Option ℕ → Option ℕ → Option (List ℕ) → Option (List ℕ)
decode_group v w (some x) (some y) (some rest) =
    some ((v * 4 + w / 16) ∷ (w % 16 * 16 + x / 4) ∷ (x % 4 * 64 + y) ∷ rest)
decode_group v w _ _ _ = none

-- The last group, whose fourth character is `=`, by its third; bits that are left over are dropped.
unfoldable pub decode_padded : ℕ → ℕ → ℕ → Option (List ℕ)
decode_padded v w y = elim (ℕ_discrete y b'=') [
  | yes _ ↦ some ((v * 4 + w / 16) ∷ [])
  | no _ ↦ elim (b64_value y) [
    | none ↦ none
    | some x ↦ some ((v * 4 + w / 16) ∷ (w % 16 * 16 + x / 4) ∷ [])
  ]
]

-- Nothing may follow the padding.
unfoldable pub decode_last : ℕ → ℕ → ℕ → Text → Option (List ℕ)
decode_last v w y [] = decode_padded v w y
decode_last v w y (c ∷ rest) = none

-- Four characters, by the values of the first two, and what the rest decodes to.
unfoldable pub decode_four : Option ℕ → Option ℕ → ℕ → ℕ → Text → Option (List ℕ) → Option (List ℕ)
decode_four none w y z rest more = none
decode_four (some v) none y z rest more = none
decode_four (some v) (some w) y z rest more = elim (ℕ_discrete z b'=') [
  | yes _ ↦ decode_last v w y rest
  | no _ ↦ decode_group v w (b64_value y) (b64_value z) more
]

-- `none` is a `binascii.Error`, which becomes a `ValueError`.
unfoldable pub b64decode : Text → Option (List ℕ)
b64decode [] = some []
b64decode (p ∷ []) = none
b64decode (p ∷ q ∷ []) = none
b64decode (p ∷ q ∷ y ∷ []) = none
b64decode (p ∷ q ∷ y ∷ z ∷ rest) = decode_four (b64_value p) (b64_value q) y z rest (b64decode rest)

value_char : (n : ℕ) → n < 64 → b64_value (b64_char n) ≡ some n
unfolding b64_value b64_char
value_char n h = ground arith

char_ne_pad : (n : ℕ) → n < 64 → b64_char n ≢ b'='
unfolding b64_char
char_ne_pad n h = ground arith

padded_one :
    (v w : ℕ) (more : Option (List ℕ))
    → decode_four (some v) (some w) b'=' b'=' [] more ≡ some ((v * 4 + w / 16) ∷ [])
unfolding decode_four decode_last decode_padded ℕ_discrete
padded_one v w more = refl

padded_two :
    (v w x y : ℕ) (more : Option (List ℕ))
    → b64_value y ≡ some x
    → y ≢ b'='
    → decode_four (some v) (some w) y b'=' [] more
      ≡ some ((v * 4 + w / 16) ∷ (w % 16 * 16 + x / 4) ∷ [])
unfolding decode_four decode_last decode_padded
padded_two v w x y more value ne = ground arith

whole_group :
    (v w x t y z : ℕ) (rest : Text) (bs : List ℕ)
    → b64_value y ≡ some x
    → b64_value z ≡ some t
    → z ≢ b'='
    → decode_four (some v) (some w) y z rest (some bs)
      ≡ some ((v * 4 + w / 16) ∷ (w % 16 * 16 + x / 4) ∷ (x % 4 * 64 + t) ∷ bs)
unfolding decode_four decode_group
whole_group v w x t y z rest bs value value' ne = ground arith

-- What was encoded decodes to the same bytes, if each is below 256.
pub b64decode-b64encode : (bs : List ℕ) → All (λ b. b < 256) bs → b64decode (b64encode bs) ≡ some bs
unfolding b64decode b64encode
b64decode-b64encode [] all = refl
b64decode-b64encode (a ∷ []) all =
    let e : a / 4 * 4 + a % 4 * 16 / 16 ≡ a = omega arith in
    rw (value_char (a / 4) (omega arith), value_char (a % 4 * 16) (omega arith))
      (padded_one (a / 4) (a % 4 * 16) (some []) ∙ ap (λ x. some (x ∷ [])) e)
b64decode-b64encode (a ∷ b ∷ []) all =
    let v = a / 4 in
    let w = a % 4 * 16 + b / 16 in
    let x = b % 16 * 4 in
    let e : v * 4 + w / 16 ≡ a = omega arith in
    let f : w % 16 * 16 + x / 4 ≡ b = omega arith in
    rw (value_char v (omega arith), value_char w (omega arith))
      (padded_two v w x (b64_char x) (some []) (value_char x (omega arith))
          (char_ne_pad x (omega arith))
        ∙ cc (e, f))
b64decode-b64encode (a ∷ b ∷ c ∷ rest) all =
    let v = a / 4 in
    let w = a % 4 * 16 + b / 16 in
    let x = b % 16 * 4 + c / 64 in
    let t = c % 64 in
    let ih = b64decode-b64encode rest all.1.1.1 in
    let e : v * 4 + w / 16 ≡ a = omega arith in
    let f : w % 16 * 16 + x / 4 ≡ b = omega arith in
    let g : x % 4 * 64 + t ≡ c = omega arith in
    rw (value_char v (omega arith), value_char w (omega arith), ih)
      (whole_group v w x t (b64_char x) (b64_char t) (b64encode rest) rest
          (value_char x (omega arith)) (value_char t (omega arith)) (char_ne_pad t (omega arith))
        ∙ cc (e, f, g))
