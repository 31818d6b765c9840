-- ===== src/Base/Json.antt =====
-- `json.dumps`, on the values that the services serialise. The text is ASCII, so it is also the
-- bytes of its encoding.
use Prim.Native.Nat.{ℕ, zero, suc, ◌+◌, ◌-◌, ◌/◌, ◌%◌, compare, Ordering}
use mathlib.Core.Bool.{Bool, true, false}
use mathlib.Core.List.{List, [], ◌∷◌, ◌++◌}
use mathlib.Core.Path.{◌≡◌, refl}
use native.Mathlib.Decide.{dec_lt}
use project_hamilton.Base.Int.{ℤ, pos, negsuc}

mutual
  pub data Json : Type 0 where
    str : List ℕ → Json
    int : ℤ → Json
    null : Json
    arr : Items → Json
    obj : Fields → Json

  pub data Items : Type 0 where
    nil : Items
    cons : Json → Items → Items

  pub data Fields : Type 0 where
    end : Fields
    field : List ℕ → Json → Fields → Fields

decimal_from : ℕ → ℕ → List ℕ → List ℕ
unfolding dec_lt
decimal_from zero n acc = acc
decimal_from (suc fuel) n acc = elim (dec_lt n 10) [
  | yes _ ↦ (b'0' + n) ∷ acc
  | no _ ↦ decimal_from fuel (n / 10) ((b'0' + n % 10) ∷ acc)
]

-- `str(n)`; a number has fewer than `n + 2` digits.
unfoldable pub decimal : ℕ → List ℕ
unfolding decimal_from
decimal n = decimal_from (suc n) n []

unfoldable pub int_text : ℤ → List ℕ
unfolding decimal
int_text (pos n) = decimal n
int_text (negsuc n) = b'-' ∷ decimal (suc n)

-- `str` of an amount in cents, which has two decimals.
unfoldable pub str_amount : ℕ → List ℕ
unfolding decimal
str_amount cents =
    decimal (cents / 100) ++ b'.' ∷ (b'0' + cents % 100 / 10) ∷ (b'0' + cents % 10) ∷ []

hex_digit : ℕ → ℕ
unfolding dec_lt
hex_digit d = elim (dec_lt d 10) [ yes _ ↦ b'0' + d | no _ ↦ b'a' + d - 10 ]

-- `\uXXXX`
unicode_escape : ℕ → List ℕ
unfolding hex_digit
unicode_escape c =
    b'\\'
    ∷ b'u'
    ∷ hex_digit (c / 4096)
    ∷ hex_digit (c / 256 % 16)
    ∷ hex_digit (c / 16 % 16)
    ∷ hex_digit (c % 16)
    ∷ []

is_equal : ℕ → ℕ → Bool
is_equal a b = elim (compare a b) [ Ordering.eq ↦ true | _ ↦ false ]

-- The letter after the backslash, for what json.encoder escapes by a letter.
abbrev short_escapes : List (ℕ × ℕ)
short_escapes =
    (34, 34) ∷ (92, 92) ∷ (10, b'n') ∷ (13, b'r') ∷ (9, b't') ∷ (12, b'f') ∷ (8, b'b') ∷ []

-- `ascii` is `ensure_ascii`: without it only the control characters are escaped.
plain_escape : Bool → ℕ → List ℕ
unfolding unicode_escape dec_lt
plain_escape false c = elim (dec_lt c 32) [ yes _ ↦ unicode_escape c | no _ ↦ c ∷ [] ]
plain_escape true c = elim (dec_lt c 32) [
  | yes _ ↦ unicode_escape c
  | no _ ↦ elim (dec_lt c 127) [
    | yes _ ↦ c ∷ []
    | no _ ↦ elim (dec_lt c 65536) [
      | yes _ ↦ unicode_escape c
      | no _ ↦
          unicode_escape (55296 + (c - 65536) / 1024) ++ unicode_escape (56320 + (c - 65536) % 1024)
    ]
  ]
]

escape_by : Bool → List (ℕ × ℕ) → ℕ → List ℕ
unfolding plain_escape is_equal
escape_by ascii [] c = plain_escape ascii c
escape_by ascii ((d, letter) ∷ table) c = elim (is_equal c d) [
  | true ↦ b'\\' ∷ letter ∷ []
  | false ↦ escape_by ascii table c
]

escape_all : Bool → List ℕ → List ℕ
unfolding escape_by
escape_all ascii [] = []
escape_all ascii (c ∷ s) = escape_by ascii short_escapes c ++ escape_all ascii s

quote : Bool → List ℕ → List ℕ
unfolding escape_all
quote ascii s = (34 ∷ escape_all ascii s) ++ 34 ∷ []

-- The `separators` of a call, and its `ensure_ascii`.
pub record Style : Type 0 where
  pub item_sep : List ℕ
  pub key_sep : List ℕ
  pub ensure_ascii : Bool

-- `", "` and `": "`
abbrev pub spaced : Style
spaced = record { item_sep = b',' ∷ b' ' ∷ []; key_sep = b':' ∷ b' ' ∷ []; ensure_ascii = true }

-- `separators=(",", ":")`
abbrev pub compact : Style
compact = record { item_sep = b',' ∷ []; key_sep = b':' ∷ []; ensure_ascii = true }

-- The same with `ensure_ascii=False`.
abbrev pub compact_unicode : Style
compact_unicode = record compact { ensure_ascii = false }

unfoldable mutual
  unfolding quote int_text

  pub dumps : Style → Json → List ℕ
  dumps style (str s) = quote style.ensure_ascii s
  dumps style (int n) = int_text n
  dumps style null = b'n' ∷ b'u' ∷ b'l' ∷ b'l' ∷ []
  dumps style (arr xs) = (b'[' ∷ dumps_items style [] xs) ++ b']' ∷ []
  dumps style (obj fs) = (b'{' ∷ dumps_fields style [] fs) ++ b'}' ∷ []

  -- `sep` stands in front of the first element.
  pub dumps_items : Style → List ℕ → Items → List ℕ
  dumps_items style sep nil = []
  dumps_items style sep (cons x xs) = sep ++ dumps style x ++ dumps_items style style.item_sep xs

  pub dumps_fields : Style → List ℕ → Fields → List ℕ
  dumps_fields style sep end = []
  dumps_fields style sep (field k v fs) =
      sep
      ++ quote style.ensure_ascii k
      ++ style.key_sep
      ++ dumps style v
      ++ dumps_fields style style.item_sep fs

-- `a < b` on texts, code point by code point.
text_lt : List ℕ → List ℕ → Bool
text_lt a [] = false
text_lt [] (d ∷ t) = true
text_lt (c ∷ s) (d ∷ t) = elim (compare c d) [
  | Ordering.lt ↦ true
  | Ordering.eq ↦ text_lt s t
  | Ordering.gt ↦ false
]

insert_field : List ℕ → Json → Fields → Fields
unfolding text_lt
insert_field k v end = field k v end
insert_field k v (field j w fs) = elim (text_lt j k) [
  | true ↦ field j w (insert_field k v fs)
  | false ↦ field k v (field j w fs)
]

-- `sort_keys=True`
unfoldable mutual
  unfolding insert_field

  pub sort_keys : Json → Json
  sort_keys (str s) = str s
  sort_keys (int n) = int n
  sort_keys null = null
  sort_keys (arr xs) = arr (sort_items xs)
  sort_keys (obj fs) = obj (sort_fields fs)

  pub sort_items : Items → Items
  sort_items nil = nil
  sort_items (cons x xs) = cons (sort_keys x) (sort_items xs)

  pub sort_fields : Fields → Fields
  sort_fields end = end
  sort_fields (field k v fs) = insert_field k (sort_keys v) (sort_fields fs)

-- {"a":-12,"b":["é",7]}
abbrev sample : Json
sample = obj (
    field (b'b' ∷ []) (arr (cons (str (233 ∷ [])) (cons (int (pos 7)) nil)))
      (field (b'a' ∷ []) (int (negsuc 11)) end))

dumps-sample :
    dumps compact (sort_keys sample)
    ≡ b'{' ∷ 34 ∷ b'a' ∷ 34 ∷ b':' ∷ b'-' ∷ b'1' ∷ b'2' ∷ b',' ∷ 34 ∷ b'b' ∷ 34 ∷ b':' ∷ b'[' ∷ 34
      ∷ b'\\' ∷ b'u' ∷ b'0' ∷ b'0' ∷ b'e' ∷ b'9' ∷ 34 ∷ b',' ∷ b'7' ∷ b']' ∷ b'}' ∷ []
unfolding dumps sort_keys
dumps-sample = refl
