-- ===== src/Hamilton/Valid.antt =====
-- What a validated request is.
use project_hamilton.Base.{
  ℕ, suc, ◌+◌, ◌*◌, ◌/◌, ◌^◌, ◌≤◌, ◌<◌, ◌≡◌, refl, subst, true, Option, none, some, List, [], ◌∷◌,
  Text, text_dec, length, contains, arith, ⊤, dec_lt, dec_le, ℕ_discrete, Option-cases, inl, inr,
}
use project_hamilton.Base.Money.{limit}
use project_hamilton.Base.Decimal.{Decimal, pow-pos}
use project_hamilton.Base.Action.{ok, pure, >>=-ok, ◌>>=◌, ◌>>◌}
use project_hamilton.Hamilton.Request.{TxOut, TxRequest, from_hex}
use project_hamilton.Hamilton.Validate.{
  SentNumber, positive, negative, infinite, not_a_number, round_down, to_decimal, validate_hex,
  normed, is_allowed, allowed_currencies, validate_currency, max_utxo_list, check_size, RawOut,
  id_or, make_out, check_out, check_outs, RawTx, make_tx, validate_tx,
}

-- The cents of an amount above 0, cut off after them, of at most 28 digits.
pub record IsCents (sent : Option SentNumber) (cents : ℕ) : Type 0 where
  pub number : Decimal
  pub read : sent ≡ some (positive number)
  pub above : 0 < number.digits
  pub floor : cents * 10 ^ number.places ≤ number.digits * 100
  pub next : number.digits * 100 < (cents + 1) * 10 ^ number.places
  pub small : cents < limit

-- A text of `n` characters that `bytes.fromhex` reads.
abbrev pub IsHex : ℕ → Text → Type 0
IsHex n val = (length val ≡ n) × ((bytes : List ℕ) × (from_hex val ≡ some bytes))

quotient_near : (x u : ℕ) → 0 < u → (x / u * u ≤ x) × (x < (x / u + 1) * u)
quotient_near x u h = grind arith

to_decimal-IsCents :
    (sent : Option SentNumber) (cents : ℕ) (s : ⊤)
    → to_decimal sent tt ≡ (ok cents, s)
    → IsCents sent cents
unfolding to_decimal round_down
to_decimal-IsCents none cents s h = absurd cc
to_decimal-IsCents (some (positive d)) cents s h =
    let p = pow-pos d.places in
    elim (dec_lt 0 d.digits) [
      | no n ↦ absurd (ground arith)
      | yes above ↦ elim (dec_lt (round_down d) limit) [
        | no n ↦ absurd (ground arith)
        | yes small ↦
            let (floor, next) = quotient_near (d.digits * 100) (10 ^ d.places) p in
            let same : round_down d ≡ cents = ground arith in
            record {
              number = d;
              read = refl;
              above = above;
              floor = ground (arith, floor, same);
              next = ground (arith, next, same);
              small = ground (arith, small, same);
            }
      ]
    ]
to_decimal-IsCents (some (negative d)) cents s h = absurd cc
to_decimal-IsCents (some infinite) cents s h = absurd cc
to_decimal-IsCents (some not_a_number) cents s h = absurd cc

validate_hex-IsHex :
    (val : Text) (n : ℕ) (u s : ⊤) → validate_hex val n tt ≡ (ok u, s) → IsHex n val
unfolding validate_hex
validate_hex-IsHex val n u s h = elim (ℕ_discrete (length val) n) [
  | no ne ↦ absurd (ground arith)
  | yes e ↦ elim (Option-cases (from_hex val)) [
    | inl o ↦ absurd (ground arith)
    | inr (bytes, o) ↦ (e, (bytes, o))
  ]
]

validate_currency-IsAllowed :
    (v c : Text) (s : ⊤)
    → validate_currency v tt ≡ (ok c, s)
    → (c ≡ normed v) × (contains text_dec c allowed_currencies ≡ true)
unfolding validate_currency is_allowed
validate_currency-IsAllowed v c s h = ground arith

check_size-IsSized : (n : ℕ) (u s : ⊤) → check_size n tt ≡ (ok u, s) → (0 < n) × (n ≤ max_utxo_list)
unfolding check_size
check_size-IsSized n u s h = elim (dec_lt 0 n) [
  | no p ↦ absurd (ground arith)
  | yes p ↦ elim (dec_le n max_utxo_list) [ no q ↦ absurd (ground arith) | yes q ↦ (p, q) ]
]

-- An output and what was sent: the amount in cents, and the key.
pub record IsOut (fresh : Text) (raw : RawOut) (o : TxOut) : Type 0 where
  pub token_id : o.token_id ≡ id_or fresh raw.token_id
  pub amount : IsCents raw.amount o.amount
  pub same_key : o.receiver_public_key ≡ raw.receiver_public_key
  pub key : IsHex 64 o.receiver_public_key

-- Outputs and what was sent, place by place.
abbrev pub AreOuts : (ℕ → Text) → ℕ → List RawOut → List TxOut → Type 0
AreOuts fresh k [] [] = ⊤
AreOuts fresh k [] (o ∷ os) = ⊥
AreOuts fresh k (r ∷ rs) [] = ⊥
AreOuts fresh k (r ∷ rs) (o ∷ os) = IsOut (fresh k) r o × AreOuts fresh (suc k) rs os

check_out-IsOut :
    (fresh : Text) (raw : RawOut) (o : TxOut) (s : ⊤)
    → check_out fresh raw tt ≡ (ok o, s)
    → IsOut fresh raw o
unfolding check_out make_out
check_out-IsOut fresh raw o s h =
    let val = raw.receiver_public_key in
    let (cents, _, first, h₁) =
      >>=-ok (to_decimal raw.amount) (λ n. validate_hex val 64 >> pure (make_out fresh raw n)) h in
    let (u, _, second, h₂) =
      >>=-ok (validate_hex val 64) (λ _. pure (make_out fresh raw cents)) h₁ in
    let made : make_out fresh raw cents ≡ o = cc in
    let here : IsOut fresh raw (make_out fresh raw cents) = record {
      token_id = refl;
      amount = to_decimal-IsCents raw.amount cents tt first;
      same_key = refl;
      key = validate_hex-IsHex val 64 u tt second;
    } in
    subst (λ x. IsOut fresh raw x) made here

check_outs-AreOuts :
    (fresh : ℕ → Text) (k : ℕ) (raws : List RawOut) (os : List TxOut) (s : ⊤)
    → check_outs fresh k raws tt ≡ (ok os, s)
    → AreOuts fresh k raws os
unfolding check_outs
check_outs-AreOuts fresh k [] os s h =
    let same : [] ≡ os = cc in subst (λ x. AreOuts fresh k [] x) same tt
check_outs-AreOuts fresh k (r ∷ rs) os s h =
    let (o, _, first, h₁) =
      >>=-ok (check_out (fresh k) r) (λ o. check_outs fresh (suc k) rs >>= λ rest. pure (o ∷ rest))
        h in
    let (rest, _, second, h₂) = >>=-ok (check_outs fresh (suc k) rs) (λ rest. pure (o ∷ rest)) h₁ in
    let same : o ∷ rest ≡ os = cc in
    subst (λ x. AreOuts fresh k (r ∷ rs) x) same
      (check_out-IsOut (fresh k) r o tt first, check_outs-AreOuts fresh (suc k) rs rest tt second)

-- A transfer that the validators let through, and what was sent.
pub record IsValidTx (fresh : ℕ → Text) (raw : RawTx) (tx : TxRequest) : Type 0 where
  pub currency : tx.currency ≡ normed raw.currency
  pub allowed : contains text_dec tx.currency allowed_currencies ≡ true
  pub inputs : tx.inputs ≡ raw.inputs
  pub some_inputs : (0 < length tx.inputs) × (length tx.inputs ≤ max_utxo_list)
  pub some_outputs : (0 < length raw.outputs) × (length raw.outputs ≤ max_utxo_list)
  pub outputs : AreOuts fresh 0 raw.outputs tx.outputs
  pub signer : IsHex 64 tx.signer_public_key
  pub signature : IsHex 128 tx.signature

-- A transfer that the validators let through has an allowed currency, which is the one sent without
-- blanks around it and in capitals, the inputs that were sent, 1 to 100 inputs and outputs, keys and
-- a signature of the right length in hexadecimal, and for each output that was sent one with its key
-- and its amount, which is above 0, has at most 28 digits, and is cut off after the cents.
pub validate_tx-IsValidTx :
    (fresh : ℕ → Text) (raw : RawTx) (tx : TxRequest) (s : ⊤)
    → validate_tx fresh raw tt ≡ (ok tx, s)
    → IsValidTx fresh raw tx
unfolding validate_tx make_tx
validate_tx-IsValidTx fresh raw tx s h =
    let signed =
      λ (c : Text) (os : List TxOut). validate_hex raw.signature 128 >> pure (make_tx raw c os) in
    let keyed =
      λ (c : Text) (os : List TxOut). validate_hex raw.signer_public_key 64 >> signed c os in
    let outs = λ (c : Text). check_outs fresh 0 raw.outputs >>= keyed c in
    let sized = λ (c : Text). check_size (length raw.outputs) >> outs c in
    let (c, _, at₁, h₁) =
      >>=-ok (validate_currency raw.currency) (λ c. check_size (length raw.inputs) >> sized c) h in
    let (u₂, _, at₂, h₂) = >>=-ok (check_size (length raw.inputs)) (λ _. sized c) h₁ in
    let (u₃, _, at₃, h₃) = >>=-ok (check_size (length raw.outputs)) (λ _. outs c) h₂ in
    let (os, _, at₄, h₄) = >>=-ok (check_outs fresh 0 raw.outputs) (keyed c) h₃ in
    let (u₅, _, at₅, h₅) = >>=-ok (validate_hex raw.signer_public_key 64) (λ _. signed c os) h₄ in
    let (u₆, _, at₆, h₆) =
      >>=-ok (validate_hex raw.signature 128) (λ _. pure (make_tx raw c os)) h₅ in
    let (stripped, allowed) = validate_currency-IsAllowed raw.currency c tt at₁ in
    let same : make_tx raw c os ≡ tx = cc in
    let made : IsValidTx fresh raw (make_tx raw c os) = record {
      currency = stripped;
      allowed = allowed;
      inputs = refl;
      some_inputs = check_size-IsSized (length raw.inputs) u₂ tt at₂;
      some_outputs = check_size-IsSized (length raw.outputs) u₃ tt at₃;
      outputs = check_outs-AreOuts fresh 0 raw.outputs os tt at₄;
      signer = validate_hex-IsHex raw.signer_public_key 64 u₅ tt at₅;
      signature = validate_hex-IsHex raw.signature 128 u₆ tt at₆;
    } in
    subst (λ x. IsValidTx fresh raw x) same made
