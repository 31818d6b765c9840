-- ===== src/Crypto/RoundTrip.antt =====
-- What is written is read back: keys, and the signatures of tokens.
use project_hamilton.Base.{
  ℕ, ◌≡◌, ◌<◌, refl, Option, none, some, List, [], ◌∷◌, dec_lt, Text, length, All, arith, ◌∙◌, ap,
}
use project_hamilton.Base.Action.{Result, ok, raise}
use project_hamilton.Crypto.Base64.{b64encode, b64decode, b64decode-b64encode}
use project_hamilton.Crypto.Token.{
  Library, CryptoError, Token, build_payload, sign_bytes, verify_bytes, signed_token,
  create_signed_token, verify_parts, verify_signed_token, serialize_public_key, load_public_key,
  loaded_key, serialize_private_key, load_private_key, given, key_result,
}

module _ (lib : Library) where
  open lib use {PrivateKey, PublicKey}

  loaded :
      (raw : List ℕ)
      → length raw ≡ 32
      → b64decode (b64encode raw) ≡ some raw
      → load_public_key lib (b64encode raw) ≡ ok (lib.from_public_bytes raw)
  unfolding load_public_key
  loaded raw size read = ground arith

  -- A public key that is serialised loads as the same key, if the library gives 32 raw bytes for
  -- it, each below 256, and makes the key from them.
  pub load-serialize :
      (key : PublicKey)
      → length (lib.public_bytes key) ≡ 32
      → All (λ b. b < 256) (lib.public_bytes key)
      → lib.from_public_bytes (lib.public_bytes key) ≡ key
      → load_public_key lib (serialize_public_key lib key) ≡ ok key
  unfolding serialize_public_key
  load-serialize key size bytes made =
      loaded (lib.public_bytes key) size (b64decode-b64encode (lib.public_bytes key) bytes)
      ∙ ap ok made

  -- A private key that is serialised loads as the same key under the same password, if the library
  -- reads what it writes; a password has at least 8 characters.
  pub load-serialize_private :
      (key : PrivateKey) (password : Option Text) (t : Text)
      → ((p : Option Text) → lib.load_pem (lib.private_pem key p) p ≡ loaded_key key)
      → serialize_private_key lib key password ≡ ok t
      → load_private_key lib t password ≡ ok key
  unfolding serialize_private_key load_private_key given key_result
  load-serialize_private key none t reads h = let read = reads none in ground arith
  load-serialize_private key (some []) t reads h = absurd (ground arith)
  load-serialize_private key (some (c ∷ p)) t reads h =
      let read = reads (some (c ∷ p)) in
      elim (dec_lt (length (c ∷ p)) 8) [
        | yes short ↦ absurd (ground arith)
        | no long ↦ ground arith
      ]

  verify-sign :
      (key : PrivateKey) (trusted : PublicKey) (message : List ℕ)
      → All (λ b. b < 256) (lib.sign key message)
      → verify_bytes lib trusted message (sign_bytes lib key message)
        ≡ lib.verify trusted message (lib.sign key message)
  unfolding verify_bytes sign_bytes
  verify-sign key trusted message bytes =
      let read = b64decode-b64encode (lib.sign key message) bytes in ground arith

  verify-signed :
      (key : PrivateKey) (trusted : PublicKey) (now : Text) (r : Result CryptoError Text)
      (token : Token)
      → ((message : List ℕ) → All (λ b. b < 256) (lib.sign key message))
      → signed_token lib key now r ≡ ok token
      → (payload : Text) × (r ≡ ok payload)
        × (token.payload ≡ some payload)
        × (verify_signed_token lib token trusted
            ≡ lib.verify trusted (lib.utf8 payload) (lib.sign key (lib.utf8 payload)))
  unfolding signed_token verify_signed_token verify_parts
  verify-signed key trusted now (raise e) token bytes h = absurd (ground arith)
  verify-signed key trusted now (ok payload) token bytes h =
      let made : token.payload ≡ some payload = ground arith in
      let signed : token.signature ≡ some (sign_bytes lib key (lib.utf8 payload)) = ground arith in
      (
        payload,
        refl,
        made,
        rw (made, signed) (verify-sign key trusted (lib.utf8 payload) (bytes (lib.utf8 payload))),
      )

  -- A token that is created carries its payload, and verifies under a key exactly if the library
  -- accepts the signature of that payload under that key, provided that signatures are bytes.
  pub verify-create :
      (key : PrivateKey) (trusted : PublicKey) (fields : List (Text × Text)) (now : Text)
      (token : Token)
      → ((message : List ℕ) → All (λ b. b < 256) (lib.sign key message))
      → create_signed_token lib key fields now ≡ ok token
      → (payload : Text) × (build_payload lib fields ≡ ok payload)
        × (token.payload ≡ some payload)
        × (verify_signed_token lib token trusted
            ≡ lib.verify trusted (lib.utf8 payload) (lib.sign key (lib.utf8 payload)))
  unfolding create_signed_token
  verify-create key trusted fields now token bytes h =
      verify-signed key trusted now (build_payload lib fields) token bytes h
