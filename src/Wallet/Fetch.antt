-- ===== src/Wallet/Fetch.antt =====
-- `_validate_endpoint` and `_safe_fetch_json`: what is fetched and what is refused. What `urlparse` makes of an address and what the node
-- answers are arguments.
use project_hamilton.Base.{
  ℕ, ◌≤◌, ◌<◌, ◌+◌, ◌≡◌, refl, ap, sym, subst, Bool, true, false, Option, none, some, List, [], ◌∷◌,
  ◌++◌, Text, text, text_dec, contains, length, dec_lt, arith, ⊤, ◌⊎◌, inl, inr, Bool-cases,
  Option-cases,
}
use mathlib.Core.List.{append_assoc}
use project_hamilton.Base.Action.Atomic.{IsReadonly}
use project_hamilton.Base.Action.{Action, ok, raise, pure, throw, refuse, or_throw, ◌>>=◌, ◌>>◌}

-- The exceptions of the wallet's commands that have to do with keys and the node.
pub data CliError : Type 0 where
  insecure_endpoint response_too_large bad_status not_json malformed_utxo : CliError
  not_initialized exited crypto_error payment_error type_error os_error : CliError

abbrev pub max_response_size : ℕ
max_response_size = 5000000

-- The parts of an address that are read.
pub record Url : Type 0 where
  pub scheme : Text
  pub hostname : Option Text

abbrev pub local_hosts : List Text
local_hosts = text "localhost" ∷ text "127.0.0.1" ∷ []

unfoldable pub is_local : Option Text → Bool
is_local none = false
is_local (some host) = contains text_dec host local_hosts

-- The address may be used.
abbrev pub IsSecure : Url → Type 0
IsSecure url = (url.scheme ≡ text "https") ⊎ (is_local url.hostname ≡ true)

-- `_validate_endpoint`
unfoldable pub validate_endpoint : {S : Type 0} → Url → Action S CliError ⊤
validate_endpoint url = elim (text_dec url.scheme (text "https")) [
  | yes _ ↦ pure tt
  | no _ ↦ elim (is_local url.hostname) [ true ↦ pure tt | false ↦ throw insecure_endpoint ]
]

-- The loop over the chunks; `content` is what has come.
unfoldable pub read_chunks : {S : Type 0} → List ℕ → List (List ℕ) → Action S CliError (List ℕ)
read_chunks content [] = pure content
read_chunks content (chunk ∷ chunks) = do
  refuse (dec_lt max_response_size (length (content ++ chunk))) response_too_large
  read_chunks (content ++ chunk) chunks

-- What the node answers: the status, and the chunks of the body.
pub record Answer : Type 0 where
  pub status : ℕ
  pub chunks : List (List ℕ)

-- `raise_for_status`, which raises for a status from 400 to 599.
unfoldable pub check_status : {S : Type 0} → ℕ → Action S CliError ⊤
check_status status = elim (dec_lt status 400) [
  | yes _ ↦ pure tt
  | no _ ↦ elim (dec_lt status 600) [ yes _ ↦ throw bad_status | no _ ↦ pure tt ]
]

-- `_safe_fetch_json`, with `json.loads`.
unfoldable pub safe_fetch_json :
    {S A : Type 0} → (List ℕ → Option A) → Url → Answer → Action S CliError A
safe_fetch_json loads url answer = do
  validate_endpoint url
  check_status answer.status
  content ← read_chunks [] answer.chunks
  or_throw (loads content) not_json

-- The chunks, one after another.
abbrev pub body_of : List (List ℕ) → List ℕ
body_of [] = []
body_of (chunk ∷ chunks) = chunk ++ body_of chunks

length-append : (s t : List ℕ) → length (s ++ t) ≡ length s + length t
length-append [] t = omega arith
length-append (c ∷ s) t = let ih = length-append s t in omega arith

append-nil : (s : List ℕ) → s ++ [] ≡ s
append-nil [] = refl
append-nil (c ∷ s) = ap (λ t. c ∷ t) (append-nil s)

-- The statuses for which nothing is raised.
abbrev pub IsPassed : ℕ → Type 0
IsPassed status = (status < 400) ⊎ (600 ≤ status)

-- What must hold for a response to be read.
pub record IsFetched {A : Type 0} (loads : List ℕ → Option A) (url : Url) (answer : Answer) (a : A)
    : Type 0 where
  pub secure : IsSecure url
  pub status : IsPassed answer.status
  pub small : length (body_of answer.chunks) ≤ max_response_size
  pub read : loads (body_of answer.chunks) ≡ some a

module _ {S : Type 0} (s : S) where
  -- The chunks are read if all together are small enough.
  abbrev ReadsAs : List ℕ → List (List ℕ) → List ℕ → Type 0
  ReadsAs content chunks whole =
      ((length whole ≤ max_response_size) × (read_chunks content chunks s ≡ (ok whole, s)))
      ⊎ ((max_response_size < length whole)
          × (read_chunks content chunks s ≡ (raise response_too_large, s)))

  read_chunks_cases :
      (content : List ℕ) (chunks : List (List ℕ))
      → length content ≤ max_response_size
      → ReadsAs content chunks (content ++ body_of chunks)
  unfolding read_chunks
  read_chunks_cases content [] small =
      subst (λ w. ReadsAs content [] w) (sym (append-nil content)) (inl (small, refl))
  read_chunks_cases content (chunk ∷ chunks) small =
      let l = length-append (content ++ chunk) (body_of chunks) in
      subst (λ w. ReadsAs content (chunk ∷ chunks) w) (append_assoc content chunk (body_of chunks))
        (elim (dec_lt max_response_size (length (content ++ chunk))) [
          | yes large ↦ inr (omega arith, ground arith)
          | no fits ↦ elim (read_chunks_cases (content ++ chunk) chunks (omega arith)) [
            | inl (a, b) ↦ inl (a, ground arith)
            | inr (a, b) ↦ inr (a, ground arith)
          ]
        ])

  module _ {A : Type 0} (loads : List ℕ → Option A) (url : Url) (answer : Answer) where
    validate_endpoint_cases :
        (IsSecure url × (validate_endpoint url s ≡ (ok tt, s)))
        ⊎ ((¬ IsSecure url) × (validate_endpoint url s ≡ (raise insecure_endpoint, s)))
    unfolding validate_endpoint
    validate_endpoint_cases = elim (text_dec url.scheme (text "https")) [
      | yes e ↦ inl (inl e, ground arith)
      | no ne ↦ elim (Bool-cases (is_local url.hostname)) [
        | inl l ↦ inl (inr l, ground arith)
        | inr l ↦ inr (λ h. elim h [ inl e ↦ ne e | inr t ↦ absurd cc ], ground arith)
      ]
    ]

    check_status_cases :
        (status : ℕ)
        → (IsPassed status × (check_status status s ≡ (ok tt, s)))
          ⊎ ((¬ IsPassed status) × (check_status status s ≡ (raise bad_status, s)))
    unfolding check_status
    check_status_cases status = elim (dec_lt status 400) [
      | yes low ↦ inl (inl low, ground arith)
      | no high ↦ elim (dec_lt status 600) [
        | yes error ↦ inr (
          (λ h. elim h [ inl a ↦ absurd (omega arith) | inr b ↦ absurd (omega arith) ]),
          ground arith,
        )
        | no other ↦ inl (inr (omega arith), ground arith)
      ]
    ]

    -- A response is read if the address is https or of this machine, the status is below 400 or at
    -- least 600, all chunks together have at most 5,000,000 bytes, and they are JSON; otherwise the
    -- call raises. The test after each chunk is thus one on the whole.
    pub fetch_decided :
        ((a : A) × IsFetched loads url answer a × (safe_fetch_json loads url answer s ≡ (ok a, s)))
        ⊎ ((e : CliError) × (¬ ((a : A) × IsFetched loads url answer a))
            × (safe_fetch_json loads url answer s ≡ (raise e, s)))
    unfolding safe_fetch_json
    fetch_decided = elim validate_endpoint_cases [
      | inr (ns, run) ↦ inr (insecure_endpoint, (λ p. ns p.1.secure), ground arith)
      | inl (secure, run) ↦ elim (check_status_cases answer.status) [
        | inr (off, failed) ↦ inr (bad_status, (λ p. off p.1.status), ground arith)
        | inl (on, passed) ↦ elim (read_chunks_cases [] answer.chunks (omega arith)) [
          | inr (large, run') ↦
              inr (response_too_large, (λ p. let small = p.1.small in omega arith), ground arith)
          | inl (small, run') ↦ elim (Option-cases (loads (body_of answer.chunks))) [
            | inl missing ↦ inr (not_json, (λ p. let read = p.1.read in absurd cc), ground arith)
            | inr (a, read) ↦ inl (
              a,
              record { secure = secure; status = on; small = small; read = read },
              ground arith,
            )
          ]
        ]
      ]
    ]

pub fetch-IsReadonly :
    {S A : Type 0} (loads : List ℕ → Option A) (url : Url) (answer : Answer)
    → IsReadonly {S = S} (safe_fetch_json loads url answer)
fetch-IsReadonly loads url answer = record {
  at = λ s. elim (fetch_decided s loads url answer) [
    | inl (a, fetched, run) ↦ ap (λ p. p.1) run
    | inr (e, refused, run) ↦ ap (λ p. p.1) run
  ];
}
