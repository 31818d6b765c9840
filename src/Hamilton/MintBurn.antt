-- ===== src/Hamilton/MintBurn.antt =====
-- The ledger parts of `mint` and `burn`, when they return.
use project_hamilton.Base.{
  ℕ, ◌+◌, ◌≡◌, ap, refl, none, some, List, [], ◌∷◌, Text, arith, All, length, text_dec, subst,
}
use project_hamilton.Base.Json.{dumps, spaced}
use project_hamilton.Base.Action.{Result, ok, ◌>>◌, >>=-ok}
use project_hamilton.Hamilton.State.{
  Db, Failure, Utxo, unspent, burned, AuditAction, Body, Reply, find_utxo, set_status, insert_utxo,
  mark,
}
use project_hamilton.Hamilton.Request.{Env, MintReq, BurnReq, mint_payload, burn_signing_data}
use project_hamilton.Hamilton.Audit.{audit_insert}
use project_hamilton.Hamilton.Handlers.{
  unspent_or_throw, fetch_unspent, mint_token, burn_all, burn_tokens,
}
use project_hamilton.Hamilton.Table.{
  IsUnique, Grows, Grows-refl, Grows-trans, supply, share, supply-set_status, set_status-IsUnique,
  set_status-Grows, find_utxo-set_status_self, find_utxo-set_status_ne,
}
use project_hamilton.Hamilton.Spending.{OnlyUtxos}
use project_hamilton.Hamilton.Transfer.{Logged, audit_insert-ok}

-- The token that a mint creates.
abbrev pub minted_utxo : MintReq → Text → Utxo
minted_utxo body tid = record {
  token_id = tid;
  amount = body.amount;
  currency = body.currency;
  owner_public_key = body.public_key;
  status = unspent;
}

abbrev pub mint_text : MintReq → Text
mint_text body = dumps spaced (mint_payload body)

abbrev pub mint_reply : Text → Reply
mint_reply tid = record { status_code = 200; body = Body.minted tid }

insert_utxo-ok :
    (u : Utxo) (db db' : Db) (r : Unit {0})
    → insert_utxo u db ≡ (ok r, db')
    → (find_utxo u.token_id db.utxos ≡ none) × (db' ≡ record db { utxos = u ∷ db.utxos })
unfolding insert_utxo
insert_utxo-ok u db db' r h = ground arith

-- A mint that returns adds one token that was not there, and one audit row.
pub mint_token-ok :
    (env : Env) (body : MintReq) (tid : Text) (db db' : Db) (reply : Reply)
    → mint_token env body tid db ≡ (ok reply, db')
    → (find_utxo tid db.utxos ≡ none)
      × Logged env tid AuditAction.mint
          (mint_text body)
          (record db { utxos = minted_utxo body tid ∷ db.utxos })
          db'
      × (reply ≡ mint_reply tid)
unfolding mint_token
mint_token-ok env body tid db db' reply h =
    let (r, db₁, inserted, h₁) =
      >>=-ok (insert_utxo (minted_utxo body tid))
        (λ _.
          audit_insert env tid AuditAction.mint (mint_text body) >> λ s. (ok (mint_reply tid), s))
        h in
    let (absent, e₁) = insert_utxo-ok (minted_utxo body tid) db db₁ r inserted in
    let (u, db₂, logged, h₂) =
      >>=-ok (audit_insert env tid AuditAction.mint (mint_text body))
        (λ _ s. (ok (mint_reply tid), s)) h₁ in
    let e₂ : db₂ ≡ db' = ap (λ (p : Result Failure Reply × Db). p.1) h₂ in
    let l = audit_insert-ok env tid AuditAction.mint (mint_text body) db₁ db₂ u logged in
    let l₁ = subst (λ d. Logged env tid AuditAction.mint (mint_text body) d db₂) e₁ l in
    (
      absent,
      subst
          (λ d.
            Logged env tid AuditAction.mint (mint_text body)
              (record db { utxos = minted_utxo body tid ∷ db.utxos }) d)
          e₂ l₁,
      ground arith,
    )

-- The token stands in the table and may be burned by the request.
pub record Burnable (body : BurnReq) (tid : Text) (us : List Utxo) (u : Utxo) : Type 0 where
  pub found : find_utxo tid us ≡ some u
  pub fresh : u.status ≡ unspent
  pub owned : u.owner_public_key ≡ body.owner_public_key

abbrev after_burn : Text → Db → Db
after_burn tid db = record db { utxos = set_status tid burned db.utxos }

burn_all-step :
    (body : BurnReq) (tid : Text) (tids : List Text) (db db' : Db) (r : Unit {0})
    → burn_all body (tid ∷ tids) db ≡ (ok r, db')
    → (u : Utxo) × Burnable body tid db.utxos u
      × (burn_all body tids (after_burn tid db) ≡ (ok r, db'))
unfolding burn_all fetch_unspent unspent_or_throw mark
burn_all-step body tid tids db db' r h = ground arith

-- The value of one currency in the tokens of a list, as they stand in the table.
unfoldable pub token_value : Text → List Utxo → List Text → ℕ
token_value c us [] = 0
token_value c us (tid ∷ tids) = elim (find_utxo tid us) [
  | none ↦ token_value c us tids
  | some u ↦ share c u.currency u.amount + token_value c us tids
]

-- The token of a burn, as it stands afterwards.
unfoldable pub Burned : BurnReq → List Utxo → List Utxo → Text → Type 0
Burned body us vs tid =
    (u : Utxo) × Burnable body tid us u × (find_utxo tid vs ≡ some (record u { status = burned }))

-- What the loop of a burn does to the tables.
pub record Burns (body : BurnReq) (tids : List Text) (db db' : Db) : Type 0 where
  pub only : OnlyUtxos db db'
  pub unique : IsUnique db.utxos → IsUnique db'.utxos
  pub grows : Grows db.utxos db'.utxos
  pub retired : All (Burned body db.utxos db'.utxos) tids
  pub removed :
      IsUnique db.utxos
      → (c : Text) → supply c db'.utxos + token_value c db.utxos tids ≡ supply c db.utxos

burned_stays :
    (tid : Text) (u : Utxo) (us vs : List Utxo)
    → find_utxo tid us ≡ some (record u { status = burned })
    → Grows us vs
    → find_utxo tid vs ≡ some (record u { status = burned })
burned_stays tid u us vs found g =
    let (v, found', old) = g tid (record u { status = burned }) found in ground arith

-- A token that may be burned after another was burned could be burned before, and is another one.
Burnable-before :
    (body : BurnReq) (tid j : Text) (us : List Utxo) (u v : Utxo)
    → find_utxo tid us ≡ some u
    → Burnable body j (set_status tid burned us) v
    → Burnable body j us v
Burnable-before body tid j us u v found able = elim (text_dec j tid) [
  | yes e ↦
      absurd
        (ground (arith, find_utxo-set_status_self tid burned u us found, able.found, able.fresh))
  | no ne ↦ record {
    found = rw (← find_utxo-set_status_ne tid burned j us ne) able.found;
    fresh = able.fresh;
    owned = able.owned;
  }
]

Burned-before :
    (body : BurnReq) (tid : Text) (us vs : List Utxo) (u : Utxo) (tids : List Text)
    → find_utxo tid us ≡ some u
    → All (Burned body (set_status tid burned us) vs) tids
    → All (Burned body us vs) tids
unfolding Burned
Burned-before body tid us vs u [] found all = tt
Burned-before body tid us vs u (j ∷ tids) found ((v, able, gone), all) = (
  (v, Burnable-before body tid j us u v found able, gone),
  Burned-before body tid us vs u tids found all,
)

-- The status of a token does not count for its value.
token_value-set_status :
    (c tid : Text) (us : List Utxo) (u : Utxo) (tids : List Text)
    → find_utxo tid us ≡ some u
    → token_value c (set_status tid burned us) tids ≡ token_value c us tids
unfolding token_value
token_value-set_status c tid us u [] found = refl
token_value-set_status c tid us u (j ∷ tids) found = elim (text_dec j tid) [
  | yes e ↦ ground (
    arith,
    token_value-set_status c tid us u tids found,
    find_utxo-set_status_self tid burned u us found,
  )
  | no ne ↦
      rw (find_utxo-set_status_ne tid burned j us ne, token_value)
        (ground (arith, token_value-set_status c tid us u tids found))
]

module _ (body : BurnReq) where
  burn_all-none :
      (db db' : Db) (r : Unit {0}) → burn_all body [] db ≡ (ok r, db') → Burns body [] db db'
  unfolding burn_all token_value
  burn_all-none db db' r h =
      let e : db ≡ db' = ground arith in
      rw (← e) (record {
        only = record { clients = refl; audit = refl; idem = refl };
        unique = λ uniq. uniq;
        grows = Grows-refl db.utxos;
        retired = tt;
        removed = λ uniq c. omega arith;
      })

  -- The loop retires every token of the list, and takes exactly their value out of the supply.
  pub burn_all-Burns :
      (tids : List Text) (db db' : Db) (r : Unit {0})
      → burn_all body tids db ≡ (ok r, db')
      → Burns body tids db db'
  unfolding token_value Burned
  burn_all-Burns [] db db' r h = burn_all-none db db' r h
  burn_all-Burns (tid ∷ tids) db db' r h =
      let (u, able, rest) = burn_all-step body tid tids db db' r h in
      let us = db.utxos in
      let us₁ = set_status tid burned us in
      let b = burn_all-Burns tids (after_burn tid db) db' r rest in
      record {
        only = record { clients = b.only.clients; audit = b.only.audit; idem = b.only.idem };
        unique = λ uniq. b.unique (set_status-IsUnique tid burned us uniq);
        grows =
            Grows-trans us us₁ db'.utxos (set_status-Grows tid burned u us able.found able.fresh)
              b.grows;
        retired = (
          (
            u,
            able,
            burned_stays tid u us₁ db'.utxos (find_utxo-set_status_self tid burned u us able.found)
                b.grows,
          ),
          Burned-before body tid us db'.utxos u tids able.found b.retired,
        );
        removed = λ uniq c.
            rw (able.found, token_value)
              (omega (
                arith,
                supply-set_status c tid burned u us (λ e. cc) uniq able.found able.fresh,
                b.removed (set_status-IsUnique tid burned us uniq) c,
                token_value-set_status c tid us u tids able.found,
              ));
      }

abbrev pub burn_text : BurnReq → Text
burn_text body = dumps spaced (burn_signing_data body)

abbrev pub burn_reply : BurnReq → Reply
burn_reply body = record { status_code = 200; body = Body.burned_count (length body.token_ids) }

-- A burn that returns retires its tokens and appends one audit row.
pub burn_tokens-ok :
    (env : Env) (body : BurnReq) (audit_id : Text) (db db' : Db) (reply : Reply)
    → burn_tokens env body audit_id db ≡ (ok reply, db')
    → (db₁ : Db) × Burns body body.token_ids db db₁
      × Logged env audit_id AuditAction.burn (burn_text body) db₁ db'
      × (reply ≡ burn_reply body)
unfolding burn_tokens
burn_tokens-ok env body audit_id db db' reply h =
    let (r, db₁, burnt, h₁) =
      >>=-ok (burn_all body body.token_ids)
        (λ _. audit_insert env audit_id AuditAction.burn (burn_text body) >> λ s.
          (ok (burn_reply body), s))
        h in
    let (u, db₂, logged, h₂) =
      >>=-ok (audit_insert env audit_id AuditAction.burn (burn_text body))
        (λ _ s. (ok (burn_reply body), s)) h₁ in
    let e : db₂ ≡ db' = ap (λ (p : Result Failure Reply × Db). p.1) h₂ in
    let l = audit_insert-ok env audit_id AuditAction.burn (burn_text body) db₁ db₂ u logged in
    (
      db₁,
      burn_all-Burns body body.token_ids db db₁ r burnt,
      subst (λ d. Logged env audit_id AuditAction.burn (burn_text body) db₁ d) e l,
      ground arith,
    )
