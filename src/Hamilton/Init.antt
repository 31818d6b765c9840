-- ===== src/Hamilton/Init.antt =====
-- What the service does when it starts, and its two other requests.
use project_hamilton.Base.{
  ℕ, ◌≡◌, ◌≢◌, refl, ap, sym, ◌∙◌, Option, none, some, List, [], ◌∷◌, Text, text, text_dec, ite,
  arith, ⊤,
}
use project_hamilton.Base.Action.{http, require}
use project_hamilton.Hamilton.State.{Db, Client, Role, issuer, processor, Act, forbidden}
use project_hamilton.Hamilton.Idem.{gc_stale_idem}
use project_hamilton.Hamilton.Access.{find_client}

unfoldable pub delete_client : Text → List Client → List Client
delete_client cid [] = []
delete_client cid (c ∷ cs) =
    ite (text_dec c.client_id cid) (delete_client cid cs) (c ∷ delete_client cid cs)

-- `INSERT OR REPLACE INTO clients`
unfoldable pub replace_client : Client → List Client → List Client
replace_client c cs = c ∷ delete_client c.client_id cs

-- `existing["hmac_key"] if existing else secrets.token_hex(32)`
unfoldable pub key_or : Text → Option Client → Text
key_or fresh none = fresh
key_or fresh (some c) = c.hmac_key

-- One round of the loop; the secret of the client is not read.
unfoldable pub seed_client : Text → Text → Role → Db → Db
seed_client fresh cid role db =
    let key = key_or fresh (find_client cid db.clients) in
    record db {
      clients = replace_client (record { client_id = cid; hmac_key = key; role = role }) db.clients;
    }

-- `init_db`, on the tables as it finds or creates them.
unfoldable pub init_db : ℕ → Text → Text → Db → Db
init_db now key₁ key₂ db = gc_stale_idem now (
    seed_client key₂ (text "wallet-service") processor
      (seed_client key₁ (text "liquidity-bridge") issuer db))

-- `health`
unfoldable pub health : Text → Text → Act ⊤
health health_token x_health_token =
    require (text_dec health_token x_health_token) (http 403 forbidden)

find-delete :
    (cid other : Text) (cs : List Client)
    → cid ≢ other
    → find_client cid (delete_client other cs) ≡ find_client cid cs
unfolding find_client delete_client
find-delete cid other [] ne = refl
find-delete cid other (c ∷ cs) ne = let ih = find-delete cid other cs ne in ground arith

-- The clients of a database keep their keys in a later one.
abbrev KeepsKeys : Db → Db → Type 0
KeepsKeys db db' =
    (cid : Text) (c : Client)
    → find_client cid db.clients ≡ some c
    → (c' : Client) × (find_client cid db'.clients ≡ some c') × (c'.hmac_key ≡ c.hmac_key)

seed_client-KeepsKeys :
    (fresh id : Text) (role : Role) (db : Db) → KeepsKeys db (seed_client fresh id role db)
unfolding seed_client replace_client find_client key_or
seed_client-KeepsKeys fresh id role db cid c h = elim (text_dec id cid) [
  | yes e ↦
      let key = key_or fresh (find_client id db.clients) in
      let known : find_client id db.clients ≡ some c = ap (λ i. find_client i db.clients) e ∙ h in
      (
        record { client_id = id; hmac_key = key; role = role },
        ground arith,
        ap (key_or fresh) known,
      )
  | no ne ↦ let same = find-delete cid id db.clients (λ e. ne (sym e)) in (c, ground arith, refl)
]

-- A start of the service keeps the key of every client that is there.
pub init_db-KeepsKeys :
    (now : ℕ) (key₁ key₂ : Text) (db : Db) → KeepsKeys db (init_db now key₁ key₂ db)
unfolding init_db gc_stale_idem
init_db-KeepsKeys now key₁ key₂ db cid c h =
    let bridge = text "liquidity-bridge" in
    let wallet = text "wallet-service" in
    let db₁ = seed_client key₁ bridge issuer db in
    let (c₁, h₁, same₁) = seed_client-KeepsKeys key₁ bridge issuer db cid c h in
    let (c₂, h₂, same₂) = seed_client-KeepsKeys key₂ wallet processor db₁ cid c₁ h₁ in
    (c₂, h₂, same₂ ∙ same₁)
