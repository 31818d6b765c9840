-- ===== src/Wallet/Synced.antt =====
-- What `sync_utxos` does to the files.
use project_hamilton.Base.{
  ℕ, ◌≡◌, ◌∙◌, refl, ap, sym, subst, Bool, true, false, Option, none, some, Option-cases, List, [],
  ◌∷◌, Text, text, arith, ⊤, ◌⊎◌, inl, inr,
}
use project_hamilton.Base.Action.{ok, raise, outcome, >>=-ok, >>=-run, >>=-raise, pure, ◌>>=◌}
use project_hamilton.Base.Action.Atomic.{
  IsReadonly, readonly_rules, >>=-IsReadonly, pure-IsReadonly, Follows,
}
use project_hamilton.Wallet.Fetch.{
  CliError, os_error, Url, Answer, safe_fetch_json, IsFetched, fetch_decided,
}
use project_hamilton.Wallet.Session.{
  Disk, Library, Item, mapping, other, Loaded, items, not_iterable, RemoteUtxo, Session,
  atomic_write, load_public, load_if, public_key_str, get_text, remote_from, remote_of, check_item,
  check_items, validate_loaded, sync_utxos,
}

-- The token of an item: its five texts.
pub record IsToken (i : Item) (r : RemoteUtxo) : Type 0 where
  pub fields : List (Text × Option Text)
  pub is_mapping : i ≡ mapping fields
  pub token_id : get_text (text "token_id") fields ≡ some r.token_id
  pub amount : get_text (text "amount") fields ≡ some r.amount
  pub currency : get_text (text "currency") fields ≡ some r.currency
  pub owner : get_text (text "owner_public_key") fields ≡ some r.owner_public_key
  pub attestation : get_text (text "node_attestation_sig") fields ≡ some r.node_attestation_sig

-- The tokens of items, one after another.
abbrev pub AreTokens : List Item → List RemoteUtxo → Type 0
AreTokens [] [] = ⊤
AreTokens [] (r ∷ rs) = ⊥
AreTokens (i ∷ is) [] = ⊥
AreTokens (i ∷ is) (r ∷ rs) = IsToken i r × AreTokens is rs

remote_from-Fields :
    (a b c d e : Option Text) (r : RemoteUtxo)
    → remote_from a b c d e ≡ some r
    → (a ≡ some r.token_id)
      × (b ≡ some r.amount)
      × (c ≡ some r.currency)
      × (d ≡ some r.owner_public_key)
      × (e ≡ some r.node_attestation_sig)
unfolding remote_from
remote_from-Fields none b c d e r h = absurd cc
remote_from-Fields (some a) none c d e r h = absurd cc
remote_from-Fields (some a) (some b) none d e r h = absurd cc
remote_from-Fields (some a) (some b) (some c) none e r h = absurd cc
remote_from-Fields (some a) (some b) (some c) (some d) none r h = absurd cc
remote_from-Fields (some a) (some b) (some c) (some d) (some e) r h = (cc, cc, cc, cc, cc)

abbrev with_utxos : List RemoteUtxo → Disk → Disk
with_utxos rs d = record d { utxo_file = some rs }

module _ (lib : Library) where
  open lib use {PrivateKey, PublicKey}

  abbrev pub SameDisk : Session PublicKey → Session PublicKey → Type 0
  SameDisk s s' = s'.disk ≡ s.disk

  pub public_key_str-SameDisk : Follows SameDisk (public_key_str lib)
  unfolding public_key_str load_if load_public
  public_key_str-SameDisk = record { at = λ s. ground arith }

  atomic_write_cases :
      (fault : Bool) (change : Disk → Disk) (s : Session PublicKey)
      → (atomic_write lib fault change s ≡ (ok tt, record s { disk = change s.disk }))
        ⊎ (atomic_write lib fault change s ≡ (raise os_error, s))
  unfolding atomic_write
  atomic_write_cases true change s = inr refl
  atomic_write_cases false change s = inl refl

  check_item-IsReadonly : (i : Item) → IsReadonly (check_item lib i)
  unfolding check_item
  check_item-IsReadonly other = search readonly_rules
  check_item-IsReadonly (mapping fields) = search readonly_rules depth 14

  check_items-IsReadonly : (is : List Item) → IsReadonly (check_items lib is)
  unfolding check_items
  check_items-IsReadonly [] = search readonly_rules
  check_items-IsReadonly (i ∷ is) =
      >>=-IsReadonly (check_item lib i)
        (λ first. check_items lib is >>= λ rest. pure (first ∷ rest)) (check_item-IsReadonly i)
        (λ first.
          >>=-IsReadonly (check_items lib is) (λ rest. pure (first ∷ rest))
            (check_items-IsReadonly is) (λ rest. pure-IsReadonly (first ∷ rest)))

  check_item-IsToken :
      (i : Item) (r : RemoteUtxo) (s s' : Session PublicKey)
      → check_item lib i s ≡ (ok r, s')
      → IsToken i r
  unfolding check_item remote_of
  check_item-IsToken other r s s' h = absurd cc
  check_item-IsToken (mapping fields) r s s' h = elim (Option-cases (remote_of fields)) [
    | inl e ↦ absurd (ground arith)
    | inr (r', e) ↦
        let same : r' ≡ r = ground arith in
        let (a, b, c, d, f) =
          remote_from-Fields (get_text (text "token_id") fields) (get_text (text "amount") fields)
            (get_text (text "currency") fields) (get_text (text "owner_public_key") fields)
            (get_text (text "node_attestation_sig") fields) r (e ∙ ap some same) in
        record {
          fields = fields;
          is_mapping = refl;
          token_id = a;
          amount = b;
          currency = c;
          owner = d;
          attestation = f;
        }
  ]

  check_items-AreTokens :
      (is : List Item) (rs : List RemoteUtxo) (s s' : Session PublicKey)
      → check_items lib is s ≡ (ok rs, s')
      → AreTokens is rs
  unfolding check_items
  check_items-AreTokens [] rs s s' h =
      let same : [] ≡ rs = cc in subst (λ x. AreTokens [] x) same tt
  check_items-AreTokens (i ∷ is) rs s s' h =
      let (r, s₁, first, h₁) =
        >>=-ok (check_item lib i) (λ first. check_items lib is >>= λ rest. pure (first ∷ rest)) h in
      let (rest, s₂, second, h₂) = >>=-ok (check_items lib is) (λ rest. pure (r ∷ rest)) h₁ in
      let same : r ∷ rest ≡ rs = cc in
      subst (λ x. AreTokens (i ∷ is) x) same
        (check_item-IsToken i r s s₁ first, check_items-AreTokens is rest s₁ s₂ second)

  validate_loaded-IsReadonly : (l : Loaded) → IsReadonly (validate_loaded lib l)
  unfolding validate_loaded
  validate_loaded-IsReadonly (items is) = check_items-IsReadonly is
  validate_loaded-IsReadonly not_iterable = search readonly_rules

  validate_loaded-Items :
      (l : Loaded) (rs : List RemoteUtxo) (s s' : Session PublicKey)
      → validate_loaded lib l s ≡ (ok rs, s')
      → (is : List Item) × (l ≡ items is) × AreTokens is rs
  unfolding validate_loaded
  validate_loaded-Items (items is) rs s s' h = (is, refl, check_items-AreTokens is rs s s' h)
  validate_loaded-Items not_iterable rs s s' h = absurd cc

  module _ (fault : Bool) (loads : List ℕ → Option Loaded) (url : Text → Url)
      (answer : Text → Answer) (s : Session PublicKey) where
    -- What a synchronisation that returned has done.
    pub record IsSynced (s' : Session PublicKey) : Type 0 where
      pub key : Text
      pub is : List Item
      pub rs : List RemoteUtxo
      pub fetched : IsFetched loads (url key) (answer key) (items is)
      pub tokens : AreTokens is rs
      pub written : s'.disk ≡ record s.disk { utxo_file = some rs }

    -- A synchronisation either returns, and then the response was allowed, small and JSON, each of
    -- its items is a mapping with the five texts of a token, and utxos.json has these tokens, in their
    -- order, and no other file has changed; or it raises, whatever the exception, and no file has
    -- changed.
    pub sync_decided :
        ((s' : Session PublicKey) × (sync_utxos lib fault loads url answer s ≡ (ok tt, s'))
          × IsSynced s')
        ⊎ ((e : CliError) × (s' : Session PublicKey) × (sync_utxos lib fault loads url answer s
              ≡ (raise e, s'))
            × (s'.disk ≡ s.disk))
    unfolding sync_utxos
    sync_decided =
        let write = λ (rs : List RemoteUtxo).
          atomic_write lib fault (λ d. record d { utxo_file = some rs }) in
        let checked = λ (raw : Loaded). validate_loaded lib raw >>= write in
        let asked = λ (key : Text). safe_fetch_json loads (url key) (answer key) >>= checked in
        let keyed = public_key_str-SameDisk.at s in
        elim (outcome (public_key_str lib s)) [
          | inr (e, s₁, run) ↦ inr (
            e,
            s₁,
            >>=-raise (public_key_str lib) asked run,
            ap (λ p. p.1.disk) (sym run) ∙ keyed,
          )
          | inl (key, s₁, run) ↦
              let disk : s₁.disk ≡ s.disk = ap (λ p. p.1.disk) (sym run) ∙ keyed in
              let fetch = safe_fetch_json loads (url key) (answer key) in
              elim (fetch_decided s₁ loads (url key) (answer key)) [
                | inr (e, refused, run₁) ↦ inr (
                  e,
                  s₁,
                  >>=-run (public_key_str lib) asked run (>>=-raise fetch checked run₁),
                  disk,
                )
                | inl (raw, fetched, run₁) ↦ elim (outcome (validate_loaded lib raw s₁)) [
                  | inr (e, s₂, run₂) ↦
                      let same =
                        ap (λ p. p.1) (sym run₂) ∙ (validate_loaded-IsReadonly raw).at s₁ in
                      inr (
                        e,
                        s₂,
                        >>=-run (public_key_str lib) asked run (
                            >>=-run fetch checked run₁
                              (>>=-raise (validate_loaded lib raw) write run₂)),
                        ap (λ t. t.disk) same ∙ disk,
                      )
                  | inl (rs, s₂, run₂) ↦
                      let same =
                        ap (λ p. p.1) (sym run₂) ∙ (validate_loaded-IsReadonly raw).at s₁ in
                      let disk₂ : s₂.disk ≡ s.disk = ap (λ t. t.disk) same ∙ disk in
                      let (is, is_items, tokens) = validate_loaded-Items raw rs s₁ s₂ run₂ in
                      let done : sync_utxos lib fault loads url answer s ≡ write rs s₂ =
                        >>=-run (public_key_str lib) asked run (
                          >>=-run fetch checked run₁
                            (>>=-run (validate_loaded lib raw) write run₂ refl)) in
                      elim (atomic_write_cases fault (λ d. record d { utxo_file = some rs }) s₂) [
                        | inr failed ↦ inr (os_error, s₂, done ∙ failed, disk₂)
                        | inl written ↦ inl (
                          record s₂ { disk = record s₂.disk { utxo_file = some rs } },
                          done ∙ written,
                          record {
                            key = key;
                            is = is;
                            rs = rs;
                            fetched =
                                subst (λ l. IsFetched loads (url key) (answer key) l) is_items
                                  fetched;
                            tokens = tokens;
                            written = ap (with_utxos rs) disk₂;
                          },
                        )
                      ]
                ]
              ]
        ]
