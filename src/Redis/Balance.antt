-- ===== src/Redis/Balance.antt =====
-- `get_utxo` and `get_balance`. SSCAN yields a set page by page.
use project_hamilton.Base.{
  ℕ, ◌≡◌, ◌∙◌, ◌<◌, refl, sym, ap, Bool, true, false, none, some, Option, List, [], ◌∷◌, ◌++◌, Text,
  text_dec, arith, contains, has_duplicate, inl, inr,
}
use project_hamilton.Base.Money.{limit}
use project_hamilton.Base.Action.{ok, pure, throw}
use project_hamilton.Models.Types.{Currency, Utxo}
use project_hamilton.Stores.State.{validation_error, get_token}
use project_hamilton.Stores.Index.{index_discard}
use project_hamilton.Stores.Memory.{counted_in, balance_of}
use project_hamilton.Stores.Table.{IsUnique, supply}
use project_hamilton.Stores.Owners.{lists, contains_head, contains_later}
use project_hamilton.Stores.Indexed.{owned_by, IsIndexed}
use project_hamilton.Stores.Balances.{holdings, sum_holdings, balance_of_exact, holdings-le}
use project_hamilton.Redis.State.{Stored, Store, Act, get_stored, utxo_of, is_accepted, parse_utxo}
use project_hamilton.Redis.View.{tokens_of, tokens_of-get, memory_of}

-- `get_utxo`
unfoldable pub get_utxo : (Text → Bool) → ℕ → Text → Act (Option Utxo)
get_utxo is_uuid4 now tid s = elim (get_stored tid s.utxos) [
  | none ↦ pure none s
  | some d ↦ elim (parse_utxo is_uuid4 now d) [
    | none ↦ throw validation_error s
    | some u ↦ pure (some u) s
  ]
]

-- The tokens of a page that are there, added to `total`; `none` is the ValidationError of one that
-- does not parse.
unfoldable pub page_total : (Text → Bool) → ℕ → Currency → List Stored → ℕ → List Text → Option ℕ
page_total is_uuid4 now c ds total [] = some total
page_total is_uuid4 now c ds total (t ∷ ts) = elim (get_stored t ds) [
  | none ↦ page_total is_uuid4 now c ds total ts
  | some d ↦ elim (parse_utxo is_uuid4 now d) [
    | none ↦ none
    | some u ↦ page_total is_uuid4 now c ds (counted_in now c total (some u)) ts
  ]
]

-- `cleanup`: a token that is not there leaves the set.
unfoldable pub heal :
    Text → List Stored → List Text → List (Text × List Text) → List (Text × List Text)
heal owner ds [] owners = owners
heal owner ds (t ∷ ts) owners = elim (get_stored t ds) [
  | none ↦ heal owner ds ts (index_discard owner t owners)
  | some d ↦ heal owner ds ts owners
]

-- The loop of `get_balance`, over the pages.
unfoldable pub add_pages : (Text → Bool) → ℕ → Text → Currency → ℕ → List (List Text) → Act ℕ
add_pages is_uuid4 now owner c total [] s = pure total s
add_pages is_uuid4 now owner c total (page ∷ pages) s =
    elim (page_total is_uuid4 now c s.utxos total page) [
      | none ↦ throw validation_error s
      | some total' ↦
          add_pages is_uuid4 now owner c total' pages
            (record s { owners = heal owner s.utxos page s.owners })
    ]

-- `get_balance`
unfoldable pub get_balance : (Text → Bool) → ℕ → Text → Currency → List (List Text) → Act ℕ
get_balance is_uuid4 now owner c pages = add_pages is_uuid4 now owner c 0 pages

-- Every token of the list that is there parses.
abbrev pub Parses : (Text → Bool) → ℕ → List Stored → List Text → Type 0
Parses is_uuid4 now ds ts =
    (t : Text) (d : Stored)
    → contains text_dec t ts ≡ true
    → get_stored t ds ≡ some d
    → is_accepted is_uuid4 now d ≡ true

parsed :
    (is_uuid4 : Text → Bool) (now : ℕ) (d : Stored)
    → is_accepted is_uuid4 now d ≡ true
    → parse_utxo is_uuid4 now d ≡ some (utxo_of now d)
unfolding parse_utxo
parsed is_uuid4 now d h = ground arith

-- The pages, one after another.
abbrev pub pages_of : List (List Text) → List Text
pages_of [] = []
pages_of (page ∷ pages) = page ++ pages_of pages

page_total_same :
    (is_uuid4 : Text → Bool) (now : ℕ) (c : Currency) (ds : List Stored) (total : ℕ)
    (ts : List Text)
    → Parses is_uuid4 now ds ts
    → page_total is_uuid4 now c ds total ts ≡ some (balance_of now c (tokens_of now ds) total ts)
unfolding page_total balance_of counted_in
page_total_same is_uuid4 now c ds total [] all = refl
page_total_same is_uuid4 now c ds total (t ∷ ts) all =
    let later : Parses is_uuid4 now ds ts =
      (λ j d there found. all j d (contains_later j t ts there) found) in
    elim (tokens_of-get now t ds) [
      | inl (a, b) ↦ (let ih = page_total_same is_uuid4 now c ds total ts later in ground arith)
      | inr (d, a, b) ↦
          let ih =
            page_total_same is_uuid4 now c ds (counted_in now c total (some (utxo_of now d))) ts
              later in
          let ok_d = parsed is_uuid4 now d (all t d (contains_head t t ts refl) a) in ground arith
    ]

balance_of-append :
    (now : ℕ) (c : Currency) (us : List Utxo) (total : ℕ) (ts ss : List Text)
    → balance_of now c us total (ts ++ ss) ≡ balance_of now c us (balance_of now c us total ts) ss
unfolding balance_of
balance_of-append now c us total [] ss = refl
balance_of-append now c us total (t ∷ ts) ss =
    balance_of-append now c us (counted_in now c total (get_token t us)) ts ss

heal_none :
    (now : ℕ) (owner : Text) (ds : List Stored) (ts : List Text) (owners : List (Text × List Text))
    → ((t : Text)
        → contains text_dec t ts ≡ true
        → owned_by owner (get_token t (tokens_of now ds)) ≡ true)
    → heal owner ds ts owners ≡ owners
unfolding heal contains owned_by
heal_none now owner ds [] owners h = refl
heal_none now owner ds (t ∷ ts) owners h =
    let ih = heal_none now owner ds ts owners (λ j there. h j (contains_later j t ts there)) in
    let here = h t (contains_head t t ts refl) in
    elim (tokens_of-get now t ds) [
      | inl (a, b) ↦ absurd (ground arith)
      | inr (d, a, b) ↦ ground arith
    ]

contains-append :
    (t : Text) (ts ss : List Text)
    → (contains text_dec t ts ≡ true → contains text_dec t (ts ++ ss) ≡ true)
      × (contains text_dec t ss ≡ true → contains text_dec t (ts ++ ss) ≡ true)
unfolding contains
contains-append t [] ss = (λ h. absurd cc, λ h. h)
contains-append t (i ∷ ts) ss =
    let ih = contains-append t ts ss in (λ h. ground (arith, ih.0), λ h. ground (arith, ih.1))

-- Pages of tokens that the owner has leave the sets as they are.
add_pages-run :
    (is_uuid4 : Text → Bool) (now : ℕ) (owner : Text) (c : Currency) (total : ℕ)
    (pages : List (List Text)) (s : Store)
    → Parses is_uuid4 now s.utxos (pages_of pages)
    → ((t : Text)
        → contains text_dec t (pages_of pages) ≡ true
        → owned_by owner (get_token t (tokens_of now s.utxos)) ≡ true)
    → add_pages is_uuid4 now owner c total pages s
      ≡ (ok (balance_of now c (tokens_of now s.utxos) total (pages_of pages)), s)
unfolding add_pages balance_of
add_pages-run is_uuid4 now owner c total [] s all h = refl
add_pages-run is_uuid4 now owner c total (page ∷ pages) s all h =
    let us = tokens_of now s.utxos in
    let kept =
      heal_none now owner s.utxos page s.owners
        (λ t there. h t ((contains-append t page (pages_of pages)).0 there)) in
    let rest =
      add_pages-run is_uuid4 now owner c (balance_of now c us total page) pages s
        (λ t d there found. all t d ((contains-append t page (pages_of pages)).1 there) found)
        (λ t there. h t ((contains-append t page (pages_of pages)).1 there)) in
    let sum =
      page_total_same is_uuid4 now c s.utxos total page
        (λ t d there found. all t d ((contains-append t page (pages_of pages)).0 there) found) in
    let whole = balance_of-append now c us total page (pages_of pages) in
    rw (sum, add_pages)
      (ap
          (λ o.
            add_pages is_uuid4 now owner c (balance_of now c us total page) pages
              (record s { owners = o }))
          kept
        ∙ rest
        ∙ ap (λ n. (ok n, s)) (sym whole))

-- What `get_balance` returns is the worth of the owner's tokens that are in the store, in the
-- currency and not expired, and it changes nothing, if SSCAN yields every token of the owner's set
-- once, each of these parses, the sets list the tokens of each owner, each once, no token is in the
-- store twice, and the amount of the currency has at most 28 digits in cents.
pub get_balance_worth :
    (is_uuid4 : Text → Bool) (now : ℕ) (owner : Text) (c : Currency) (pages : List (List Text))
    (s : Store)
    → Parses is_uuid4 now s.utxos (pages_of pages)
    → has_duplicate text_dec (pages_of pages) ≡ false
    → ((t : Text) → contains text_dec t (pages_of pages) ≡ lists owner t s.owners)
    → IsIndexed (memory_of now s)
    → IsUnique (tokens_of now s.utxos)
    → supply c (tokens_of now s.utxos) < limit
    → get_balance is_uuid4 now owner c pages s
      ≡ (ok (holdings now c owner (tokens_of now s.utxos)), s)
unfolding get_balance
get_balance_worth is_uuid4 now owner c pages s all_parse once all h uniq small =
    let us = tokens_of now s.utxos in
    let ts = pages_of pages in
    let owned = λ (t : Text). all t ∙ h.agrees owner t in
    let run =
      add_pages-run is_uuid4 now owner c 0 pages s all_parse (λ t there. sym (owned t) ∙ there) in
    let sum = sum_holdings now c owner us ts uniq once owned in
    let bound = holdings-le now c owner us in
    let exact = balance_of_exact now c us 0 ts (omega arith) in
    let whole : balance_of now c us 0 ts ≡ holdings now c owner us = exact ∙ omega arith in
    run ∙ ap (λ n. (ok n, s)) whole
