-- ===== src/Redis/Values.antt =====
-- The values of the keys "utxo:": what a deletion, a snapshot and the queued commands leave of them.
use project_hamilton.Base.{
  ◌≡◌, ◌≢◌, ◌∙◌, ◌⊎◌, inl, inr, refl, sym, ap, true, none, some, Option-cases, List, [], ◌∷◌, Text,
  text_dec, arith, All, contains, ⊤,
}
use project_hamilton.Redis.State.{Stored, Store, get_stored, delete_stored, set_stored}
use project_hamilton.Redis.Process.{set_token}
use project_hamilton.Redis.Snapshot.{collect, delete_values, delete_keys, set_tokens}

-- No two values have the same identifier.
abbrev pub IsDistinct : List Stored → Type 0
IsDistinct [] = ⊤
IsDistinct (d ∷ ds) = (get_stored d.token_id ds ≡ none) × IsDistinct ds

pub get_stored-delete_self :
    (t : Text) (ds : List Stored) → get_stored t (delete_stored t ds) ≡ none
unfolding get_stored delete_stored
get_stored-delete_self t [] = refl
get_stored-delete_self t (d ∷ ds) = ground (arith, get_stored-delete_self t ds)

pub get_stored-delete_ne :
    (j t : Text) (ds : List Stored) → j ≢ t → get_stored j (delete_stored t ds) ≡ get_stored j ds
unfolding get_stored delete_stored
get_stored-delete_ne j t [] ne = refl
get_stored-delete_ne j t (d ∷ ds) ne = ground (arith, get_stored-delete_ne j t ds ne)

pub get_stored-delete-none :
    (j t : Text) (ds : List Stored)
    → get_stored j ds ≡ none
    → get_stored j (delete_stored t ds) ≡ none
unfolding get_stored delete_stored
get_stored-delete-none j t [] h = refl
get_stored-delete-none j t (d ∷ ds) h = ground (arith, get_stored-delete-none j t ds)

pub delete_stored-IsDistinct :
    (t : Text) (ds : List Stored) → IsDistinct ds → IsDistinct (delete_stored t ds)
unfolding delete_stored
delete_stored-IsDistinct t [] h = tt
delete_stored-IsDistinct t (d ∷ ds) h =
    ground (arith, delete_stored-IsDistinct t ds h.1, get_stored-delete-none d.token_id t ds h.0)

pub get_stored-id :
    (t : Text) (d : Stored) (ds : List Stored) → get_stored t ds ≡ some d → d.token_id ≡ t
unfolding get_stored
get_stored-id t d [] h = cc
get_stored-id t d (e ∷ ds) h = ground (arith, get_stored-id t d ds)

pub get_stored-set_self :
    (d : Stored) (ds : List Stored) → get_stored d.token_id (set_stored d ds) ≡ some d
unfolding get_stored set_stored
get_stored-set_self d ds = ground arith

pub get_stored-set_ne :
    (j : Text) (d : Stored) (ds : List Stored)
    → j ≢ d.token_id
    → get_stored j (set_stored d ds) ≡ get_stored j ds
unfolding get_stored set_stored
get_stored-set_ne j d ds ne = ground (arith, get_stored-delete_ne j d.token_id ds ne)

pub collect-IsDistinct :
    (ts : List Text) (ds out : List Stored) → IsDistinct out → IsDistinct (collect ts ds out)
unfolding collect set_stored
collect-IsDistinct [] ds out h = h
collect-IsDistinct (t ∷ ts) ds out h =
    elim (get_stored t ds)
      as (λ o.
        IsDistinct
          (elim o [ none ↦ collect ts ds out | some d ↦ collect ts ds (set_stored d out) ])) [
            | none ↦ collect-IsDistinct ts ds out h
            | some d ↦
                collect-IsDistinct ts ds (set_stored d out)
                  (get_stored-delete_self d.token_id out, delete_stored-IsDistinct d.token_id out h)
          ]

pub set_found :
    (j : Text) (d : Stored) (ds out : List Stored)
    → get_stored d.token_id ds ≡ some d
    → get_stored j out ≡ get_stored j ds
    → get_stored j (set_stored d out) ≡ get_stored j ds
set_found j d ds out found h = elim (text_dec j d.token_id) [
  | yes e ↦
      ap (λ x. get_stored x (set_stored d out)) e
      ∙ get_stored-set_self d out
      ∙ sym found
      ∙ sym (ap (λ x. get_stored x ds) e)
  | no ne ↦ get_stored-set_ne j d out ne ∙ h
]

pub collect_kept :
    (j : Text) (ts : List Text) (ds out : List Stored)
    → get_stored j out ≡ get_stored j ds
    → get_stored j (collect ts ds out) ≡ get_stored j ds
unfolding collect
collect_kept j [] ds out h = h
collect_kept j (t ∷ ts) ds out h = elim (Option-cases (get_stored t ds)) [
  | inl missing ↦ let ih = collect_kept j ts ds out h in ground arith
  | inr (d, found) ↦
      let id = get_stored-id t d ds found in
      let here : get_stored d.token_id ds ≡ some d = ap (λ x. get_stored x ds) id ∙ found in
      let ih = collect_kept j ts ds (set_stored d out) (set_found j d ds out here h) in ground arith
]

-- SCAN yields the identifier, or there is nothing under it.
abbrev pub Covers : Text → List Text → List Stored → Type 0
Covers j ts ds = (contains text_dec j ts ≡ true) ⊎ (get_stored j ds ≡ none)

pub collect_found :
    (j : Text) (ts : List Text) (ds out : List Stored)
    → get_stored j out ≡ none
    → Covers j ts ds
    → get_stored j (collect ts ds out) ≡ get_stored j ds
unfolding collect contains
collect_found j [] ds out h (inl c) = absurd cc
collect_found j [] ds out h (inr c) = h ∙ sym c
collect_found j (t ∷ ts) ds out h (inr c) = collect_kept j (t ∷ ts) ds out (h ∙ sym c)
collect_found j (t ∷ ts) ds out h (inl c) = elim (Option-cases (get_stored t ds)) [
  | inl missing ↦ elim (text_dec j t) [
    | yes e ↦ collect_kept j (t ∷ ts) ds out (h ∙ sym (ap (λ x. get_stored x ds) e ∙ missing))
    | no ne ↦ let ih = collect_found j ts ds out h (inl (ground arith)) in ground arith
  ]
  | inr (d, found) ↦
      let id = get_stored-id t d ds found in
      elim (text_dec j t) [
        | yes e ↦
            let e' : j ≡ d.token_id = e ∙ sym id in
            let now : get_stored j (set_stored d out) ≡ get_stored j ds =
              ap (λ x. get_stored x (set_stored d out)) e'
              ∙ get_stored-set_self d out
              ∙ sym found
              ∙ sym (ap (λ x. get_stored x ds) e) in
            let ih = collect_kept j ts ds (set_stored d out) now in ground arith
        | no ne ↦
            let none_yet : get_stored j (set_stored d out) ≡ none =
              get_stored-set_ne j d out (λ e. ne (e ∙ id)) ∙ h in
            let ih = collect_found j ts ds (set_stored d out) none_yet (inl (ground arith)) in
            ground arith
      ]
]

pub delete_values-none :
    (j : Text) (ts : List Text) (ds : List Stored)
    → get_stored j ds ≡ none
    → get_stored j (delete_values ts ds) ≡ none
unfolding delete_values
delete_values-none j [] ds h = h
delete_values-none j (t ∷ ts) ds h =
    delete_values-none j ts (delete_stored t ds) (get_stored-delete-none j t ds h)

pub delete_values_gone :
    (j : Text) (ts : List Text) (ds : List Stored)
    → Covers j ts ds
    → get_stored j (delete_values ts ds) ≡ none
unfolding delete_values contains
delete_values_gone j ts ds (inr c) = delete_values-none j ts ds c
delete_values_gone j [] ds (inl c) = absurd cc
delete_values_gone j (t ∷ ts) ds (inl c) = elim (text_dec j t) [
  | yes e ↦
      delete_values-none j ts (delete_stored t ds)
        (ap (λ x. get_stored x (delete_stored t ds)) e ∙ get_stored-delete_self t ds)
  | no ne ↦ delete_values_gone j ts (delete_stored t ds) (inl (ground arith))
]

pub delete_keys-All :
    {A : Type 0} (names : List Text) (entries : List (Text × A))
    → All (λ e. contains text_dec e.0 names ≡ true) entries
    → delete_keys names entries ≡ []
unfolding delete_keys
delete_keys-All names [] all = refl
delete_keys-All names ((k, a) ∷ entries) all =
    let here = all.0 in let ih = delete_keys-All names entries all.1 in ground arith

pub get_stored_head :
    (t : Text) (d : Stored) (ds : List Stored) → d.token_id ≡ t → get_stored t (d ∷ ds) ≡ some d
unfolding get_stored
get_stored_head t d ds e = ground arith

pub get_stored_skip :
    (t : Text) (d : Stored) (ds : List Stored)
    → d.token_id ≢ t
    → get_stored t (d ∷ ds) ≡ get_stored t ds
unfolding get_stored
get_stored_skip t d ds ne = ground arith

-- A table in which nothing is found is empty.
pub empty_of : (ds : List Stored) → ((j : Text) → get_stored j ds ≡ none) → ds ≡ []
empty_of [] h = refl
empty_of (d ∷ ds) h =
    let at = h d.token_id in let head = get_stored_head d.token_id d ds refl in absurd cc

pub set_tokens_other :
    (j : Text) (ds : List Stored) (s : Store)
    → get_stored j ds ≡ none
    → get_stored j (set_tokens ds s).utxos ≡ get_stored j s.utxos
unfolding set_tokens set_token
set_tokens_other j [] s h = refl
set_tokens_other j (d ∷ ds) s h = elim (text_dec d.token_id j) [
  | yes e ↦ (let head = get_stored_head j d ds e in absurd cc)
  | no ne ↦
      set_tokens_other j ds (set_token d s) (sym (get_stored_skip j d ds ne) ∙ h)
      ∙ get_stored-set_ne j d s.utxos (λ e. ne (sym e))
]

pub set_tokens_set :
    (j : Text) (e : Stored) (ds : List Stored) (s : Store)
    → IsDistinct ds
    → get_stored j ds ≡ some e
    → get_stored j (set_tokens ds s).utxos ≡ some e
unfolding set_tokens set_token
set_tokens_set j e [] s distinct h = absurd (unfold get_stored in cc)
set_tokens_set j e (d ∷ ds) s distinct h = elim (text_dec d.token_id j) [
  | yes id ↦
      let head = get_stored_head j d ds id in
      let same : d ≡ e = ground arith in
      set_tokens_other j ds (set_token d s) (ap (λ x. get_stored x ds) (sym id) ∙ distinct.0)
      ∙ ap (λ x. get_stored x (set_stored d s.utxos)) (sym id)
      ∙ get_stored-set_self d s.utxos
      ∙ ap some same
  | no ne ↦ set_tokens_set j e ds (set_token d s) distinct.1 (sym (get_stored_skip j d ds ne) ∙ h)
]
