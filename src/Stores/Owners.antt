-- ===== src/Stores/Owners.antt =====
-- `owner_index` and the table agree: what an index entry becomes when a token comes or goes.
use project_hamilton.Base.{
  ◌≡◌, ◌≢◌, inl, inr, refl, Bool, true, false, List, [], ◌∷◌, Text, text_dec, ite, contains,
  has_duplicate, sym, Bool-cases, ◌∙◌, arith, ⊤,
}
use project_hamilton.Stores.Index.{
  owner_bucket, discard, keep_bucket, shrink_bucket, index_discard, add_id, index_add,
}

-- The index lists the token under the owner.
abbrev pub lists : Text → Text → List (Text × List Text) → Bool
lists owner tid index = contains text_dec tid (owner_bucket owner index)

-- No owner has two entries; one that is hidden by another would have to be empty.
abbrev pub IsKeyed : List (Text × List Text) → Type 0
IsKeyed [] = ⊤
IsKeyed ((k, ids) ∷ index) = (owner_bucket k index ≡ []) × IsKeyed index

bucket_same :
    (k owner : Text) (ids : List Text) (index : List (Text × List Text))
    → k ≡ owner
    → owner_bucket owner ((k, ids) ∷ index) ≡ ids
unfolding owner_bucket
bucket_same k owner ids index e = ground arith

bucket_other :
    (k owner : Text) (ids : List Text) (index : List (Text × List Text))
    → k ≢ owner
    → owner_bucket owner ((k, ids) ∷ index) ≡ owner_bucket owner index
unfolding owner_bucket
bucket_other k owner ids index ne = ground arith

-- The bucket of an owner that goes is empty afterwards, and else it is what was left.
bucket_kept :
    (k : Text) (ids : List Text) (index : List (Text × List Text))
    → owner_bucket k index ≡ []
    → owner_bucket k (keep_bucket k ids index) ≡ ids
unfolding keep_bucket
bucket_kept k [] index absent = absent
bucket_kept k (i ∷ ids) index absent = bucket_same k k (i ∷ ids) index refl

-- The entry of an owner that had one: the bucket loses the token, and goes if it is empty then.
bucket_shrunk :
    (k tid : Text) (ids : List Text) (index : List (Text × List Text))
    → owner_bucket k index ≡ []
    → owner_bucket k (shrink_bucket k tid ids index) ≡ discard tid ids
unfolding shrink_bucket discard
bucket_shrunk k tid [] index absent = bucket_same k k [] index refl
bucket_shrunk k tid (i ∷ ids) index absent = bucket_kept k (discard tid (i ∷ ids)) index absent

kept_other :
    (k owner : Text) (ids : List Text) (index : List (Text × List Text))
    → k ≢ owner
    → owner_bucket owner (keep_bucket k ids index) ≡ owner_bucket owner index
unfolding keep_bucket
kept_other k owner [] index ne = refl
kept_other k owner (i ∷ ids) index ne = bucket_other k owner (i ∷ ids) index ne

shrunk_other :
    (k owner tid : Text) (ids : List Text) (index : List (Text × List Text))
    → k ≢ owner
    → owner_bucket owner (shrink_bucket k tid ids index) ≡ owner_bucket owner index
unfolding shrink_bucket
shrunk_other k owner tid [] index ne = bucket_other k owner [] index ne
shrunk_other k owner tid (i ∷ ids) index ne = kept_other k owner (discard tid (i ∷ ids)) index ne

module _ (owner tid : Text) where
  pub bucket-index_add :
      (index : List (Text × List Text))
      → owner_bucket owner (index_add owner tid index) ≡ add_id tid (owner_bucket owner index)
  unfolding index_add owner_bucket add_id contains
  bucket-index_add [] = bucket_same owner owner (tid ∷ []) [] refl
  bucket-index_add ((k, ids) ∷ index) = ground (arith, bucket-index_add index)

  pub bucket-index_discard :
      (index : List (Text × List Text))
      → IsKeyed index
      → owner_bucket owner (index_discard owner tid index) ≡ discard tid (owner_bucket owner index)
  unfolding index_discard discard owner_bucket
  bucket-index_discard [] keyed = refl
  bucket-index_discard ((k, ids) ∷ index) keyed =
      elim (text_dec k owner)
        as (λ d.
          owner_bucket owner
            (ite d (shrink_bucket k tid ids index) ((k, ids) ∷ index_discard owner tid index))
          ≡ discard tid (ite d ids (owner_bucket owner index))) [
            | no ne ↦
                bucket_other k owner ids (index_discard owner tid index) ne
                ∙ bucket-index_discard index keyed.1
            | yes e ↦ rw (← e) (bucket_shrunk k tid ids index keyed.0)
          ]

module _ (owner other tid : Text) (ne : other ≢ owner) where
  pub bucket-index_add_ne :
      (index : List (Text × List Text))
      → owner_bucket owner (index_add other tid index) ≡ owner_bucket owner index
  unfolding index_add owner_bucket
  bucket-index_add_ne [] = bucket_other other owner (tid ∷ []) [] ne
  bucket-index_add_ne ((k, ids) ∷ index) = ground (arith, bucket-index_add_ne index)

  pub bucket-index_discard_ne :
      (index : List (Text × List Text))
      → owner_bucket owner (index_discard other tid index) ≡ owner_bucket owner index
  unfolding index_discard owner_bucket
  bucket-index_discard_ne [] = refl
  bucket-index_discard_ne ((k, ids) ∷ index) =
      ground (arith, bucket-index_discard_ne index, shrunk_other k owner tid ids index)

pub contains_head : (t i : Text) (ids : List Text) → t ≡ i → contains text_dec t (i ∷ ids) ≡ true
unfolding contains
contains_head t i ids e = ground arith

kept-IsKeyed :
    (k : Text) (ids : List Text) (index : List (Text × List Text))
    → owner_bucket k index ≡ []
    → IsKeyed index
    → IsKeyed (keep_bucket k ids index)
unfolding keep_bucket
kept-IsKeyed k [] index absent keyed = keyed
kept-IsKeyed k (i ∷ ids) index absent keyed = (absent, keyed)

shrunk-IsKeyed :
    (k tid : Text) (ids : List Text) (index : List (Text × List Text))
    → owner_bucket k index ≡ []
    → IsKeyed index
    → IsKeyed (shrink_bucket k tid ids index)
unfolding shrink_bucket
shrunk-IsKeyed k tid [] index absent keyed = (absent, keyed)
shrunk-IsKeyed k tid (i ∷ ids) index absent keyed =
    kept-IsKeyed k (discard tid (i ∷ ids)) index absent keyed

module _ (owner tid : Text) where
  pub index_add-IsKeyed :
      (index : List (Text × List Text)) → IsKeyed index → IsKeyed (index_add owner tid index)
  unfolding index_add owner_bucket
  index_add-IsKeyed [] keyed = (refl, tt)
  index_add-IsKeyed ((k, ids) ∷ index) keyed =
      elim (text_dec k owner)
        as (λ d.
          IsKeyed (ite d ((k, add_id tid ids) ∷ index) ((k, ids) ∷ index_add owner tid index))) [
            | yes e ↦ keyed
            | no ne ↦ (
              bucket-index_add_ne k owner tid (λ e. ne (sym e)) index ∙ keyed.0,
              index_add-IsKeyed index keyed.1,
            )
          ]

  pub index_discard-IsKeyed :
      (index : List (Text × List Text)) → IsKeyed index → IsKeyed (index_discard owner tid index)
  unfolding index_discard
  index_discard-IsKeyed [] keyed = tt
  index_discard-IsKeyed ((k, ids) ∷ index) keyed =
      elim (text_dec k owner)
        as (λ d.
          IsKeyed
            (ite d (shrink_bucket k tid ids index) ((k, ids) ∷ index_discard owner tid index))) [
              | yes e ↦ shrunk-IsKeyed k tid ids index keyed.0 keyed.1
              | no ne ↦ (
                bucket-index_discard_ne k owner tid (λ e. ne (sym e)) index ∙ keyed.0,
                index_discard-IsKeyed index keyed.1,
              )
            ]

module _ (tid : Text) where
  pub contains-add_id : (ids : List Text) → contains text_dec tid (add_id tid ids) ≡ true
  unfolding add_id
  contains-add_id ids = elim (Bool-cases (contains text_dec tid ids)) [
    | inl old ↦ ground arith
    | inr new ↦ rw (add_id, new) (contains_head tid tid ids refl)
  ]

  pub contains-discard : (ids : List Text) → contains text_dec tid (discard tid ids) ≡ false
  unfolding discard contains
  contains-discard [] = refl
  contains-discard (i ∷ ids) = ground (arith, contains-discard ids)

  module _ (j : Text) (ne : j ≢ tid) where
    pub contains-add_id_ne :
        (ids : List Text) → contains text_dec j (add_id tid ids) ≡ contains text_dec j ids
    unfolding add_id contains
    contains-add_id_ne ids = ground arith

    pub contains-discard_ne :
        (ids : List Text) → contains text_dec j (discard tid ids) ≡ contains text_dec j ids
    unfolding discard contains
    contains-discard_ne [] = refl
    contains-discard_ne (i ∷ ids) = ground (arith, contains-discard_ne ids)

  pub add_id-distinct :
      (ids : List Text)
      → has_duplicate text_dec ids ≡ false
      → has_duplicate text_dec (add_id tid ids) ≡ false
  unfolding add_id has_duplicate
  add_id-distinct ids h = ground arith

  contains-discard-false :
      (j : Text) (ids : List Text)
      → contains text_dec j ids ≡ false
      → contains text_dec j (discard tid ids) ≡ false
  unfolding discard contains
  contains-discard-false j [] h = h
  contains-discard-false j (i ∷ ids) h = ground (arith, contains-discard-false j ids)

  pub discard-distinct :
      (ids : List Text)
      → has_duplicate text_dec ids ≡ false
      → has_duplicate text_dec (discard tid ids) ≡ false
  unfolding discard has_duplicate
  discard-distinct [] h = refl
  discard-distinct (i ∷ ids) h = ground (arith, discard-distinct ids, contains-discard-false i ids)

pub contains_later :
    (t i : Text) (ts : List Text)
    → contains text_dec t ts ≡ true
    → contains text_dec t (i ∷ ts) ≡ true
unfolding contains
contains_later t i ts h = ground arith
