-- ===== src/Stores/Index.antt =====
-- `owner_index` of `MemoryUTXOLedger`: the tokens of each owner. A set is a list of its elements.
use project_hamilton.Base.{true, false, List, [], ◌∷◌, Text, text_dec, ite, contains}

-- `owner_index.get(public_key, set())`
unfoldable pub owner_bucket : Text → List (Text × List Text) → List Text
owner_bucket owner [] = []
owner_bucket owner ((k, ids) ∷ index) = ite (text_dec k owner) ids (owner_bucket owner index)

-- `bucket.discard(tid)`
unfoldable pub discard : Text → List Text → List Text
discard tid [] = []
discard tid (i ∷ ids) = ite (text_dec i tid) (discard tid ids) (i ∷ discard tid ids)

-- `if not owner_bucket: del owner_index[key]`
unfoldable pub keep_bucket : Text → List Text → List (Text × List Text) → List (Text × List Text)
keep_bucket k [] index = index
keep_bucket k (i ∷ ids) index = (k, i ∷ ids) ∷ index

-- `if owner_bucket:`, an empty bucket being left alone.
unfoldable pub shrink_bucket :
    Text → Text → List Text → List (Text × List Text) → List (Text × List Text)
shrink_bucket k tid [] index = (k, []) ∷ index
shrink_bucket k tid (i ∷ ids) index = keep_bucket k (discard tid (i ∷ ids)) index

unfoldable pub index_discard : Text → Text → List (Text × List Text) → List (Text × List Text)
index_discard owner tid [] = []
index_discard owner tid ((k, ids) ∷ index) =
    ite (text_dec k owner) (shrink_bucket k tid ids index)
      ((k, ids) ∷ index_discard owner tid index)

-- `set.add`
unfoldable pub add_id : Text → List Text → List Text
add_id tid ids = elim (contains text_dec tid ids) [ true ↦ ids | false ↦ tid ∷ ids ]

-- `owner_index.setdefault(owner, set()).add(tid)`
unfoldable pub index_add : Text → Text → List (Text × List Text) → List (Text × List Text)
index_add owner tid [] = (owner, tid ∷ []) ∷ []
index_add owner tid ((k, ids) ∷ index) =
    ite (text_dec k owner) ((k, add_id tid ids) ∷ index) ((k, ids) ∷ index_add owner tid index)
