-- ===== src/Storage/Local/Map.antt =====
-- Maps of records that are stored under their own keys: the lemmas that the in-memory adapters
-- share.
use affinidi_trust_registry.Domain.TrustRecord.{TrustRecord}
use affinidi_trust_registry.Storage.Repository.{TrustRecordQuery}
use affinidi_trust_registry.Storage.Key.{
  RecordKey, key_eq, from_record, from_query, matches_query, matches_query_iff,
}
use affinidi_trust_registry.Storage.Registry.{Registry, assign, Listed, DistinctKeys, IsListing}
use affinidi_trust_registry.Prelude.HashMap.{
  HashMap, values, get, insert, remove, NodupKeys, get-insert, get-remove, insert-NodupKeys,
  remove-NodupKeys,
}
use affinidi_trust_registry.Prelude.{
  ◌≡◌, ◌≢◌, refl, fun_ext, inl, inr, none, some, [], ◌∷◌, find, All, arith,
}

abbrev pub Records : Type 0
Records = HashMap RecordKey TrustRecord

-- Each record stands under its own key, and no key stands twice.
abbrev pub IsKeyed : Records → Type 0
IsKeyed [] = Unit
IsKeyed ((k, r) ∷ m) = (k ≡ from_record r) × IsKeyed m

pub record IsValidMap (m : Records) : Type 0 where
  pub keyed : IsKeyed m
  pub distinct : NodupKeys m

abbrev pub map_view : Records → Registry
map_view m k = get k m

insert-IsKeyed : (r : TrustRecord) (m : Records) → IsKeyed m → IsKeyed (insert (from_record r) r m)
unfolding insert
insert-IsKeyed r [] h = (refl, tt)
insert-IsKeyed r ((j, w) ∷ m) (e, h) = ground (arith, insert-IsKeyed r m h)

remove-IsKeyed : (k : RecordKey) (m : Records) → IsKeyed m → IsKeyed (remove k m)
unfolding remove
remove-IsKeyed k [] h = tt
remove-IsKeyed k ((j, w) ∷ m) (e, h) = ground (arith, remove-IsKeyed k m h)

pub insert-IsValidMap :
    (r : TrustRecord) (m : Records) → IsValidMap m → IsValidMap (insert (from_record r) r m)
insert-IsValidMap r m v = record {
  keyed = insert-IsKeyed r m v.keyed;
  distinct = insert-NodupKeys (from_record r) r m v.distinct;
}

pub remove-IsValidMap : (k : RecordKey) (m : Records) → IsValidMap m → IsValidMap (remove k m)
remove-IsValidMap k m v = record {
  keyed = remove-IsKeyed k m v.keyed;
  distinct = remove-NodupKeys k m v.distinct;
}

pub map_view-insert :
    (r : TrustRecord) (m : Records)
    → map_view (insert (from_record r) r m) ≡ assign (from_record r) (some r) (map_view m)
map_view-insert r m = fun_ext λ j. get-insert j (from_record r) r m

pub map_view-remove :
    (k : RecordKey) (m : Records) → map_view (remove k m) ≡ assign k none (map_view m)
map_view-remove k m = fun_ext λ j. get-remove j k m

-- The search through the values finds what stands under the key of the query.
pub find-values :
    (q : TrustRecordQuery) (m : Records)
    → IsKeyed m
    → find (λ r. matches_query r q) (values m) ≡ get (from_query q) m
unfolding values get
find-values q [] h = refl
find-values q ((k, r) ∷ m) (e, h) = ground (arith, matches_query_iff r q, find-values q m h)

Listed-of_get :
    (k : RecordKey) (r : TrustRecord) (m : Records) → get k m ≡ some r → Listed r (values m)
unfolding values get
Listed-of_get k r [] h = cc
Listed-of_get k r ((j, w) ∷ m) h = ground (arith, Listed-of_get k r m)

get_of_Listed :
    (r : TrustRecord) (m : Records)
    → IsValidMap m
    → Listed r (values m)
    → get (from_record r) m ≡ some r
unfolding values get
get_of_Listed r [] v l = absurd l
get_of_Listed r ((j, w) ∷ m) v (inl e) = ground (arith, v.keyed.0)
get_of_Listed r ((j, w) ∷ m) v (inr l) =
    let ih = get_of_Listed r m (record { keyed = v.keyed.1; distinct = v.distinct.1 }) l in
    ground (arith, v.distinct.0)

fresh_values :
    (k : RecordKey) (m : Records)
    → IsKeyed m
    → get k m ≡ none
    → All (λ y. from_record y ≢ k) (values m)
unfolding values get
fresh_values k [] h e = tt
fresh_values k ((j, w) ∷ m) (p, h) e = (ground arith, fresh_values k m h (ground arith))

values-DistinctKeys : (m : Records) → IsValidMap m → DistinctKeys (values m)
unfolding values
values-DistinctKeys [] v = tt
values-DistinctKeys ((j, w) ∷ m) v =
    (subst_fresh, values-DistinctKeys m (record { keyed = v.keyed.1; distinct = v.distinct.1 }))
  where
    subst_fresh : All (λ y. from_record y ≢ from_record w) (values m)
    subst_fresh = fresh_values (from_record w) m v.keyed.1 (ground arith)

-- The values of a valid map are the records of the registry, each once.
pub values-IsListing :
    (m : Records) → IsValidMap m → IsListing (map_view m) (record { records = values m })
values-IsListing m v = record {
  listed_iff = λ r. (get_of_Listed r m v, Listed-of_get (from_record r) r m);
  distinct = values-DistinctKeys m v;
}
