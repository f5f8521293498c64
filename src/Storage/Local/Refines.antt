-- ===== src/Storage/Local/Refines.antt =====
-- The local storage implements the registry.
use affinidi_trust_registry.Domain.TrustRecord.{TrustRecord}
use affinidi_trust_registry.Storage.Repository.{TrustRecordQuery}
use affinidi_trust_registry.Storage.Key.{key_eq, from_record, from_query, generate_key}
use affinidi_trust_registry.Storage.Registry.{
  Registry, Means, Means-intro, ListsAll, Implements, find_in, create_in, update_in, delete_in,
  read_in, create_in-none, create_in-some, update_in-none, update_in-some, delete_in-none,
  delete_in-some,
}
use affinidi_trust_registry.Storage.Local.{
  LocalStorage, find_by_query, create, update, delete, list, read, local_repository,
}
use affinidi_trust_registry.Storage.Local.Map.{
  IsValidMap, map_view, insert-IsValidMap, remove-IsValidMap, map_view-insert, map_view-remove,
  find-values, values-IsListing,
}
use affinidi_trust_registry.Prelude.HashMap.{get, contains_key, insert, remove, remove_absent}
use affinidi_trust_registry.Prelude.{refl, inl, inr, Option-cases, arith, ok}

abbrev pub IsValid : LocalStorage → Type 0
IsValid s = IsValidMap s.records

abbrev pub view : LocalStorage → Registry
view s = map_view s.records

module _ (s : LocalStorage) (v : IsValid s) where
  find-Means : (q : TrustRecordQuery) → Means IsValid view (find_by_query q) (find_in q) s
  unfolding find_by_query
  find-Means q = record {
    result = rw (find-values q s.records v.keyed);
    view_after = refl;
    valid_after = v;
  }

  read-Means : (q : TrustRecordQuery) → Means IsValid view (read q) (read_in q) s
  unfolding read from_query
  read-Means q = record {
    result = rw (find-values q s.records v.keyed);
    view_after = refl;
    valid_after = v;
  }

  list-ListsAll : ListsAll IsValid view list s
  unfolding list
  list-ListsAll = record {
    all = _;
    result = refl;
    listing = values-IsListing s.records v;
    view_after = refl;
    valid_after = v;
  }

  create-Means : (r : TrustRecord) → Means IsValid view (create r) (create_in r) s
  unfolding create contains_key generate_key
  create-Means r = elim (Option-cases (get (from_record r) s.records)) [
    | inl absent ↦
        Means-intro IsValid view (create r) (create_in r) s
          (record { records = insert (from_record r) r s.records }) (ok tt) _ (ground arith)
          (create_in-none r (view s) absent) (map_view-insert r s.records)
          (insert-IsValidMap r s.records v)
    | inr (old, present) ↦
        Means-intro IsValid view (create r) (create_in r) s s _ (view s) (ground arith)
          (create_in-some r (view s) present) refl v
  ]

  update-Means : (r : TrustRecord) → Means IsValid view (update r) (update_in r) s
  unfolding update contains_key generate_key
  update-Means r = elim (Option-cases (get (from_record r) s.records)) [
    | inl absent ↦
        Means-intro IsValid view (update r) (update_in r) s s _ (view s) (ground arith)
          (update_in-none r (view s) absent) refl v
    | inr (old, present) ↦
        Means-intro IsValid view (update r) (update_in r) s
          (record { records = insert (from_record r) r s.records }) (ok tt) _ (ground arith)
          (update_in-some r (view s) present) (map_view-insert r s.records)
          (insert-IsValidMap r s.records v)
  ]

  delete-Means : (q : TrustRecordQuery) → Means IsValid view (delete q) (delete_in q) s
  unfolding delete generate_key
  delete-Means q = elim (Option-cases (get (from_query q) s.records)) [
    | inl absent ↦
        Means-intro IsValid view (delete q) (delete_in q) s s _ (view s)
          (ground (arith, remove_absent (from_query q) s.records))
          (delete_in-none q (view s) absent) refl v
    | inr (old, present) ↦
        Means-intro IsValid view (delete q) (delete_in q) s
          (record { records = remove (from_query q) s.records }) (ok tt) _ (ground arith)
          (delete_in-some q (view s) present) (map_view-remove (from_query q) s.records)
          (remove-IsValidMap (from_query q) s.records v)
  ]

-- The local storage implements the registry: from every valid state, each of the six methods
-- gives the result, or the error with its message, that the registry gives, and leaves a valid
-- state that stands for the registry's next value; `list` returns every record once.
pub local_repository-Implements : Implements IsValid view local_repository
local_repository-Implements = record {
  keyed = record {
    find = λ q s _ v. find-Means s v q;
    create = λ r s _ v. create-Means s v r;
    update = λ r s _ v. update-Means s v r;
    delete = λ q s _ v. delete-Means s v q;
    read = λ q s _ v. read-Means s v q;
  };
  list = λ s v. list-ListsAll s v;
}
