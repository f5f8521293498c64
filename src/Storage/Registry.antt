-- ===== src/Storage/Registry.antt =====
-- What a repository promises: a trust registry is a partial function from keys to records, and
-- each method of the traits has its meaning there. An adapter implements the registry if every
-- method gives the result that the meaning gives, and leaves a store that stands for the registry
-- that the meaning leaves.
use affinidi_trust_registry.Domain.TrustRecord.{TrustRecord}
use affinidi_trust_registry.Storage.Repository.{
  TrustRecordQuery, TrustRecordList, RepositoryError, record_not_found, record_already_exists,
  Access, TrustRecordAdminRepository,
}
use affinidi_trust_registry.Storage.Key.{
  RecordKey, RecordKey-discrete, key_eq, key_text, from_record, from_query,
}
use affinidi_trust_registry.Prelude.{
  ◌<>◌, ◌≡◌, ◌≢◌, ◌↔◌, ◌⊎◌, Option, none, some, List, [], ◌∷◌, Result, ok, err, ok_or, ◌==◌,
  if◌then◌else◌, All, fun_ext, arith, ap,
}

abbrev pub Registry : Type 0
Registry = RecordKey → Option TrustRecord

abbrev pub not_found : RecordKey → RepositoryError
not_found k = record_not_found ("Record not found: " <> key_text k)

abbrev pub already_exists : RecordKey → RepositoryError
already_exists k = record_already_exists ("Record already exists: " <> key_text k)

abbrev pub assign : RecordKey → Option TrustRecord → Registry → Registry
assign k o reg j = if k == j then o else reg j

-- The meaning of the five methods that speak of one key
abbrev pub find_in :
    TrustRecordQuery → Registry → Result (Option TrustRecord) RepositoryError × Registry
find_in q reg = (ok (reg (from_query q)), reg)

abbrev pub read_in : TrustRecordQuery → Registry → Result TrustRecord RepositoryError × Registry
read_in q reg = (ok_or (reg (from_query q)) (not_found (from_query q)), reg)

abbrev pub create_in : TrustRecord → Registry → Result (Unit {0}) RepositoryError × Registry
create_in r reg =
    let k = from_record r in
    elim (reg k) [ none ↦ (ok tt, assign k (some r) reg) | some _ ↦ (err (already_exists k), reg) ]

abbrev pub update_in : TrustRecord → Registry → Result (Unit {0}) RepositoryError × Registry
update_in r reg =
    let k = from_record r in
    elim (reg k) [ none ↦ (err (not_found k), reg) | some _ ↦ (ok tt, assign k (some r) reg) ]

abbrev pub delete_in : TrustRecordQuery → Registry → Result (Unit {0}) RepositoryError × Registry
delete_in q reg =
    let k = from_query q in
    elim (reg k) [ none ↦ (err (not_found k), reg) | some _ ↦ (ok tt, assign k none reg) ]

-- A key that is free stays so.
pub assign-none : (k : RecordKey) (reg : Registry) → reg k ≡ none → assign k none reg ≡ reg
assign-none k reg h =
    fun_ext
      λ j. elim (RecordKey-discrete k j) [ yes e ↦ ground (arith, ap reg e) | no n ↦ ground arith ]

-- The meanings at a registry where the key is known to be free or taken
module _ (r : TrustRecord) (reg : Registry) where
  pub create_in-none :
      reg (from_record r) ≡ none → create_in r reg ≡ (ok tt, assign (from_record r) (some r) reg)
  create_in-none h = rw (h, create_in)

  pub create_in-some :
      {old : TrustRecord}
      → reg (from_record r) ≡ some old
      → create_in r reg ≡ (err (already_exists (from_record r)), reg)
  create_in-some h = rw (h, create_in)

  pub update_in-none :
      reg (from_record r) ≡ none → update_in r reg ≡ (err (not_found (from_record r)), reg)
  update_in-none h = rw (h, update_in)

  pub update_in-some :
      {old : TrustRecord}
      → reg (from_record r) ≡ some old
      → update_in r reg ≡ (ok tt, assign (from_record r) (some r) reg)
  update_in-some h = rw (h, update_in)

module _ (q : TrustRecordQuery) (reg : Registry) where
  pub delete_in-none :
      reg (from_query q) ≡ none → delete_in q reg ≡ (err (not_found (from_query q)), reg)
  delete_in-none h = rw (h, delete_in)

  pub delete_in-some :
      {old : TrustRecord}
      → reg (from_query q) ≡ some old
      → delete_in q reg ≡ (ok tt, assign (from_query q) none reg)
  delete_in-some h = rw (h, delete_in)

abbrev pub Listed : TrustRecord → List TrustRecord → Type 0
Listed r [] = ⊥
Listed r (x ∷ xs) = (x ≡ r) ⊎ Listed r xs

-- No two records of one key
abbrev pub DistinctKeys : List TrustRecord → Type 0
DistinctKeys [] = Unit
DistinctKeys (x ∷ xs) = All (λ y. from_record y ≢ from_record x) xs × DistinctKeys xs

-- The list holds the records of the registry, each once.
pub record IsListing (reg : Registry) (l : TrustRecordList) : Type 0 where
  pub listed_iff : (r : TrustRecord) → Listed r l.records ↔ (reg (from_record r) ≡ some r)
  pub distinct : DistinctKeys l.records

module _ {S : Type 0} (IsValid : S → Type 0) (view : S → Registry) where
  -- The method has the meaning, from every valid store, and leaves a valid one.
  pub record Means {A : Type 0} (method : Access S A)
      (meaning : Registry → Result A RepositoryError × Registry) (s : S) : Type 0 where
    pub result : (method s).0 ≡ (meaning (view s)).0
    pub view_after : view (method s).1 ≡ (meaning (view s)).1
    pub valid_after : IsValid (method s).1

  -- A method has its meaning if both come to the same result, and the store to the same registry.
  pub Means-intro :
      {A : Type 0} (method : Access S A) (meaning : Registry → Result A RepositoryError × Registry)
      (s s' : S) (a : Result A RepositoryError) (reg : Registry)
      → method s ≡ (a, s')
      → meaning (view s) ≡ (a, reg)
      → view s' ≡ reg
      → IsValid s'
      → Means method meaning s
  Means-intro method meaning s s' a reg e f w v = record {
    result = rw (e, f);
    view_after = rw (e, f) w;
    valid_after = rw e v;
  }

  pub record ListsAll (method : Access S TrustRecordList) (s : S) : Type 0 where
    pub all : TrustRecordList
    pub result : (method s).0 ≡ ok all
    pub listing : IsListing (view s) all
    pub view_after : view (method s).1 ≡ view s
    pub valid_after : IsValid (method s).1

  -- The methods that speak of one key, at the keys that the adapter accepts
  pub record ImplementsKeyed (accepts : RecordKey → Type 0) (repo : TrustRecordAdminRepository S)
      : Type 0 where
    pub find :
        (q : TrustRecordQuery) (s : S)
        → accepts (from_query q)
        → IsValid s
        → Means (repo.find_by_query q) (find_in q) s
    pub create :
        (r : TrustRecord) (s : S)
        → accepts (from_record r)
        → IsValid s
        → Means (repo.create r) (create_in r) s
    pub update :
        (r : TrustRecord) (s : S)
        → accepts (from_record r)
        → IsValid s
        → Means (repo.update r) (update_in r) s
    pub delete :
        (q : TrustRecordQuery) (s : S)
        → accepts (from_query q)
        → IsValid s
        → Means (repo.delete q) (delete_in q) s
    pub read :
        (q : TrustRecordQuery) (s : S)
        → accepts (from_query q)
        → IsValid s
        → Means (repo.read q) (read_in q) s

  -- The whole interface, at every key
  pub record Implements (repo : TrustRecordAdminRepository S) : Type 0 where
    pub keyed : ImplementsKeyed (λ _. Unit) repo
    pub open keyed use *
    pub list : (s : S) → IsValid s → ListsAll repo.list s
