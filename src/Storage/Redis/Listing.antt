-- ===== src/Storage/Redis/Listing.antt =====
-- `list` of the Redis adapter, which reads every key of the pattern `*|*|*|*` in turn.
use affinidi_trust_registry.Domain.TrustRecord.{TrustRecord}
use affinidi_trust_registry.Storage.Repository.{TrustRecordQuery, TrustRecordList}
use affinidi_trust_registry.Storage.Key.{RecordKey, key_text, from_query}
use affinidi_trust_registry.Storage.Registry.{Listed}
use affinidi_trust_registry.Storage.Redis.{
  RedisConnection, RecordText, pushed, collect, find_by_query, list, deserialize_record,
  key_from_query,
}
use affinidi_trust_registry.Storage.Redis.Laws.{IsRedis}
use affinidi_trust_registry.Prelude.{
  String, ◌≡◌, ◌⊎◌, refl, sym, ap, ◌∙◌, subst, Option, none, some, Option-cases, List, [], ◌∷◌,
  ◌++◌, ok, err, Result-cases, true, is_some, inl, inr, arith,
}

abbrev pub Held : String → List String → Type 0
Held k [] = ⊥
Held k (j ∷ ks) = (j ≡ k) ⊎ Held k ks

module _ (r : TrustRecord) where
  Listed-old : (xs : List TrustRecord) (y : TrustRecord) → Listed r xs → Listed r (xs ++ y ∷ [])
  Listed-old [] y h = elim h [ ]
  Listed-old (x ∷ xs) y (inl e) = inl e
  Listed-old (x ∷ xs) y (inr h) = inr (Listed-old xs y h)

  Listed-new : (xs : List TrustRecord) (y : TrustRecord) → y ≡ r → Listed r (xs ++ y ∷ [])
  Listed-new [] y e = inl e
  Listed-new (x ∷ xs) y e = inr (Listed-new xs y e)

  Listed-cases :
      (xs : List TrustRecord) (y : TrustRecord) → Listed r (xs ++ y ∷ []) → Listed r xs ⊎ (y ≡ r)
  Listed-cases [] y (inl e) = inr e
  Listed-cases [] y (inr h) = elim h [ ]
  Listed-cases (x ∷ xs) y (inl e) = inl (inl e)
  Listed-cases (x ∷ xs) y (inr h) = elim (Listed-cases xs y h) [
    | inl k ↦ inl (inr k)
    | inr e ↦ inr e
  ]

module _ {W : Type 0} {conn : RedisConnection W} {text : RecordText} (law : IsRedis conn text) where
  abbrev Reads : Option String → TrustRecord → Type 0
  Reads o r = (t : String) × (o ≡ some t) × (text.from_str t ≡ ok r)

  pushed-ok :
      (t : String) (acc : List TrustRecord) {x : TrustRecord}
      → text.from_str t ≡ ok x
      → pushed conn text (some t) acc ≡ acc ++ x ∷ []
  unfolding deserialize_record
  pushed-ok t acc e = rw (e, pushed) refl

  pushed-err :
      (t : String) (acc : List TrustRecord) {problem : String}
      → text.from_str t ≡ err problem
      → pushed conn text (some t) acc ≡ acc
  unfolding deserialize_record
  pushed-err t acc e = rw (e, pushed) refl

  pushed-old :
      (o : Option String) (acc : List TrustRecord) (r : TrustRecord)
      → Listed r acc
      → Listed r (pushed conn text o acc)
  pushed-old none acc r h = h
  pushed-old (some t) acc r h = elim (Result-cases (text.from_str t)) [
    | inl (x, e) ↦ subst (Listed r) (sym (pushed-ok t acc e)) (Listed-old r acc x h)
    | inr (problem, e) ↦ subst (Listed r) (sym (pushed-err t acc e)) h
  ]

  pushed-new :
      (o : Option String) (acc : List TrustRecord) (r : TrustRecord)
      → Reads o r
      → Listed r (pushed conn text o acc)
  pushed-new o acc r (t, e, f) =
      subst (λ p. Listed r (pushed conn text p acc)) (sym e)
        (subst (Listed r) (sym (pushed-ok t acc f)) (Listed-new r acc r refl))

  pushed-cases :
      (o : Option String) (acc : List TrustRecord) (r : TrustRecord)
      → Listed r (pushed conn text o acc)
      → Listed r acc ⊎ Reads o r
  pushed-cases none acc r h = inl h
  pushed-cases (some t) acc r h = elim (Result-cases (text.from_str t)) [
    | inl (x, e) ↦ elim (Listed-cases r acc x (subst (Listed r) (pushed-ok t acc e) h)) [
      | inl k ↦ inl k
      | inr same ↦ inr (t, refl, e ∙ ap ok same)
    ]
    | inr (problem, e) ↦ inl (subst (Listed r) (pushed-err t acc e) h)
  ]

  -- What the loop comes to: the records so far, and what can be read of the keys.
  record Collected (ks : List String) (acc : List TrustRecord) (w : W) : Type 0 where
    out : List TrustRecord
    run : collect conn text ks acc w ≡ (ok out, w)
    old : (r : TrustRecord) → Listed r acc → Listed r out
    new : (k : String) (r : TrustRecord) → Held k ks → Reads (law.contents w k) r → Listed r out
    cases :
        (r : TrustRecord)
        → Listed r out
        → Listed r acc ⊎ ((k : String) × Held k ks × Reads (law.contents w k) r)

  collect-Collected :
      (ks : List String) (acc : List TrustRecord) (w : W) → law.IsOnline w → Collected ks acc w
  unfolding collect
  collect-Collected [] acc w online = record {
    out = acc;
    run = refl;
    old = λ r h. h;
    new = λ k r h reads. elim h [ ];
    cases = λ r h. inl h;
  }
  collect-Collected (key ∷ ks) acc w online =
      let o = law.contents w key in
      let rest = collect-Collected ks (pushed conn text o acc) w online in
      record {
        out = rest.out;
        run = rw (law.get_online key w online) rest.run;
        old = λ r h. rest.old r (pushed-old o acc r h);
        new = λ k r h reads. elim h [
          | inl same ↦
              rest.old r
                (pushed-new o acc r (subst (λ j. Reads (law.contents w j) r) (sym same) reads))
          | inr later ↦ rest.new k r later reads
        ];
        cases = λ r h. elim (rest.cases r h) [
          | inl before ↦ elim (pushed-cases o acc r before) [
            | inl older ↦ inl older
            | inr reads ↦ inr (key, inl refl, reads)
          ]
          | inr (k, later, reads) ↦ inr (k, inr later, reads)
        ];
      }

  -- KEYS answers with the keys that match, which the text of a record's key does if it is there.
  pub record HasKeys : Type 0 where
    pub matching : W → List String
    pub keys_online : (w : W) → law.IsOnline w → conn.keys "*|*|*|*" w ≡ (ok (matching w), w)
    pub matching-key_text :
        (key : RecordKey) (w : W)
        → is_some (law.contents w (key_text key)) ≡ true
        → Held (key_text key) (matching w)

  -- The records of the list, which leaves the server as it is, are just those that can be read
  -- under some key that matches; and whatever a query finds is among them.
  pub record ListsReadable (keys : HasKeys) (w : W) : Type 0 where
    pub all : TrustRecordList
    pub run : list conn text w ≡ (ok all, w)
    pub stored :
        (r : TrustRecord)
        → Listed r all.records
        → (k : String) × (t : String) × Held k (keys.matching w)
          × (law.contents w k ≡ some t)
          × (text.from_str t ≡ ok r)
    pub found :
        (q : TrustRecordQuery) (r : TrustRecord)
        → (find_by_query conn text q w).0 ≡ ok (some r)
        → Listed r all.records

  find_by_query-Reads :
      (q : TrustRecordQuery) (r : TrustRecord) (w : W)
      → law.IsOnline w
      → (find_by_query conn text q w).0 ≡ ok (some r)
      → Reads (law.contents w (key_text (from_query q))) r
  unfolding find_by_query key_from_query deserialize_record from_query
  find_by_query-Reads q r w online h =
      let key = key_text (from_query q) in
      elim (Option-cases (law.contents w key)) [
        | inl absent ↦ absurd (ground (arith, law.get_online key w online))
        | inr (t, there) ↦ elim (Result-cases (text.from_str t)) [
          | inl (x, e) ↦ (t, there, ground (arith, law.get_online key w online))
          | inr (problem, e) ↦ absurd (ground (arith, law.get_online key w online))
        ]
      ]

  -- While the server is reached, and KEYS answers with the keys that match, `list` succeeds, leaves
  -- the server as it is, and gives just the records that can be read under such a key, among them
  -- whatever a query finds; what cannot be read is left out.
  pub list-ListsReadable : (keys : HasKeys) (w : W) → law.IsOnline w → ListsReadable keys w
  unfolding list
  list-ListsReadable keys w online =
      let c = collect-Collected (keys.matching w) [] w online in
      record {
        all = record { records = c.out };
        run = rw (keys.keys_online w online, c.run) refl;
        stored = λ r h. elim (c.cases r h) [
          | inl none_yet ↦ elim none_yet [ ]
          | inr (k, held, reads) ↦ let (t, there, e) = reads in (k, t, held, there, e)
        ];
        found = λ q r h.
            let reads = find_by_query-Reads q r w online h in
            c.new (key_text (from_query q)) r
              (keys.matching-key_text (from_query q) w (ap is_some reads.1)) reads;
      }
