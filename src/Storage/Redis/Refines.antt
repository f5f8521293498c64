-- ===== src/Storage/Redis/Refines.antt =====
-- The Redis adapter implements the registry at the keys whose text is theirs alone.
use affinidi_trust_registry.Domain.TrustRecord.{TrustRecord}
use affinidi_trust_registry.Storage.Repository.{TrustRecordQuery}
use affinidi_trust_registry.Storage.Key.{RecordKey, key_text, from_record, from_query}
use affinidi_trust_registry.Storage.Key.Separator.{is_plain}
use affinidi_trust_registry.Storage.Registry.{
  Registry, assign, assign-none, not_found, already_exists, Means, Means-intro, ImplementsKeyed,
  find_in, create_in, update_in, delete_in, read_in, create_in-none, create_in-some, update_in-none,
  update_in-some, delete_in-none, delete_in-some,
}
use affinidi_trust_registry.Storage.Redis.{
  RedisConnection, RecordText, find_by_query, create, update, delete, read, redis_repository,
}
use affinidi_trust_registry.Storage.Redis.Laws.{IsRedis}
use affinidi_trust_registry.Storage.Key.Decoded.{decoded, decoded-change}
use affinidi_trust_registry.Prelude.{
  String, ◌≡◌, ◌⊎◌, Option, refl, true, none, some, ok, err, arith, Option-cases, inl, inr,
  String-discrete, ok?, ◌∙◌, ap,
}

module _ {W : Type 0} {conn : RedisConnection W} {text : RecordText} (law : IsRedis conn text) where
  abbrev pub decode : String → Option TrustRecord
  decode t = ok? (text.from_str t)

  abbrev pub view : W → Registry
  view w = decoded decode (law.contents w)

  -- The server is reached, and what stands under the text of a key can be read.
  pub record IsValid (w : W) : Type 0 where
    pub online : law.IsOnline w
    pub readable :
        (k : RecordKey) (t : String)
        → is_plain k ≡ true
        → law.contents w (key_text k) ≡ some t
        → (r : TrustRecord) × (text.from_str t ≡ ok r)

  -- Under a key there is nothing, in the database and in the registry, or a text and its record.
  holds :
      (k : RecordKey) (w : W)
      → IsValid w
      → is_plain k ≡ true
      → ((law.contents w (key_text k) ≡ none) × (view w k ≡ none))
        ⊎ ((t : String) × (r : TrustRecord) × (law.contents w (key_text k) ≡ some t)
            × (text.from_str t ≡ ok r)
            × (view w k ≡ some r))
  holds k w v p = elim (Option-cases (law.contents w (key_text k))) [
    | inl absent ↦ inl (absent, ground arith)
    | inr (t, present) ↦
        let (r, e) = v.readable k t p present in inr (t, r, present, e, ground arith)
  ]

  set-IsValid :
      (k : String) (r : TrustRecord) (w : W)
      → IsValid w
      → IsValid (law.after_set k (law.written r) w)
  set-IsValid k r w v = record {
    online = law.online_set k (law.written r) w v.online;
    readable = λ j t p e. elim (String-discrete k (key_text j)) [
      | yes same ↦ (
        r,
        ground (arith, law.contents_set k (law.written r) (key_text j) w, law.from_str_written r),
      )
      | no other ↦
          v.readable j t p (ground (arith, law.contents_set k (law.written r) (key_text j) w))
    ];
  }

  del-IsValid : (k : String) (w : W) → IsValid w → IsValid (law.after_del k w)
  del-IsValid k w v = record {
    online = law.online_del k w v.online;
    readable = λ j t p e. v.readable j t p (ground (arith, law.contents_del k (key_text j) w));
  }

  view-set :
      (r : TrustRecord) (w : W)
      → is_plain (from_record r) ≡ true
      → view (law.after_set (key_text (from_record r)) (law.written r) w)
        ≡ assign (from_record r) (some r) (view w)
  view-set r w p =
      let k = from_record r in
      decoded-change decode (law.contents w)
        (law.contents (law.after_set (key_text k) (law.written r) w)) k p (some (law.written r))
        (λ j. law.contents_set (key_text k) (law.written r) j w)
      ∙ ap (λ o. assign k (ok? o) (view w)) (law.from_str_written r)

  find-Means :
      (q : TrustRecordQuery) (w : W)
      → is_plain (from_query q) ≡ true
      → IsValid w
      → Means IsValid view (find_by_query conn text q) (find_in q) w
  unfolding find_by_query from_query
  find-Means q w p v = elim (holds (from_query q) w v p) [
    | inl (absent, missing) ↦
        Means-intro IsValid view _ (find_in q) w w (ok none) (view w)
          (ground (arith, law.get_online (key_text (from_query q)) w v.online)) (ground arith) refl
          v
    | inr (t, r, present, readable, found) ↦
        Means-intro IsValid view _ (find_in q) w w (ok (some r)) (view w)
          (ground (arith, law.get_online (key_text (from_query q)) w v.online)) (ground arith) refl
          v
  ]

  read-Means :
      (q : TrustRecordQuery) (w : W)
      → is_plain (from_query q) ≡ true
      → IsValid w
      → Means IsValid view (read conn text q) (read_in q) w
  unfolding read from_query
  read-Means q w p v = elim (holds (from_query q) w v p) [
    | inl (absent, missing) ↦
        Means-intro IsValid view _ (read_in q) w w (err (not_found (from_query q))) (view w)
          (ground (arith, law.get_online (key_text (from_query q)) w v.online)) (ground arith) refl
          v
    | inr (t, r, present, readable, found) ↦
        Means-intro IsValid view _ (read_in q) w w (ok r) (view w)
          (ground (arith, law.get_online (key_text (from_query q)) w v.online)) (ground arith) refl
          v
  ]

  module _ (r : TrustRecord) (w : W) (p : is_plain (from_record r) ≡ true) (v : IsValid w) where
    create-Means : Means IsValid view (create conn text r) (create_in r) w
    unfolding create from_record
    create-Means =
        let k = key_text (from_record r) in
        elim (holds (from_record r) w v p) [
          | inl (absent, missing) ↦
              Means-intro IsValid view _ (create_in r) w (law.after_set k (law.written r) w) (ok tt)
                _
                (ground (
                  arith,
                  law.exists_online k w v.online,
                  law.to_string_written r,
                  law.set_online k (law.written r) w v.online,
                ))
                (create_in-none r (view w) missing) (view-set r w p) (set-IsValid k r w v)
          | inr (t, old, present, readable, found) ↦
              Means-intro IsValid view _ (create_in r) w w (err (already_exists (from_record r)))
                (view w) (ground (arith, law.exists_online k w v.online))
                (create_in-some r (view w) found) refl v
        ]

    update-Means : Means IsValid view (update conn text r) (update_in r) w
    unfolding update from_record
    update-Means =
        let k = key_text (from_record r) in
        elim (holds (from_record r) w v p) [
          | inl (absent, missing) ↦
              Means-intro IsValid view _ (update_in r) w w (err (not_found (from_record r)))
                (view w) (ground (arith, law.exists_online k w v.online))
                (update_in-none r (view w) missing) refl v
          | inr (t, old, present, readable, found) ↦
              Means-intro IsValid view _ (update_in r) w (law.after_set k (law.written r) w) (ok tt)
                _
                (ground (
                  arith,
                  law.exists_online k w v.online,
                  law.to_string_written r,
                  law.set_online k (law.written r) w v.online,
                ))
                (update_in-some r (view w) found) (view-set r w p) (set-IsValid k r w v)
        ]

  delete-Means :
      (q : TrustRecordQuery) (w : W)
      → is_plain (from_query q) ≡ true
      → IsValid w
      → Means IsValid view (delete conn text q) (delete_in q) w
  unfolding delete from_query
  delete-Means q w p v =
      let k = from_query q in
      let erased =
        decoded-change decode (law.contents w) (law.contents (law.after_del (key_text k) w)) k p
          none (λ j. law.contents_del (key_text k) j w) in
      elim (holds (from_query q) w v p) [
        | inl (absent, missing) ↦
            Means-intro IsValid view _ (delete_in q) w (law.after_del (key_text k) w)
              (err (not_found k)) (view w) (ground (arith, law.del_online (key_text k) w v.online))
              (delete_in-none q (view w) missing) (erased ∙ assign-none k (view w) missing)
              (del-IsValid (key_text k) w v)
        | inr (t, r, present, readable, found) ↦
            Means-intro IsValid view _ (delete_in q) w (law.after_del (key_text k) w) (ok tt) _
              (ground (arith, law.del_online (key_text k) w v.online))
              (delete_in-some q (view w) found) erased (del-IsValid (key_text k) w v)
      ]

  -- While the server is reached, the Redis adapter implements the methods of the registry that
  -- speak of one key, at every key whose first three parts hold no `|`.
  pub redis_repository-Implements :
      ImplementsKeyed IsValid view (λ k. is_plain k ≡ true) (redis_repository conn text)
  redis_repository-Implements = record {
    find = find-Means;
    create = λ r w p v. create-Means r w p v;
    update = λ r w p v. update-Means r w p v;
    delete = delete-Means;
    read = read-Means;
  }
