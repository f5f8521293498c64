-- ===== src/Storage/Redis/Crossed.antt =====
-- Two records whose identifiers hold the separator share one entry of the database.
use affinidi_trust_registry.Domain.TrustRecord.{TrustRecord}
use affinidi_trust_registry.Storage.Repository.{TrustRecordQuery}
use affinidi_trust_registry.Storage.Key.Separator.{key_text_collision}
use affinidi_trust_registry.Storage.Redis.{
  RedisConnection, RecordText, create, find_by_query, key_from_record, key_from_query,
}
use affinidi_trust_registry.Storage.Redis.Laws.{IsRedis}
use affinidi_trust_registry.Prelude.{String, ◌<>◌, ◌≡◌, none, some, ok, arith, string_eq}

module _ {W : Type 0} {conn : RedisConnection W} {text : RecordText} (law : IsRedis conn text) where
  -- A record that has been created is found by every query with the same text.
  find_by_query-create :
      (r : TrustRecord) (q : TrustRecordQuery) (w : W)
      → key_from_record r ≡ key_from_query q
      → law.IsOnline w
      → law.contents w (key_from_record r) ≡ none
      → (find_by_query conn text q (create conn text r w).1).0 ≡ ok (some r)
  unfolding find_by_query create
  find_by_query-create r q w e online free =
      let k = key_from_record r in
      let w' = law.after_set k (law.written r) w in
      ground (
        arith,
        law.exists_online k w online,
        law.to_string_written r,
        law.set_online k (law.written r) w online,
        law.get_online k w' (law.online_set k (law.written r) w online),
        law.contents_set k (law.written r) k w,
        law.from_str_written r,
      )

  -- In Redis, a record of the entity `x` under the authority `y|z`, created where its key text is
  -- free and the server is reached, is what a query for the entity `x|y` under the authority `z`
  -- and the same action and resource then finds, for all texts `x`, `y` and `z`.
  pub find_by_query-create_crossed :
      (x y z : String) (r : TrustRecord) (w : W)
      → r.entity_id ≡ record { text = x }
      → r.authority_id ≡ record { text = y <> "|" <> z }
      → law.IsOnline w
      → law.contents w (key_from_record r) ≡ none
      → (find_by_query conn text
          record {
            entity_id = record { text = x <> "|" <> y };
            authority_id = record { text = z };
            action = r.action;
            resource = r.resource;
          }
          (create conn text r w).1).0
        ≡ ok (some r)
  find_by_query-create_crossed x y z r w e e' online free =
      find_by_query-create r _ w
        (unfold key_from_record key_from_query in
          ground (arith, key_text_collision x y z r.action r.resource))
        online free
