-- ===== src/Storage/Redis/Laws.antt =====
-- What the Redis adapter relies on: the commands as Redis documents them, while the server is
-- reached, and the text form of a record, which is read back as the record.
use affinidi_trust_registry.Domain.TrustRecord.{TrustRecord}
use affinidi_trust_registry.Storage.Key.{key_eq}
use affinidi_trust_registry.Storage.Redis.{RedisConnection, RecordText}
use affinidi_trust_registry.Prelude.{
  ℕ, String, ◌≡◌, Option, none, some, ok, is_some, if◌then◌else◌, ◌==◌, string_eq,
}

-- How many keys DEL has removed
abbrev pub removed : Option String → ℕ
removed none = 0
removed (some _) = 1

pub record IsRedis {W : Type 0} (conn : RedisConnection W) (text : RecordText) : Type 1 where
  pub contents : W → String → Option String
  pub IsOnline : W → Type 0
  pub after_set : String → String → W → W
  pub after_del : String → W → W
  pub get_online : (k : String) (w : W) → IsOnline w → conn.get k w ≡ (ok (contents w k), w)
  pub exists_online :
      (k : String) (w : W) → IsOnline w → conn.exists k w ≡ (ok (is_some (contents w k)), w)
  pub set_online : (k v : String) (w : W) → IsOnline w → conn.set k v w ≡ (ok tt, after_set k v w)
  pub del_online :
      (k : String) (w : W)
      → IsOnline w
      → conn.del k w ≡ (ok (removed (contents w k)), after_del k w)
  pub contents_set :
      (k v j : String) (w : W)
      → contents (after_set k v w) j ≡ (if k == j then some v else contents w j)
  pub contents_del :
      (k j : String) (w : W) → contents (after_del k w) j ≡ (if k == j then none else contents w j)
  pub online_set : (k v : String) (w : W) → IsOnline w → IsOnline (after_set k v w)
  pub online_del : (k : String) (w : W) → IsOnline w → IsOnline (after_del k w)
  pub written : TrustRecord → String
  pub to_string_written : (r : TrustRecord) → text.to_string r ≡ ok (written r)
  pub from_str_written : (r : TrustRecord) → text.from_str (written r) ≡ ok r
