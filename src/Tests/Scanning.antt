-- ===== src/Tests/Scanning.antt =====
-- The keys of a database in memory, and the list of its records.
use affinidi_trust_registry.Storage.Redis
use affinidi_trust_registry.Storage.Redis.Listing.{Held, HasKeys, ListsReadable, list-ListsReadable}
use affinidi_trust_registry.Tests.Database.{Database, keys_of, connection, connection_law, text}
use affinidi_trust_registry.Tests.Fixtures.{passport}
use affinidi_trust_registry.Prelude.HashMap.{get}
use affinidi_trust_registry.Prelude.{
  String, string_eq, ◌≡◌, refl, true, is_some, [], ◌∷◌, inl, inr, String-discrete, arith,
}

-- Every key that is there is one of the keys.
keys_of-Held : (k : String) (db : Database) → is_some (get k db) ≡ true → Held k (keys_of db)
unfolding get
keys_of-Held k [] h = absurd (let x : ⊥ = cc in x)
keys_of-Held k ((j, v) ∷ db) h = elim (String-discrete j k) [
  | yes same ↦ inl same
  | no other ↦ inr (keys_of-Held k db (ground arith))
]

abbrev keys : HasKeys connection_law
keys = record {
  matching = keys_of;
  keys_online = λ db online. refl;
  matching-key_text = λ key db there. keys_of-Held _ db there;
}

abbrev database : Database
database = (Redis.create connection text passport []).1

list-ListsReadable_example : ListsReadable connection_law keys database
list-ListsReadable_example = list-ListsReadable connection_law keys database tt
