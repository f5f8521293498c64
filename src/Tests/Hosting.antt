-- ===== src/Tests/Hosting.antt =====
-- A host in memory: what was written last, and the setup of a did:web on it.
use affinidi_trust_registry.Json.{null, get_key, as_str}
use affinidi_trust_registry.Setup.Did.{Secret}
use affinidi_trust_registry.Setup.Document.{Jwks, document_of, secrets_of}
use affinidi_trust_registry.Setup.Hosted.{Host, setup_did_web_tr}
use affinidi_trust_registry.Setup.Hosted.Saves.{Hosted, KeepsId, setup_did_web_tr-Hosted}
use affinidi_trust_registry.Prelude.HashMap.{insert}
use affinidi_trust_registry.Prelude.Text.{replace}
use affinidi_trust_registry.Prelude.{
  String, ◌≡◌, refl, sym, ap, Option, none, some, and_then, List, [], ◌∷◌, Result, ok, err,
  string_eq, String-discrete,
}

-- A secret without an `id` has none.
abbrev read_secret : Option String → Result (Secret (Unit {0})) String
read_secret none = err "missing field `id`"
read_secret (some id) = ok (record { id = id; key = tt })

abbrev jwks : Jwks (Unit {0})
jwks = record {
  jwk = λ key. some null;
  from_value = λ value. read_secret (and_then (get_key "id" value) as_str);
}

abbrev secret_id : Result (Secret (Unit {0})) String → String
secret_id (ok secret) = secret.id
secret_id (err problem) = ""

jwks-KeepsId : KeepsId jwks
unfolding get_key String-discrete
jwks-KeepsId id jwk secret h = ap secret_id (sym h)

-- The state is the text that was written last.
abbrev host : Host String (Unit {0}) (Unit {0})
host = record {
  urls = record { parse = λ url. ok url; document_id = λ did. ok did };
  jwks = jwks;
  web_url = λ url. ok "did:webvh:{SCID}:host";
  generate_p256 = λ disk. (ok (record { id = ""; key = tt }), disk);
  generate_secp256k1 = λ disk. (ok (record { id = ""; key = tt }), disk);
  generate_ed25519 = λ disk. (ok (record { id = ""; key = tt }), disk);
  multibase = λ key. ok "zKey";
  multibase_hash = λ key. ok "zHash";
  to_value = λ document. ok null;
  from_value = λ value. err "not a document";
  to_string_pretty = λ document. ok document.id;
  value_text = λ value. "null";
  create_log_entry = λ value parameters update disk. (ok tt, disk);
  state = λ entry. null;
  log_document = λ entry. ok null;
  save_log = λ entry path disk. (ok tt, disk);
  create_file = λ path disk. (ok tt, "");
  write_all = λ path text disk. (ok tt, text);
  press_key = λ disk. (ok tt, disk);
}

abbrev secrets : List (Secret (Unit {0}))
secrets =
    record { id = "did:web:host#key-1"; key = tt }
    ∷ record { id = "did:web:host#key-2"; key = tt }
    ∷ []

host-run :
    setup_did_web_tr host "https://mediator" "https://host" "web" ""
    ≡ (ok ("did:web:host", secrets), "did:web:host")
unfolding setup_did_web_tr replace document_of secrets_of get_key insert String-discrete
host-run = refl

setup_did_web_tr-Hosted_example :
    (url_text : String) × (host.web_url "https://host" ≡ ok url_text)
    × ("did:web:host" ≡ replace "webvh:{SCID}" "web" url_text)
    × Hosted host "did:web:host" secrets "did:web:host"
setup_did_web_tr-Hosted_example =
    setup_did_web_tr-Hosted host jwks-KeepsId "https://mediator" "https://host" "" host-run
