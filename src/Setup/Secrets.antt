-- ===== src/Setup/Secrets.antt =====
-- `main` of trust-registry/bin/generate_secrets.rs: three new DIDs, opened at the mediator, and the
-- files of variables for a pipeline, or for a service and its tests.
use affinidi_trust_registry.Json.{Value, str, object}
use affinidi_trust_registry.Configs.Environment.{Environment}
use affinidi_trust_registry.Setup.EnvFile.{Files, insert_env_vars}
use affinidi_trust_registry.Setup.Acl.{AclService}
use affinidi_trust_registry.Setup.Did.{Secret, Peer, create_did}
use affinidi_trust_registry.Setup.Arguments.{quoted, test_vars}
use affinidi_trust_registry.Setup.Tool.{Outside, set_acls}
use affinidi_trust_registry.Prelude.Text.{lowercase_is}
use affinidi_trust_registry.Prelude.HashMap.{insert}
use affinidi_trust_registry.Prelude.Effect.{Effect, lift, ◌>>=◌, ◌>>◌}
use affinidi_trust_registry.Prelude.{
  String, Bool, true, false, some, none, unwrap_or, List, [], ◌∷◌, ok_or, string_eq,
}

module _ {W K Meta AclSet : Type 0} (outside : Outside W K) (files : Files W) (peer : Peer W K)
    (acl : AclService W Meta AclSet (Secret K)) where
  abbrev registry_profile : (alias : String) → String × List (Secret K) → Value
  registry_profile alias made =
      object (
        ("did", str made.0) ∷ ("alias", str alias) ∷ ("secrets", outside.secrets_value made.1) ∷ [])

  -- The two branches on `in_pipeline`
  unfoldable pub write_files :
      (in_pipeline : Bool)
      → (mediator_did client_secrets test_profile : String)
      → (tr test_tr client : String × List (Secret K)) → Effect W String (Unit {0})
  write_files true mediator_did client_secrets test_profile tr test_tr client =
      insert_env_vars files "./.env.pipeline"
        (test_vars test_tr.0 client.0 client_secrets test_profile) none
  write_files false mediator_did client_secrets test_profile tr test_tr client = do
    profile ← lift (outside.to_string (registry_profile "Trust Registry" tr))
    insert_env_vars files "./.env"
        (insert "MEDIATOR_DID" mediator_did (insert "PROFILE_CONFIG" (quoted profile) []))
        (some "./.env.example")
    insert_env_vars files "./.env.test"
        (insert "MEDIATOR_DID" mediator_did
          (test_vars test_tr.0 client.0 client_secrets test_profile))
        (some "./testing/.env.test.example")

  unfoldable pub generate_main : Environment → Effect W String (Unit {0})
  unfolding write_files
  generate_main env = do
    mediator_url ← lift (ok_or (env "MEDIATOR_URL") "MEDIATOR_URL not set")
    mediator_did ← lift (ok_or (env "MEDIATOR_DID") "MEDIATOR_DID not set")
    tr ← create_did peer (some (mediator_url ∷ [])) true
    test_tr ← create_did peer (some (mediator_url ∷ [])) true
    client ← create_did peer (some (mediator_url ∷ [])) true
    set_acls outside files peer acl mediator_did (tr ∷ test_tr ∷ client ∷ [])
    secrets_text ← lift (outside.to_string (outside.secrets_value client.1))
    client_secrets ← lift (outside.to_string (str secrets_text))
    test_profile ← lift (outside.to_string (registry_profile "Test Trust Registry" test_tr))
    write_files (lowercase_is (unwrap_or (env "IN_PIPELINE") "false") "true") mediator_did
        client_secrets test_profile tr test_tr client
