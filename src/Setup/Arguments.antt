-- ===== src/Setup/Arguments.antt =====
-- The arguments of trust-registry/bin/setup_trust_registry.rs, and the variables for the service
-- that follow from them.
use affinidi_trust_registry.Setup.EnvFile.{Vars}
use affinidi_trust_registry.Prelude.HashMap.{insert}
use affinidi_trust_registry.Prelude.{
  String, ◌<>◌, Bool, false, ◌&&◌, not, if◌then◌else◌, Option, none, some, unwrap_or, [], Result,
  ok, err, ◌==◌, string_eq,
}

pub record Args : Type 0 where
  pub mediator_url : Option String
  pub mediator_did : Option String
  pub did_method : Option String
  pub didweb_url : Option String
  pub profile : Option String
  pub storage_backend : String
  pub file_storage_path : Option String
  pub ddb_table_name : Option String
  pub admin_dids : Option String
  pub tr_did : Option String
  pub tr_did_secret : Option String
  pub test_in_pipeline : Option Bool
  pub audit_log_format : Option String
  pub only_admin_operations : Option Bool

abbrev pub is_empty : String → Bool
is_empty s = s == ""

abbrev pub bool_text : Bool → String
bool_text b = if b then "true" else "false"

abbrev pub given : Option String → String
given o = unwrap_or o ""

-- `format!("'{}'", text)`
abbrev pub quoted : String → String
quoted text = "'" <> (text <> "'")

unfoldable pub enable_didcomm : Args → Bool
enable_didcomm args =
    not (is_empty (given args.mediator_url)) && not (is_empty (given args.mediator_did))

-- The variables of the storage backend
unfoldable pub storage_vars : Args → Vars → Result Vars String
storage_vars args vars =
    if args.storage_backend == "csv"
    then elim args.file_storage_path [
      | none ↦ err "Error: --file-storage-path is required when using csv storage"
      | some file_path ↦ ok (insert "FILE_STORAGE_PATH" file_path vars)
    ]
    else if args.storage_backend == "ddb"
    then elim args.ddb_table_name [
      | none ↦ err "Error: --ddb-table-name is required when using ddb storage"
      | some table_name ↦ ok (insert "DDB_TABLE_NAME" table_name vars)
    ]
    else ok vars

-- The variables that every service gets, before those of its storage
unfoldable pub service_vars : Args → (profile : String) → Vars
service_vars args profile = insert "TR_STORAGE_BACKEND" args.storage_backend (
    insert "ONLY_ADMIN_OPERATIONS" (bool_text (unwrap_or args.only_admin_operations false)) (
      insert "ADMIN_DIDS" (given args.admin_dids)
        (insert "MEDIATOR_DID" (given args.mediator_did) (insert "PROFILE_CONFIG" profile []))))

abbrev with_audit : Option String → Vars → Result Vars String
with_audit none vars = err "called `Option::unwrap()` on a `None` value"
with_audit (some format) vars = ok (insert "AUDIT_LOG_FORMAT" format vars)

abbrev then_audit : Args → Result Vars String → Result Vars String
then_audit args (err problem) = err problem
then_audit args (ok vars) = with_audit args.audit_log_format vars

unfoldable pub server_vars : Args → (profile : String) → Result Vars String
unfolding storage_vars service_vars
server_vars args profile = then_audit args (storage_vars args (service_vars args profile))

-- The variables that both test files get
abbrev pub test_vars : (tr_did client_did client_secrets profile_config : String) → Vars
test_vars tr_did client_did client_secrets profile_config =
    insert "PROFILE_CONFIG" (quoted profile_config) (
      insert "CLIENT_SECRETS" client_secrets (
        insert "ADMIN_DIDS" client_did
          (insert "CLIENT_DID" client_did (insert "TRUST_REGISTRY_DID" tr_did []))))
