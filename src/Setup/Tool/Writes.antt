-- ===== src/Setup/Tool/Writes.antt =====
-- What the file of variables holds that the setup wrote, as the tool reads it.
use affinidi_trust_registry.Setup.EnvFile.{Files, Vars, read_vars}
use affinidi_trust_registry.Setup.EnvFile.Update.{Keeps, Fits}
use affinidi_trust_registry.Setup.EnvFile.Reread.{variables_before, insert_env_vars-Updated}
use affinidi_trust_registry.Setup.Acl.{AclService}
use affinidi_trust_registry.Setup.Did.{Secret, Peer}
use affinidi_trust_registry.Setup.Arguments.{Args, given, bool_text, server_vars}
use affinidi_trust_registry.Setup.Tool.{Outside, profile_of, main}
use affinidi_trust_registry.Prelude.HashMap.{get, insert, NodupKeys}
use affinidi_trust_registry.Prelude.{
  String, ◌≡◌, ◌⊎◌, refl, sym, ap, ◌∙◌, subst, List, false, if◌then◌else◌, Option, some, or_else,
  unwrap_or, Result, ok, err, All, ◌==◌, string_eq, String-discrete, Option-cases, inl, inr,
}

-- The backends that the argument parser admits
abbrev pub IsBackend : String → Type 0
IsBackend s = (s ≡ "csv") ⊎ (s ≡ "ddb")

-- The name of the variable that says where the records are, and its value
abbrev pub location_name : Args → String
location_name args = if args.storage_backend == "csv" then "FILE_STORAGE_PATH" else "DDB_TABLE_NAME"

abbrev pub location : Args → Option String
location args =
    if args.storage_backend == "csv" then args.file_storage_path else args.ddb_table_name

-- The variables name what the arguments say.
pub record Names (args : Args) (profile : String) (vars : Vars) : Type 0 where
  pub backend : get "TR_STORAGE_BACKEND" vars ≡ some args.storage_backend
  pub place : get (location_name args) vars ≡ location args
  pub is_placed : (there : String) × (location args ≡ some there)
  pub profile_config : get "PROFILE_CONFIG" vars ≡ some profile
  pub mediator_did : get "MEDIATOR_DID" vars ≡ some (given args.mediator_did)
  pub admin_dids : get "ADMIN_DIDS" vars ≡ some (given args.admin_dids)
  pub only_admin :
      get "ONLY_ADMIN_OPERATIONS" vars
      ≡ some (bool_text (unwrap_or args.only_admin_operations false))
  pub is_formatted : (format : String) × (args.audit_log_format ≡ some format)
  pub audit_format : get "AUDIT_LOG_FORMAT" vars ≡ args.audit_log_format

abbrev NamesResult : Args → String → Result Vars String → Type 0
NamesResult args profile (ok vars) = Names args profile vars × NodupKeys vars
NamesResult args profile (err problem) = Unit

server_vars_csv :
    (args : Args) (profile : String)
    → args.storage_backend ≡ "csv"
    → NamesResult args profile (server_vars args profile)
unfolding server_vars get insert String-discrete
server_vars_csv args profile e = elim (Option-cases args.file_storage_path) [
  | inl absent ↦ rw (e, absent) tt
  | inr (path, there) ↦ elim (Option-cases args.audit_log_format) [
    | inl absent ↦ rw (e, there, absent) tt
    | inr (format, f) ↦
        rw (e, there, f)
          (
            record {
              backend = ap some e;
              place = refl;
              is_placed = (path, refl);
              profile_config = refl;
              mediator_did = refl;
              admin_dids = refl;
              only_admin = refl;
              is_formatted = (format, refl);
              audit_format = refl;
            },
            (refl, (refl, (refl, (refl, (refl, (refl, (refl, tt))))))),
          )
  ]
]

server_vars_ddb :
    (args : Args) (profile : String)
    → args.storage_backend ≡ "ddb"
    → NamesResult args profile (server_vars args profile)
unfolding server_vars get insert String-discrete
server_vars_ddb args profile e = elim (Option-cases args.ddb_table_name) [
  | inl absent ↦ rw (e, absent) tt
  | inr (table_name, there) ↦ elim (Option-cases args.audit_log_format) [
    | inl absent ↦ rw (e, there, absent) tt
    | inr (format, f) ↦
        rw (e, there, f)
          (
            record {
              backend = ap some e;
              place = refl;
              is_placed = (table_name, refl);
              profile_config = refl;
              mediator_did = refl;
              admin_dids = refl;
              only_admin = refl;
              is_formatted = (format, refl);
              audit_format = refl;
            },
            (refl, (refl, (refl, (refl, (refl, (refl, (refl, tt))))))),
          )
  ]
]

server_vars-Names :
    (args : Args) (profile : String) (vars : Vars)
    → IsBackend args.storage_backend
    → server_vars args profile ≡ ok vars
    → Names args profile vars × NodupKeys vars
server_vars-Names args profile vars (inl e) h =
    subst (NamesResult args profile) h (server_vars_csv args profile e)
server_vars-Names args profile vars (inr e) h =
    subst (NamesResult args profile) h (server_vars_ddb args profile e)

-- A value that is there stays when older variables stand behind.
module _ (vars old new : Vars)
    (values : (name : String) → get name new ≡ or_else (get name vars) (get name old)) where
  stays : (name : String) {value : String} → get name vars ≡ some value → get name new ≡ some value
  stays name h = values name ∙ ap (λ o. or_else o (get name old)) h

  stay-Names : (args : Args) (profile : String) → Names args profile vars → Names args profile new
  stay-Names args profile n =
      let (there, placed) = n.is_placed in
      let (format, formatted) = n.is_formatted in
      record {
        backend = stays "TR_STORAGE_BACKEND" n.backend;
        place = stays (location_name args) (n.place ∙ placed) ∙ sym placed;
        is_placed = (there, placed);
        profile_config = stays "PROFILE_CONFIG" n.profile_config;
        mediator_did = stays "MEDIATOR_DID" n.mediator_did;
        admin_dids = stays "ADMIN_DIDS" n.admin_dids;
        only_admin = stays "ONLY_ADMIN_OPERATIONS" n.only_admin;
        is_formatted = (format, formatted);
        audit_format = stays "AUDIT_LOG_FORMAT" (n.audit_format ∙ formatted) ∙ sym formatted;
      }

module _ {W K Meta AclSet : Type 0} (outside : Outside W K) (files : Files W) (peer : Peer W K)
    (acl : AclService W Meta AclSet (Secret K)) (contents : String → W → List String)
    (keeps : Keeps contents files) where
  -- The tool succeeds, and reads the file that it leaves as variables that name what the arguments
  -- say.
  pub record Writes (args : Args) (profile : String) (r : Result (Unit {0}) String) (w : W)
      : Type 0 where
    pub vars : Vars
    pub fine : r ≡ ok tt
    pub reread : (read_vars files "./.env" w).0 ≡ ok vars
    pub names : Names args profile vars

  -- If the setup gets as far as the variables of the service, each of which fits a line, then it
  -- succeeds, and the tool's own reader finds in the file `.env` that it leaves, whatever variables
  -- were there before or in the example, the values that the arguments give: the backend, its path or
  -- table, the profile, the mediator, the administrators, whether only they may write, and the format
  -- of the audit.
  pub main-Writes :
      (args : Args) (w w1 : W) (profile : String) (vars : Vars)
      → IsBackend args.storage_backend
      → profile_of outside files peer acl args w ≡ (ok profile, w1)
      → server_vars args profile ≡ ok vars
      → All Fits vars
      → Writes args profile
          (main outside files peer acl args w).0
          (main outside files peer acl args w).1
  unfolding main
  main-Writes args w w1 profile vars b p v f =
      let (names, distinct) = server_vars-Names args profile vars b v in
      let u =
        insert_env_vars-Updated contents files keeps "./.env" vars (some "./.env.example") w1 f
          distinct in
      let old = variables_before contents files keeps "./.env" (some "./.env.example") w1 in
      let kept = stay-Names vars old u.vars u.values args profile names in
      rw (p, v) (record { vars = u.vars; fine = u.fine; reread = u.reread; names = kept })
