-- ===== src/Tests/Setup.antt =====
-- A file system in memory, and the setup with it.
use affinidi_trust_registry.Didcomm.Listener.{explicit_allow}
use affinidi_trust_registry.Json.{null}
use affinidi_trust_registry.Setup.EnvFile.{Files, Vars, insert_env_vars}
use affinidi_trust_registry.Setup.EnvFile.Update.{Keeps, Fits}
use affinidi_trust_registry.Setup.EnvFile.Reread.{
  Updated, variables_before, insert_env_vars-Updated,
}
use affinidi_trust_registry.Setup.Acl.{AclService}
use affinidi_trust_registry.Setup.Did.{Secret, Peer}
use affinidi_trust_registry.Setup.Arguments.{Args, server_vars, enable_didcomm}
use affinidi_trust_registry.Setup.Tool.{Outside, profile_of, main}
use affinidi_trust_registry.Setup.Tool.Writes.{Writes, main-Writes}
use affinidi_trust_registry.Prelude.Text.{trim, trim_start, trim_end}
use affinidi_trust_registry.Prelude.Text.Laws.{lacks}
use affinidi_trust_registry.Prelude.HashMap.{get, insert}
use affinidi_trust_registry.Prelude.{
  ℕ, String, ◌≡◌, refl, ap, ◌∙◌, Bool, true, false, if◌then◌else◌, Option, none, some, unwrap_or,
  is_some, List, [], ◌∷◌, ◌++◌, map, All, Result, ok, err, ◌==◌, string_eq, String-discrete, inl,
  arith,
}

abbrev PlainLine : Type 0
PlainLine = (line : String) × (lacks b'\n' line ≡ true)

abbrev Disk : Type 0
Disk = String → Option (List PlainLine)

abbrev put : String → List PlainLine → Disk → Disk
put path lines disk name = if path == name then some lines else disk name

abbrev held : String → Disk → List PlainLine
held path disk = unwrap_or (disk path) []

abbrev contents : String → Disk → List String
contents path disk = map (λ line. line.0) (held path disk)

-- A line with a line feed is refused.
abbrev add_line :
    (path line : String) (b : Bool) → lacks b'\n' line ≡ b → Disk → Result (Unit {0}) String × Disk
add_line path line true h disk = (ok tt, put path (held path disk ++ (line, h) ∷ []) disk)
add_line path line false h disk = (err "two lines", disk)

abbrev disk_files : Files Disk
disk_files = record {
  exists = λ path disk. is_some (disk path);
  copy = λ from to disk. (ok tt, put to (held from disk) disk);
  lines = λ path disk. (ok (contents path disk), disk);
  truncate = λ path disk. (ok tt, put path [] disk);
  writeln = λ path line disk. add_line path line (lacks b'\n' line) refl disk;
}

eq_self : (s : String) → (s == s) ≡ true
eq_self s = ground arith

put-there :
    (path : String) (lines : List PlainLine) (disk : Disk) → put path lines disk path ≡ some lines
put-there path lines disk = rw (eq_self path) refl

lines-plain :
    (lines : List PlainLine) → All (λ line. lacks b'\n' line ≡ true) (map (λ line. line.0) lines)
lines-plain [] = tt
lines-plain (line ∷ lines) = (line.1, lines-plain lines)

map-append :
    (xs ys : List PlainLine)
    → map (λ line. line.0) (xs ++ ys) ≡ map (λ line. line.0) xs ++ map (λ line. line.0) ys
map-append [] ys = refl
map-append (x ∷ xs) ys = ap (◌∷◌ x.0) (map-append xs ys)

add_line-writes :
    (path line : String) (disk : Disk) (b : Bool) (h : lacks b'\n' line ≡ b)
    → lacks b'\n' line ≡ true
    → ((add_line path line b h disk).0 ≡ ok tt)
      × (is_some ((add_line path line b h disk).1 path) ≡ true)
      × (contents path (add_line path line b h disk).1 ≡ contents path disk ++ line ∷ [])
add_line-writes path line disk true h k = (
  refl,
  ap is_some (put-there path (held path disk ++ (line, h) ∷ []) disk),
  ap (λ o. map (λ l. l.0) (unwrap_or o [])) (put-there path (held path disk ++ (line, h) ∷ []) disk)
      ∙ map-append (held path disk) ((line, h) ∷ []),
)
add_line-writes path line disk false h k = absurd (let x : ⊥ = cc in x)

disk_files-Keeps : Keeps contents disk_files
disk_files-Keeps = record {
  reads = λ path disk there. refl;
  no_feeds = λ path disk. lines-plain (held path disk);
  copies = λ from to disk there. (
    refl,
    ap is_some (put-there to (held from disk) disk),
    ap (λ o. map (λ l. l.0) (unwrap_or o [])) (put-there to (held from disk) disk),
  );
  truncates = λ path disk. (
    refl,
    ap is_some (put-there path [] disk),
    ap (λ o. map (λ l. l.0) (unwrap_or o [])) (put-there path [] disk),
  );
  writes = λ path line disk is_line there.
      add_line-writes path line disk (lacks b'\n' line) refl is_line.0;
}

old_line : PlainLine
unfolding lacks
old_line = ("MEDIATOR_DID = did:old", refl)

abbrev disk : Disk
disk = put "./.env" (old_line ∷ []) (λ path. none)

abbrev new_vars : Vars
new_vars = ("ADMIN_DIDS", "did:admin") ∷ []

new_vars-Fits : All Fits new_vars
unfolding lacks trim trim_start trim_end
new_vars-Fits =
    (record { key = refl; value = refl; no_sign = refl; key_line = refl; value_line = refl }, tt)

insert_env_vars-Updated_example :
    Updated contents disk_files disk_files-Keeps "./.env" new_vars
      (variables_before contents disk_files disk_files-Keeps "./.env" none disk)
      (insert_env_vars disk_files "./.env" new_vars none disk).0
      (insert_env_vars disk_files "./.env" new_vars none disk).1
unfolding get
insert_env_vars-Updated_example =
    insert_env_vars-Updated contents disk_files disk_files-Keeps "./.env" new_vars none disk
      new_vars-Fits (refl, tt)

-- Without a mediator: a CSV file is asked for.
abbrev args : Args
args = record {
  mediator_url = none;
  mediator_did = none;
  did_method = some "peer";
  didweb_url = none;
  profile = none;
  storage_backend = "csv";
  file_storage_path = some "records.csv";
  ddb_table_name = some "test";
  admin_dids = some "did:admin";
  tr_did = none;
  tr_did_secret = none;
  test_in_pipeline = some false;
  audit_log_format = some "json";
  only_admin_operations = some true;
}

abbrev peer : Peer Disk (Unit {0})
peer = record {
  generate = λ type_ disk. (ok ("did:key:z", record { id = "z"; key = tt }), disk);
  create_peer_did = λ keys services disk. (ok "did:peer:2", disk);
}

abbrev outside : Outside Disk (Unit {0})
outside = record {
  parse_url = λ url. ok url;
  parse_secrets = λ text. ok [];
  config_json = λ config. ok "{}";
  config_json_pretty = λ config. ok "{}";
  secrets_value = λ secrets. null;
  to_string = λ value. ok "null";
  setup_did_web_tr = λ mediator_url web_url did_method disk. (err "no host", disk);
}

abbrev acl : AclService Disk (Unit {0}) ℕ (Secret (Unit {0}))
acl = record {
  mediator = record {
    from_u64 = λ n. n;
    set_access_list_mode = λ mode self_change admin acls. ok acls;
    digest = λ did. did;
    account_get = λ disk. (ok none, disk);
    acls_set = λ did acls disk. (ok tt, disk);
    live_stream_next = λ wait auto_delete disk. (ok none, disk);
    send_status_request = λ wait_for wait disk. (ok none, disk);
    send_delivery_request = λ limit wait_for disk. (ok [], disk);
    send_messages_received = λ messages wait_for disk. (ok none, disk);
  };
  connect = λ alias did mediator_did secrets disk. (ok tt, disk);
  get_access_list_mode = λ acls. explicit_allow;
}

abbrev written : Vars
written =
    ("PROFILE_CONFIG", "")
    ∷ ("MEDIATOR_DID", "")
    ∷ ("ADMIN_DIDS", "did:admin")
    ∷ ("ONLY_ADMIN_OPERATIONS", "true")
    ∷ ("TR_STORAGE_BACKEND", "csv")
    ∷ ("FILE_STORAGE_PATH", "records.csv")
    ∷ ("AUDIT_LOG_FORMAT", "json")
    ∷ []

args-profile : profile_of outside disk_files peer acl args disk ≡ (ok "", disk)
unfolding enable_didcomm String-discrete
args-profile = refl

args-vars : server_vars args "" ≡ ok written
unfolding server_vars insert String-discrete
args-vars = refl

written-Fits : All Fits written
unfolding lacks trim trim_start trim_end
written-Fits = (
  record { key = refl; value = refl; no_sign = refl; key_line = refl; value_line = refl },
  (
    record { key = refl; value = refl; no_sign = refl; key_line = refl; value_line = refl },
    (
      record { key = refl; value = refl; no_sign = refl; key_line = refl; value_line = refl },
      (
        record { key = refl; value = refl; no_sign = refl; key_line = refl; value_line = refl },
        (
          record { key = refl; value = refl; no_sign = refl; key_line = refl; value_line = refl },
          (
            record { key = refl; value = refl; no_sign = refl; key_line = refl; value_line = refl },
            (
              record {
                key = refl;
                value = refl;
                no_sign = refl;
                key_line = refl;
                value_line = refl;
              },
              tt,
            ),
          ),
        ),
      ),
    ),
  ),
)

main-Writes_example :
    Writes outside disk_files peer acl contents disk_files-Keeps args ""
      (main outside disk_files peer acl args disk).0
      (main outside disk_files peer acl args disk).1
main-Writes_example =
    main-Writes outside disk_files peer acl contents disk_files-Keeps args disk disk "" written
      (inl refl) args-profile args-vars written-Fits
