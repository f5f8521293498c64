-- ===== src/Setup/EnvFile.antt =====
-- `insert_env_vars` of trust-registry/bin/setup_trust_registry.rs, which bin/generate_secrets.rs
-- declares alike: variables are added to a file of `KEY=value` lines. The file system is a parameter.
pub mod Update
pub mod Reread
use affinidi_trust_registry.Prelude.Text.{split_once, trim}
use affinidi_trust_registry.Prelude.HashMap.{HashMap, insert}
use affinidi_trust_registry.Prelude.Effect.{Effect, pure, ◌>>=◌, ◌>>◌}
use affinidi_trust_registry.Prelude.{
  String, ◌<>◌, Bool, if◌then◌else◌, Option, none, some, List, [], ◌∷◌, string_eq,
}

-- `lines` opens a file and reads its lines, `truncate` opens it for writing, created or emptied, and
-- `writeln` writes a line to the file that was opened.
pub record Files (F : Type 0) : Type 0 where
  pub exists : String → F → Bool
  pub copy : (from to : String) → Effect F String (Unit {0})
  pub lines : String → Effect F String (List String)
  pub truncate : String → Effect F String (Unit {0})
  pub writeln : (path line : String) → Effect F String (Unit {0})

abbrev pub Vars : Type 0
Vars = HashMap String String

abbrev set_parts : Option (String × String) → Vars → Vars
set_parts none vars = vars
set_parts (some (key, value)) vars = insert (trim key) (trim value) vars

-- A line without `=` is skipped.
unfoldable pub parse_lines : List String → Vars → Vars
unfolding split_once
parse_lines [] vars = vars
parse_lines (line ∷ lines) vars = parse_lines lines (set_parts (split_once b'=' line) vars)

-- `for (key, value) in new_vars`
unfoldable pub add_vars : (new_vars existing_vars : Vars) → Vars
add_vars [] existing_vars = existing_vars
add_vars ((key, value) ∷ new_vars) existing_vars =
    add_vars new_vars (insert key value existing_vars)

abbrev pub env_line : String → String → String
env_line key value = key <> ("=" <> value)

module _ {F : Type 0} (files : Files F) where
  unfoldable pub copy_example :
      (file_path : String) → (example_file_path : Option String) → Effect F String (Unit {0})
  copy_example file_path none s = pure tt s
  copy_example file_path (some example) s =
      if files.exists file_path s
      then pure tt s
      else if files.exists example s
      then files.copy example file_path s
      else pure tt s

  unfoldable pub read_vars : (file_path : String) → Effect F String Vars
  unfolding parse_lines
  read_vars file_path s =
      if files.exists file_path s
      then (files.lines file_path >>= λ lines. pure (parse_lines lines [])) s
      else pure [] s

  unfoldable pub write_vars : (file_path : String) → Vars → Effect F String (Unit {0})
  write_vars file_path [] = pure tt
  write_vars file_path ((key, value) ∷ vars) =
      files.writeln file_path (env_line key value) >> write_vars file_path vars

  unfoldable pub insert_env_vars :
      (file_path : String)
      → (new_vars : Vars) → (example_file_path : Option String) → Effect F String (Unit {0})
  insert_env_vars file_path new_vars example_file_path = do
    copy_example file_path example_file_path
    existing_vars ← read_vars file_path
    files.truncate file_path
    write_vars file_path (add_vars new_vars existing_vars)
