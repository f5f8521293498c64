-- ===== src/Setup/EnvFile/Update.antt =====
-- What a file of variables holds after variables were added to it.
use text.Mathlib.TextLemmas.{cons-append, nil-append}
use Prim.Native.String as Text
use mathlib.Core.List.{append_assoc, append-nil}
use affinidi_trust_registry.Setup.EnvFile.{
  Files, Vars, set_parts, parse_lines, add_vars, env_line, write_vars,
}
use affinidi_trust_registry.Prelude.Text.{split_once, trim, trim_end}
use affinidi_trust_registry.Prelude.Text.Laws.{lacks}
use affinidi_trust_registry.Prelude.Text.Trim.{
  trim-trim, lacks-trim, trim_end-trimmed, trim_end-append, lacks-append, trim_end-before,
  split_once-append, Parts, split_once-Parts,
}
use affinidi_trust_registry.Prelude.HashMap.{get, insert, get-insert, NodupKeys, insert-NodupKeys}
use affinidi_trust_registry.Prelude.{
  String, ◌<>◌, ◌≡◌, refl, sym, ap, ◌∙◌, true, Option, none, some, or_else, List, [], ◌∷◌, ◌++◌,
  map, ok, Result, All, string_eq, ◌==◌, arith, Bool-cases, inl, inr,
}

-- A line that a file keeps as it is: no line feed, nothing to trim at its end
abbrev pub IsLine : String → Type 0
IsLine line = (lacks b'\n' line ≡ true) × (trim_end line ≡ line)

-- A file system that does not fail, seen at the lines of its files
pub record Keeps {F : Type 0} (contents : String → F → List String) (files : Files F) : Type 0 where
  pub reads :
      (path : String) (s : F)
      → files.exists path s ≡ true
      → files.lines path s ≡ (ok (contents path s), s)
  pub no_feeds : (path : String) (s : F) → All (λ line. lacks b'\n' line ≡ true) (contents path s)
  pub copies :
      (from to : String) (s : F)
      → files.exists from s ≡ true
      → ((files.copy from to s).0 ≡ ok tt)
        × (files.exists to (files.copy from to s).1 ≡ true)
        × (contents to (files.copy from to s).1 ≡ contents from s)
  pub truncates :
      (path : String) (s : F)
      → ((files.truncate path s).0 ≡ ok tt)
        × (files.exists path (files.truncate path s).1 ≡ true)
        × (contents path (files.truncate path s).1 ≡ [])
  pub writes :
      (path line : String) (s : F)
      → IsLine line
      → files.exists path s ≡ true
      → ((files.writeln path line s).0 ≡ ok tt)
        × (files.exists path (files.writeln path line s).1 ≡ true)
        × (contents path (files.writeln path line s).1 ≡ contents path s ++ line ∷ [])

-- A variable that a line holds: both parts trimmed and on one line, and no `=` in the key
pub record Fits (var : String × String) : Type 0 where
  pub key : trim var.0 ≡ var.0
  pub value : trim var.1 ≡ var.1
  pub no_sign : lacks b'=' var.0 ≡ true
  pub key_line : lacks b'\n' var.0 ≡ true
  pub value_line : lacks b'\n' var.1 ≡ true

pub get-add_vars :
    (k : String) (new old : Vars)
    → NodupKeys new
    → get k (add_vars new old) ≡ or_else (get k new) (get k old)
unfolding get add_vars
get-add_vars k [] old h = refl
get-add_vars k ((key, value) ∷ new) old (fresh, h) =
    ground (arith, get-add_vars k new (insert key value old) h, get-insert k key value old)

pub get-add_vars_nil :
    (k : String) (vars : Vars) → NodupKeys vars → get k (add_vars vars []) ≡ get k vars
unfolding get
get-add_vars_nil k vars h = ground (arith, get-add_vars k vars [] h)

pub add_vars-NodupKeys : (new old : Vars) → NodupKeys old → NodupKeys (add_vars new old)
unfolding add_vars
add_vars-NodupKeys [] old h = h
add_vars-NodupKeys ((key, value) ∷ new) old h =
    add_vars-NodupKeys new (insert key value old) (insert-NodupKeys key value old h)

insert-Fits :
    (key value : String) (vars : Vars)
    → Fits (key, value)
    → All Fits vars
    → All Fits (insert key value vars)
unfolding insert
insert-Fits key value [] f h = (f, tt)
insert-Fits key value ((k, v) ∷ vars) f (g, h) = elim (Bool-cases (k == key)) [
  | inl same ↦ rw same (f, h)
  | inr other ↦ rw other (g, insert-Fits key value vars f h)
]

pub add_vars-Fits : (new old : Vars) → All Fits new → All Fits old → All Fits (add_vars new old)
unfolding add_vars
add_vars-Fits [] old h g = g
add_vars-Fits ((key, value) ∷ new) old (f, h) g =
    add_vars-Fits new (insert key value old) h (insert-Fits key value old f g)

sign_line : (value : String) → lacks b'\n' value ≡ true → lacks b'\n' (Text.◌∷◌ "=" value) ≡ true
unfolding lacks
sign_line value h = h

sign_end :
    (value : String) → trim_end value ≡ value → trim_end (Text.◌∷◌ "=" value) ≡ Text.◌∷◌ "=" value
unfolding trim_end
sign_end value h = trim_end-before "=" value refl h

env_line-cons : (key value : String) → env_line key value ≡ key <> Text.◌∷◌ "=" value
env_line-cons key value =
    ap (λ t. key <> t) (cons-append "=" "" value ∙ ap (λ t. Text.◌∷◌ "=" t) (nil-append value))

-- The line of a variable that fits is read back as that variable.
set_parts-env_line :
    (key value : String) (vars : Vars)
    → Fits (key, value)
    → set_parts (split_once b'=' (env_line key value)) vars ≡ insert key value vars
set_parts-env_line key value vars f =
    rw
      (env_line-cons key value, split_once-append b'=' key "=" value f.no_sign refl, f.key, f.value)
      refl

env_line-IsLine : (key value : String) → Fits (key, value) → IsLine (env_line key value)
env_line-IsLine key value f = rw (env_line-cons key value) (
  lacks-append b'\n' key (Text.◌∷◌ "=" value) f.key_line (sign_line value f.value_line),
  trim_end-append key "=" value (sign_end value (trim_end-trimmed value f.value)),
)

pub parse_lines-env_lines :
    (vars acc : Vars)
    → All Fits vars
    → parse_lines (map (λ var. env_line var.0 var.1) vars) acc ≡ add_vars vars acc
unfolding parse_lines add_vars
parse_lines-env_lines [] acc h = refl
parse_lines-env_lines ((key, value) ∷ vars) acc (f, h) =
    ap (parse_lines (map (λ var. env_line var.0 var.1) vars)) (set_parts-env_line key value acc f)
    ∙ parse_lines-env_lines vars (insert key value acc) h

set_parts-Fits :
    (line : String) (parts : Option (String × String)) (vars : Vars)
    → Parts b'=' b'\n' line parts
    → lacks b'\n' line ≡ true
    → All Fits vars
    → All Fits (set_parts parts vars)
set_parts-Fits line none vars p l h = h
set_parts-Fits line (some (key, value)) vars (no_sign, lines) l h =
    insert-Fits (trim key) (trim value) vars
      (record {
        key = trim-trim key;
        value = trim-trim value;
        no_sign = lacks-trim b'=' key no_sign;
        key_line = lacks-trim b'\n' key (lines l).0;
        value_line = lacks-trim b'\n' value (lines l).1;
      })
      h

set_parts-NodupKeys :
    (parts : Option (String × String)) (vars : Vars)
    → NodupKeys vars
    → NodupKeys (set_parts parts vars)
set_parts-NodupKeys none vars h = h
set_parts-NodupKeys (some (key, value)) vars h = insert-NodupKeys (trim key) (trim value) vars h

-- What is read from lines fits lines, and holds each key once.
pub parse_lines-Fits :
    (lines : List String) (vars : Vars)
    → All (λ line. lacks b'\n' line ≡ true) lines
    → All Fits vars
    → NodupKeys vars
    → All Fits (parse_lines lines vars) × NodupKeys (parse_lines lines vars)
unfolding parse_lines
parse_lines-Fits [] vars l h d = (h, d)
parse_lines-Fits (line ∷ lines) vars (l, ls) h d =
    parse_lines-Fits lines (set_parts (split_once b'=' line) vars) ls
      (set_parts-Fits line (split_once b'=' line) vars (split_once-Parts b'=' b'\n' line) l h)
      (set_parts-NodupKeys (split_once b'=' line) vars d)

module _ {F : Type 0} (contents : String → F → List String) (files : Files F)
    (keeps : Keeps contents files) (path : String) where
  -- A step that succeeds and leaves the file with these lines
  pub record Leaves (lines : List String) (r : Result (Unit {0}) String) (s : F) : Type 0 where
    pub fine : r ≡ ok tt
    pub there : files.exists path s ≡ true
    pub holds : contents path s ≡ lines

  pub write_vars-Leaves :
      (vars : Vars) (s : F)
      → All Fits vars
      → files.exists path s ≡ true
      → Leaves
          (contents path s ++ map (λ var. env_line var.0 var.1) vars)
          (write_vars files path vars s).0
          (write_vars files path vars s).1
  unfolding write_vars
  write_vars-Leaves [] s h e = record {
    fine = refl;
    there = e;
    holds = sym (append-nil (contents path s));
  }
  write_vars-Leaves ((key, value) ∷ vars) s (f, h) e =
      let (fine, there, holds) =
        keeps.writes path (env_line key value) s (env_line-IsLine key value f) e in
      let rest = write_vars-Leaves vars (files.writeln path (env_line key value) s).1 h there in
      rw fine (record {
        fine = rest.fine;
        there = rest.there;
        holds =
            rest.holds
            ∙ ap (λ l. l ++ map (λ var. env_line var.0 var.1) vars) holds
            ∙ append_assoc (contents path s) (env_line key value ∷ [])
                (map (λ var. env_line var.0 var.1) vars);
      })
