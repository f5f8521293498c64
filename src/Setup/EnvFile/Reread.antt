-- ===== src/Setup/EnvFile/Reread.antt =====
-- Adding variables to a file, and reading the file again.
use affinidi_trust_registry.Setup.EnvFile.{
  Files, Vars, parse_lines, add_vars, env_line, copy_example, read_vars, write_vars,
  insert_env_vars,
}
use affinidi_trust_registry.Setup.EnvFile.Update.{
  Keeps, Fits, get-add_vars, get-add_vars_nil, add_vars-NodupKeys, add_vars-Fits,
  parse_lines-env_lines, parse_lines-Fits, write_vars-Leaves,
}
use affinidi_trust_registry.Prelude.Effect.{◌>>◌}
use affinidi_trust_registry.Prelude.HashMap.{get, NodupKeys}
use affinidi_trust_registry.Prelude.{
  String, ◌≡◌, refl, ap, ◌∙◌, subst, true, false, Option, none, some, or_else, List, [], ◌++◌, map,
  ok, Result, All, string_eq, if◌then◌else◌, Bool-cases, inl, inr,
}

module _ {F : Type 0} (contents : String → F → List String) (files : Files F)
    (keeps : Keeps contents files) (path : String) where
  abbrev lines_of_example : Option String → F → List String
  lines_of_example none s = []
  lines_of_example (some example) s = if files.exists example s then contents example s else []

  -- The variables that are there before: those of the file, or of the example where there is none
  abbrev pub variables_before : Option String → F → Vars
  variables_before example s =
      parse_lines (if files.exists path s then contents path s else lines_of_example example s) []

  -- The file was written, and reading it gives each variable: the new value where there is one,
  -- else the value from before, else none.
  pub record Updated (new old : Vars) (r : Result (Unit {0}) String) (s : F) : Type 0 where
    pub vars : Vars
    pub fine : r ≡ ok tt
    pub reread : (read_vars files path s).0 ≡ ok vars
    pub values : (name : String) → get name vars ≡ or_else (get name new) (get name old)

  -- After the example is copied, the variables from before are read.
  pub record Prepared (old : Vars) (r : Result (Unit {0}) String) (s : F) : Type 0 where
    pub ready : r ≡ ok tt
    pub read : read_vars files path s ≡ (ok old, s)
    pub fits : All Fits old
    pub distinct : NodupKeys old

  read_vars-there :
      (s : F)
      → files.exists path s ≡ true
      → read_vars files path s ≡ (ok (parse_lines (contents path s) []), s)
  unfolding read_vars
  read_vars-there s e = rw (e, keeps.reads path s e) refl

  there-Prepared :
      (s : F) → files.exists path s ≡ true → Prepared (parse_lines (contents path s) []) (ok tt) s
  there-Prepared s e =
      let (fits, distinct) = parse_lines-Fits (contents path s) [] (keeps.no_feeds path s) tt tt in
      record { ready = refl; read = read_vars-there s e; fits = fits; distinct = distinct }

  absent-Prepared : (s : F) → files.exists path s ≡ false → Prepared [] (ok tt) s
  unfolding read_vars
  absent-Prepared s e = record { ready = refl; read = rw e refl; fits = tt; distinct = tt }

  copy_example-Prepared :
      (example : Option String) (s : F)
      → Prepared
          (variables_before example s)
          (copy_example files path example s).0
          (copy_example files path example s).1
  unfolding copy_example parse_lines
  copy_example-Prepared none s = elim (Bool-cases (files.exists path s)) [
    | inl there ↦ rw there (there-Prepared s there)
    | inr absent ↦ rw absent (absent-Prepared s absent)
  ]
  copy_example-Prepared (some example) s = elim (Bool-cases (files.exists path s)) [
    | inl there ↦ rw there (there-Prepared s there)
    | inr absent ↦ elim (Bool-cases (files.exists example s)) [
      | inr none_there ↦ rw (absent, none_there) (absent-Prepared s absent)
      | inl found ↦
          let (fine, there, holds) = keeps.copies example path s found in
          let s' = (files.copy example path s).1 in
          rw (absent, found, fine)
            (subst (λ lines. Prepared (parse_lines lines []) (ok tt) s') holds
              (there-Prepared s' there))
    ]
  ]

  write-Updated :
      (new old : Vars) (s : F)
      → All Fits new
      → NodupKeys new
      → All Fits old
      → NodupKeys old
      → Updated new old
          ((files.truncate path >> write_vars files path (add_vars new old)) s).0
          ((files.truncate path >> write_vars files path (add_vars new old)) s).1
  write-Updated new old s f d g e =
      let (fine, there, holds) = keeps.truncates path s in
      let s' = (files.truncate path s).1 in
      let merged = add_vars new old in
      let written =
        write_vars-Leaves contents files keeps path merged s' (add_vars-Fits new old f g) there in
      let last = (write_vars files path merged s').1 in
      rw fine (record {
        vars = add_vars merged [];
        fine = written.fine;
        reread =
            ap (λ p. p.0) (read_vars-there last written.there)
            ∙ ap (λ lines. ok (parse_lines lines []))
                (written.holds ∙ ap (λ l. l ++ map (λ var. env_line var.0 var.1) merged) holds)
            ∙ ap ok (parse_lines-env_lines merged [] (add_vars-Fits new old f g));
        values = λ name.
            get-add_vars_nil name merged (add_vars-NodupKeys new old e)
            ∙ get-add_vars name new old d;
      })

  -- In a file system that does not fail, adding variables that fit the lines of the file succeeds,
  -- and reading the file then gives for every name the new value, where there is one, else the value
  -- that the file had before, or the example where there was no file, and no other variable.
  pub insert_env_vars-Updated :
      (new : Vars) (example : Option String) (s : F)
      → All Fits new
      → NodupKeys new
      → Updated new
          (variables_before example s)
          (insert_env_vars files path new example s).0
          (insert_env_vars files path new example s).1
  unfolding insert_env_vars
  insert_env_vars-Updated new example s f d =
      let p = copy_example-Prepared example s in
      rw (p.ready, p.read)
        (write-Updated new (variables_before example s) (copy_example files path example s).1 f d
          p.fits p.distinct)
