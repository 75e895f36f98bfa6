-- ===== src/Files/Kept.antt =====
-- Files that are not to be overwritten.
use mittnite.Prelude.{
  String, ◌≡◌, ◌∙◌, ap, Bool, true, false, not, ◌&&◌, Option, none, some, List, [], ◌∷◌, Result, ok,
  err, lookup, lookup-insert, ◌==◌, string_eq, All, Bool-cases, inl, inr, arith, eq_iff,
}
use mittnite.Config.{File}
use mittnite.Files.{
  Disk, Engine, is_set_false, exists_at, is_kept, executed, create_target, make_folder,
  parsed_template, read_template, render_file, next_file, render_files,
}

-- The entry is for another file, or says that the file is not to be overwritten.
abbrev pub Spares : {P : Type 0} → String → File P → Type 0
Spares path c = ((c.target == path) && not (is_set_false c.overwrite)) ≡ false

module _ {P T : Type 0} (engine : Engine P T) (path content : String) where
  abbrev Holds : Disk × Option String → Type 0
  Holds (d, e) = lookup path d ≡ some content

  module _ (d : Disk) (c : File P) (here : lookup path d ≡ some content)
      (other : (c.target == path) ≡ false) where
    create_target-Holds : (tpl : T) (o : Option String) → Holds (create_target engine d c tpl o)
    unfolding create_target executed
    create_target-Holds tpl (some e) = here
    create_target-Holds tpl none = lookup-insert c.target path _ d ∙ rw other here

    make_folder-Holds : (tpl : T) (o : Option String) → Holds (make_folder engine d c tpl o)
    unfolding make_folder
    make_folder-Holds tpl (some e) = here
    make_folder-Holds tpl none = create_target-Holds tpl (engine.create_fails c.target)

    parsed_template-Holds : (x : Result String T) → Holds (parsed_template engine d c x)
    unfolding parsed_template
    parsed_template-Holds (err e) = here
    parsed_template-Holds (ok tpl) = make_folder-Holds tpl (engine.make_directory c.target)

    read_template-Holds : (o : Option String) → Holds (read_template engine d c o)
    unfolding read_template
    read_template-Holds none = here
    read_template-Holds (some text) = parsed_template-Holds (engine.parse c.target text)

  exists :
      (d : Disk) (target : String)
      → lookup path d ≡ some content
      → target ≡ path
      → exists_at d target ≡ true
  exists d target here same =
      ap (λ t. exists_at d t) same ∙ ap (λ o. elim o [ none ↦ false | some _ ↦ true ]) here

  both : (a b : Bool) → b ≡ true → (a && b) ≡ false → not a ≡ false → ⊥
  both true true e f g = ground arith
  both true false e f g = ground arith
  both false b e f g = ground arith

  kept_or_other :
      (d : Disk) (c : File P)
      → lookup path d ≡ some content
      → Spares path c
      → is_kept d c ≡ false
      → (c.target == path) ≡ false
  unfolding is_kept
  kept_or_other d c here spares not_kept = elim (Bool-cases (c.target == path)) [
    | inr differs ↦ differs
    | inl same ↦ absurd (
        both (is_set_false c.overwrite) (exists_at d c.target)
          (exists d c.target here ((eq_iff c.target path).0 same)) not_kept (rw same at spares))
  ]

  render_file-Holds :
      (d : Disk) (c : File P)
      → lookup path d ≡ some content
      → Spares path c
      → Holds (render_file engine d c)
  unfolding render_file
  render_file-Holds d c here spares = elim (Bool-cases (c.template == "")) [
    | inl no_source ↦ rw no_source here
    | inr source ↦ rw source (elim (Bool-cases (is_kept d c)) [
      | inl kept ↦ rw kept here
      | inr open_file ↦ rw open_file (
          read_template-Holds d c here (kept_or_other d c here spares open_file)
            (lookup c.template d))
    ])
  ]

  next_file-Holds :
      (rest : Disk → Disk × Option String) (x : Disk × Option String)
      → ((d : Disk) → lookup path d ≡ some content → Holds (rest d))
      → Holds x
      → Holds (next_file engine rest x)
  unfolding next_file
  next_file-Holds rest (d, some e) h here = here
  next_file-Holds rest (d, none) h here = h d here

  -- A file that exists and that every entry for it says not to overwrite keeps its content, whatever
  -- else is rendered, whatever fails, and whatever the templates write.
  pub render_files_keep :
      (cs : List (File P)) (d : Disk)
      → All (Spares path) cs
      → lookup path d ≡ some content
      → lookup path (render_files engine cs d).0 ≡ some content
  unfolding render_files
  render_files_keep [] d spares here = here
  render_files_keep (c ∷ cs) d spares here =
      next_file-Holds (render_files engine cs) (render_file engine d c)
        (λ e held. render_files_keep cs e spares.1 held) (render_file-Holds d c here spares.0)
