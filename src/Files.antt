-- ===== src/Files.antt =====
-- pkg/files/render.go: configuration files that are rendered from templates before the jobs start.
-- The template engine and the errors of the operating system are parameters.
pub mod Kept
use Prim.Native.Char.{code}
use Prim.Native.String.{String}
use mittnite.Prelude.{
  ◌<>◌, Bool, true, false, not, ◌&&◌, Option, none, some, List, [], ◌∷◌, Result, ok, err, lookup,
  insert, ◌==◌, string_eq, nat_eq, if◌then◌else◌,
}
use mittnite.Config.{File}

-- The files of the disk and their contents.
abbrev pub Disk : Type 0
Disk = List (String × String)

-- What a template reads.
pub record TemplateData (P : Type 0) : Type 0 where
  pub env : List (String × String)
  pub params : List (String × P)

-- strings.SplitN of an entry at its first `=` into two parts
split_entry : String → Option (String × String)
split_entry String.[] = none
split_entry (String.◌∷◌ c s) =
    let rest = split_entry s in
    if code c == b'='
    then some ("", s)
    else elim rest [ none ↦ none | some (key, held) ↦ some (String.◌∷◌ c key, held) ]

environment_loop : List String → List (String × String) → List (String × String)
unfolding split_entry
environment_loop [] env = env
environment_loop (e ∷ es) env = elim (split_entry e) [
  | none ↦ environment_loop es env
  | some (key, held) ↦ environment_loop es (insert key held env)
]

-- newTemplateData, with what os.Environ answers
pub new_template_data : {P : Type 0} → List String → List (String × P) → TemplateData P
unfolding environment_loop
new_template_data pairs params = record { env = environment_loop pairs []; params = params }

-- `parse` is the template parser for a target and a text; a template writes some output, and may
-- end in an error after that. `unreadable` is the error of reading a missing template.
pub record Engine (P T : Type 0) : Type 0 where
  pub parse : String → String → Result String T
  pub environ : List String
  pub execute : T → TemplateData P → String × Option String
  pub unreadable : String → String
  pub make_directory : String → Option String
  pub create_fails : String → Option String

abbrev pub is_set_false : Option Bool → Bool
is_set_false none = false
is_set_false (some b) = not b

abbrev pub exists_at : Disk → String → Bool
exists_at d path = elim (lookup path d) [ none ↦ false | some _ ↦ true ]

-- The target of the entry is not to be touched.
pub is_kept : {P : Type 0} → Disk → File P → Bool
is_kept d c = is_set_false c.overwrite && exists_at d c.target

module _ {P T : Type 0} (engine : Engine P T) where
  executed : Disk → File P → String × Option String → Disk × Option String
  executed d c (out, e) = (insert c.target out d, e)

  create_target : Disk → File P → T → Option String → Disk × Option String
  unfolding executed new_template_data
  create_target d c tpl (some e) = (d, some e)
  create_target d c tpl none =
      executed d c (engine.execute tpl (new_template_data engine.environ c.parameters))

  make_folder : Disk → File P → T → Option String → Disk × Option String
  unfolding create_target
  make_folder d c tpl (some e) = (d, some e)
  make_folder d c tpl none = create_target d c tpl (engine.create_fails c.target)

  parsed_template : Disk → File P → Result String T → Disk × Option String
  unfolding make_folder
  parsed_template d c (err e) = (d, some e)
  parsed_template d c (ok tpl) = make_folder d c tpl (engine.make_directory c.target)

  read_template : Disk → File P → Option String → Disk × Option String
  unfolding parsed_template
  read_template d c none = (d, some (engine.unreadable c.template))
  read_template d c (some text) = parsed_template d c (engine.parse c.target text)

  -- renderFile
  render_file : Disk → File P → Disk × Option String
  unfolding read_template is_kept
  render_file d c =
      if c.template == ""
      then (d, some ("configuration file " <> c.target <> " has no specified source"))
      else (if is_kept d c then (d, none) else read_template d c (lookup c.template d))

  next_file : (Disk → Disk × Option String) → Disk × Option String → Disk × Option String
  next_file rest (d, some e) = (d, some e)
  next_file rest (d, none) = rest d

  -- RenderFiles
  unfoldable pub render_files : List (File P) → Disk → Disk × Option String
  unfolding render_file next_file
  render_files [] d = (d, none)
  render_files (c ∷ cs) d = next_file (render_files cs) (render_file d c)
