-- ===== src/Examples/Files.antt =====
-- A file that exists and is kept, and another that is rendered.
use mittnite.Prelude.{String, ◌≡◌, refl, false, none, some, [], ◌∷◌, ok, lookup, ℕ, string_eq}
use mittnite.Config.{File}
use mittnite.Files.{Disk, Engine, render_files}
use mittnite.Files.Kept.{render_files_keep}

abbrev pub engine : Engine ℕ String
engine = record {
  parse = λ target text. ok text;
  environ = "HOME=/root" ∷ [];
  execute = λ tpl given. (tpl, none);
  unreadable = λ path. "no such file";
  make_directory = λ path. none;
  create_fails = λ path. none;
}

abbrev entry : String → File ℕ
entry target = record {
  target = target;
  template = "/tpl";
  parameters = [];
  overwrite = some false;
}

abbrev disk : Disk
disk = ("/etc/kept", "mine") ∷ ("/tpl", "theirs") ∷ []

kept_after : lookup "/etc/kept" disk ≡ some "mine"
unfolding lookup
kept_after = refl

render_files_keep_example :
    lookup "/etc/kept" (render_files engine (entry "/etc/kept" ∷ entry "/etc/new" ∷ []) disk).0
    ≡ some "mine"
render_files_keep_example =
    render_files_keep engine "/etc/kept" "mine" (entry "/etc/kept" ∷ entry "/etc/new" ∷ []) disk
      (refl, (refl, tt)) kept_after
