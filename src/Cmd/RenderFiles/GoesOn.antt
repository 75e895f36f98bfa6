-- ===== src/Cmd/RenderFiles/GoesOn.antt =====
-- Errors do not stop the command.
use mittnite.Prelude.{String, ◌≡◌, refl, Option, none, some, List, ◌∷◌}
use mittnite.Config.{Ignition}
use mittnite.Config.Load.{Source, generate_from_config_dir}
use mittnite.Files.{Engine, Disk, render_files}
use mittnite.Cmd.{returns, log_fatal}
use mittnite.Cmd.RenderFiles.{
  fatal_on, run_args, after_render, render_all, after_read, render_files_command,
}

fatal_on-returns : (o : Option String) → fatal_on o ≡ returns
unfolding fatal_on log_fatal
fatal_on-returns none = refl
fatal_on-returns (some e) = refl

module _ {P T : Type 0} (source : Source P) (engine : Engine P T)
    (exec : List String → Option String) where
  render_all-executed :
      (a : String) (args : List String) (y : Disk × Option String)
      → (render_all source engine exec (a ∷ args) y).executed ≡ some (a ∷ args)
  unfolding render_all after_render run_args
  render_all-executed a args (d, e) = rw (fatal_on-returns e) refl

  -- `renderfiles` with a command executes it in any case: also where the configuration cannot be
  -- read and where a file is not rendered, though both are reported as fatal.
  pub render_files_command-executed :
      (empty_config : Ignition P) (config_dir a : String) (args : List String) (d : Disk)
      → (render_files_command source engine exec empty_config config_dir (a ∷ args) d).executed
        ≡ some (a ∷ args)
  unfolding render_files_command after_read
  render_files_command-executed empty_config config_dir a args d =
      let loaded = generate_from_config_dir source config_dir empty_config in
      rw (fatal_on-returns loaded.error)
        (render_all-executed a args (render_files engine loaded.config.files d))
