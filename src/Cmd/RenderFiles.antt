-- ===== src/Cmd/RenderFiles.antt =====
-- The command `renderfiles` of cmd/renderfiles.go.
pub mod GoesOn
use mittnite.Prelude.{String, Option, none, some, List, [], ◌∷◌}
use mittnite.Config.{Ignition}
use mittnite.Config.Load.{Source, Loaded, generate_from_config_dir}
use mittnite.Files.{Engine, Disk, render_files}
use mittnite.Cmd.{Flow, returns, panics, log_fatal}

-- The disk after the command, the command line that was executed, if any, and how Run came back.
pub record Rendered : Type 0 where
  pub disk : Disk
  pub executed : Option (List String)
  pub flow : Flow

-- A test of an error with log.Fatalf in it.
fatal_on : Option String → Flow
unfolding log_fatal
fatal_on none = returns
fatal_on (some e) = log_fatal

module _ {P T : Type 0} (source : Source P) (engine : Engine P T)
    (exec : List String → Option String) where
  run_args : Disk → List String → Rendered
  unfolding fatal_on
  run_args d [] = record { disk = d; executed = none; flow = returns }
  run_args d (a ∷ args) = record {
    disk = d;
    executed = some (a ∷ args);
    flow = fatal_on (exec (a ∷ args));
  }

  after_render : List String → Disk → Flow → Rendered
  unfolding run_args
  after_render args d returns = run_args d args
  after_render args d (panics e) = record { disk = d; executed = none; flow = panics e }

  render_all : List String → Disk × Option String → Rendered
  unfolding after_render fatal_on
  render_all args (d, e) = after_render args d (fatal_on e)

  after_read : List String → Ignition P → Disk → Flow → Rendered
  unfolding render_all
  after_read args c d returns = render_all args (render_files engine c.files d)
  after_read args c d (panics e) = record { disk = d; executed = none; flow = panics e }

  -- Run of `renderfiles`.
  pub render_files_command : Ignition P → String → List String → Disk → Rendered
  unfolding after_read fatal_on
  render_files_command empty_config config_dir args d =
      let loaded = generate_from_config_dir source config_dir empty_config in
      after_read args loaded.config d (fatal_on loaded.error)
