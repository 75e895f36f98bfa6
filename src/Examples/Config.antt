-- ===== src/Examples/Config.antt =====
-- Configurations read from a directory with one file.
use mittnite.Prelude.{String, ◌≡◌, refl, true, none, some, [], ◌∷◌, pos, ok}
use mittnite.Config.{Ignition, JobConfig}
use mittnite.Config.Text.{trim_right}
use mittnite.Config.Load.{Visit, Source, find_in_path, load_files, generate_from_config_dir}
use mittnite.Config.Load.Deprecated.{generate_succeeds}
use mittnite.Examples.{job_config}

abbrev Nothing : Type 0
Nothing = Unit {0}

abbrev empty_config : Ignition Nothing
empty_config = record { probes = []; files = []; jobs = []; boot_jobs = [] }

abbrev old_job : JobConfig
old_job = record (job_config "web" true []) { max_attempts_deprecated = some (pos 5) }

abbrev read_config : Ignition Nothing
read_config = record empty_config { jobs = old_job ∷ [] }

abbrev pub visit : String → Visit
visit n = record { path = n; name = n; error = none }

abbrev directory : Source Nothing
directory = record {
  walk = λ dir. visit "readme" ∷ visit "a.hcl" ∷ [];
  read_file = λ path. ok "";
  unmarshal = λ text c. ok read_config;
}

hcl_found : find_in_path directory.walk (trim_right b'/' "/etc/") ≡ ("a.hcl" ∷ [], none)
unfolding find_in_path
hcl_found = refl

loaded : load_files directory ("a.hcl" ∷ []) empty_config ≡ (read_config, none)
unfolding load_files
loaded = refl

generate_succeeds_example :
    generate_from_config_dir directory "/etc/" empty_config
    ≡ record { config = read_config; error = none; warnings = "web" ∷ [] }
generate_succeeds_example =
    generate_succeeds directory "/etc/" empty_config read_config ("a.hcl" ∷ []) hcl_found loaded
