-- ===== src/Examples/Watching.antt =====
-- Watches over a directory with one file.
use mittnite.Prelude.{◌≡◌, []}
use mittnite.Proc.CommonJob.Watching.{watch}
use mittnite.Proc.CommonJob.Watching.Settles.{watch_twice}
use mittnite.Examples.{web, one_file}

watch_twice_example : watch one_file (watch one_file web).0 ≡ ((watch one_file web).0, [])
watch_twice_example = watch_twice one_file web
