-- ===== src/Examples/Reaper.antt =====
-- A pass of the reaper over an orphan and the process of a job.
use mittnite.Prelude.{some, List, [], ◌∷◌, All}
use mittnite.Proc.Reaper.{Registry, Waitid, zombie, interrupted, Processes, reap_zombies}
use mittnite.Proc.Reaper.Spares.{IsOrphan, reap_zombies-IsOrphan}

abbrev processes : Processes
processes = record { pgid = λ pid. some 7; wait4 = λ pid. some 0 }

abbrev registry : Registry
registry = (7, "web") ∷ []

abbrev rounds : List (Registry × Waitid)
rounds = (registry, interrupted) ∷ (registry, zombie 30) ∷ (registry, zombie 7) ∷ []

reap_zombies-IsOrphan_example : All (IsOrphan rounds processes) (reap_zombies rounds processes)
reap_zombies-IsOrphan_example = reap_zombies-IsOrphan processes rounds
