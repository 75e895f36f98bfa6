-- ===== src/Proc/Reaper.antt =====
-- pkg/proc/reaper_linux.go and reaper_registry.go: orphans that were handed to mittnite as PID 1
-- are reaped, and the processes of jobs are left to their supervisors.
pub mod Spares
use mittnite.Prelude.{
  ℕ, String, Bool, true, false, Option, none, some, List, [], ◌∷◌, ◌++◌, lookup, insert, erase,
  nat_eq, if◌then◌else◌, ◌==◌,
}
use mittnite.Proc.WaitStatus.{Fields, decode_wait_status}

-- managedPids
abbrev pub Registry : Type 0
Registry = List (ℕ × String)

unfoldable pub register_managed_pid : ℕ → String → Registry → Registry
register_managed_pid pid job_name managed = insert pid job_name managed

unfoldable pub unregister_managed_pid : ℕ → Registry → Registry
unregister_managed_pid pid managed = erase pid managed

unfoldable pub lookup_managed_pid : ℕ → Registry → Option String
lookup_managed_pid pid managed = lookup pid managed

-- What waitid(2) answers, call by call: the pid of a zombie, which is 0 where there is none, that there
-- is no child, an interruption, or another error.
pub data Waitid : Type 0 where
  zombie : ℕ → Waitid
  no_child interrupted : Waitid
  fails : String → Waitid

-- A process that was reaped, with the job of its process group and its exit.
pub record Reaped : Type 0 where
  pub pid : ℕ
  pub job_name : Option String
  pub fields : Fields

-- The processes as the reaper sees them: the group of a process, and the status that wait4 hands
-- out if it reaps the process.
pub record Processes : Type 0 where
  pub pgid : ℕ → Option ℕ
  pub wait4 : ℕ → Option ℕ

group_job : Registry → Option ℕ → Option String
unfolding lookup_managed_pid
group_job managed none = none
group_job managed (some g) = lookup_managed_pid g managed

collect : Registry → Processes → ℕ → Option ℕ → List Reaped
unfolding group_job
collect managed ps pid none = []
collect managed ps pid (some status) =
    record {
      pid = pid;
      job_name = group_job managed (ps.pgid pid);
      fields = decode_wait_status status;
    }
    ∷ []

next_zombie : Registry → Processes → ℕ → Option String → List Reaped → List Reaped
unfolding collect
next_zombie managed ps pid (some job_name) later = []
next_zombie managed ps pid none later = collect managed ps pid (ps.wait4 pid) ++ later

-- reapZombies with peekZombie, for as long as waitid answers: an interrupted call is made again, a
-- pid of 0 and a missing child end the pass, and so does an error. The registry is read in each
-- round, since jobs start and end meanwhile.
pub reap_zombies : List (Registry × Waitid) → Processes → List Reaped
unfolding next_zombie
reap_zombies [] ps = []
reap_zombies ((managed, zombie pid) ∷ rounds) ps =
    let later = reap_zombies rounds ps in
    if pid == 0 then [] else next_zombie managed ps pid (lookup_managed_pid pid managed) later
reap_zombies ((managed, no_child) ∷ rounds) ps = []
reap_zombies ((managed, interrupted) ∷ rounds) ps = reap_zombies rounds ps
reap_zombies ((managed, fails e) ∷ rounds) ps = []
