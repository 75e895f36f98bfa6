-- ===== src/Proc/Runner.antt =====
-- pkg/proc/runner.go: the list of jobs and the calls that change it. A job is a reference into a
-- store, since the runner, the API and the goroutines of the jobs share it.
pub mod Names
pub mod Balance
pub mod Tick
pub mod Main
pub mod Api
use mittnite.Prelude.{
  ℕ, ◌+◌, String, ◌<>◌, Bool, true, false, not, ◌&&◌, Option, none, some, List, [], ◌∷◌, ◌++◌,
  Result, ok, err, ◌>>=◌, ◌==◌, nat_eq, string_eq, if◌then◌else◌, map,
}
use mittnite.Config.{JobConfig, Laziness}
use mittnite.Proc.Phase.{
  JobPhase, JobPhaseReason, unknown, stopped, failed, completed, crash_looping, is_phase, set_phase,
}
use mittnite.Proc.BaseJob.{BaseJob, Effect, get_name, is_controllable, put_phase}
use mittnite.Proc.CommonJob.{CommonJob, new_common_job}
use mittnite.Proc.CommonJob.Watching.{FileSystem, init_job, watch}
use mittnite.Proc.LazyJob.{LazyJob, new_lazy_job}

pub data Job : Type 0 where
  common : CommonJob → Job
  lazy : LazyJob → Job

-- A lazy job embeds a common one, and has its Init, Watch, GetName and phase methods.
abbrev pub common_of : Job → CommonJob
common_of (common j) = j
common_of (lazy j) = j.common

abbrev pub with_common : CommonJob → Job → Job
with_common c (common j) = common c
with_common c (lazy j) = lazy (record j { common = c })

abbrev pub job_name : Job → String
job_name j = get_name (common_of j).base

abbrev pub job_phase : Job → JobPhase
job_phase j = (common_of j).phase

abbrev pub put_job_phase : ℕ → JobPhaseReason → Job → Job
put_job_phase now reason j =
    let c = common_of j in with_common (record c { base = put_phase now reason c.base }) j

-- `wait_group` is `none` while r.waitGroup is nil. `launched` lists the references of the jobs
-- whose `Run` was started as a goroutine, the newest last.
pub record Runner : Type 0 where
  pub jobs : List ℕ
  pub heap : ℕ → Job
  pub fresh : ℕ
  pub wait_group : Option ℕ
  pub keep_running : Bool
  pub job_configs : List JobConfig
  pub launched : List ℕ
  pub effects : List Effect

abbrev pub update {ℓ} : {A : Type ℓ} → (ℕ → A) → ℕ → A → ℕ → A
update f i a j = if i == j then a else f j

abbrev pub name_at : Runner → ℕ → String
name_at r ref = job_name (r.heap ref)

-- NewRunner; the heap before any job is made is of no account.
unfoldable pub new_runner : (ℕ → Job) → Bool → List JobConfig → Runner
new_runner nothing keep_running configs = record {
  jobs = [];
  heap = nothing;
  fresh = 0;
  wait_group = none;
  keep_running = keep_running;
  job_configs = configs;
  launched = [];
  effects = [];
}

-- A constructor's result is stored at a new reference.
unfoldable pub allocate : Runner → Job → ℕ × Runner
allocate r j = (r.fresh, record r { heap = update r.heap r.fresh j; fresh = r.fresh + 1 })

pub has_name : (ℕ → String) → String → List ℕ → Bool
has_name name n [] = false
has_name name n (j ∷ js) = if name j == n then true else has_name name n js

unfoldable pub add_job_if_not_exists : Runner → ℕ → Runner
unfolding has_name
add_job_if_not_exists r ref =
    if has_name (name_at r) (name_at r ref) r.jobs
    then r
    else record r { jobs = r.jobs ++ ref ∷ [] }

-- The last entry takes the place of the removed one.
last_or : ℕ → List ℕ → ℕ
last_or d [] = d
last_or d (x ∷ xs) = last_or x xs

drop_last : List ℕ → List ℕ
drop_last [] = []
drop_last (x ∷ []) = []
drop_last (x ∷ y ∷ xs) = x ∷ drop_last (y ∷ xs)

replace_by_last : List ℕ → List ℕ
replace_by_last [] = []
replace_by_last (x ∷ xs) = last_or x xs ∷ drop_last (x ∷ xs)

pub swap_remove : (ℕ → String) → String → List ℕ → List ℕ
unfolding replace_by_last last_or drop_last
swap_remove name n [] = []
swap_remove name n (j ∷ js) = if name j == n then replace_by_last js else j ∷ swap_remove name n js

unfoldable pub remove_job : Runner → ℕ → Runner
unfolding swap_remove
remove_job r ref = record r { jobs = swap_remove (name_at r) (name_at r ref) r.jobs }

pub find_by_name : (ℕ → String) → String → List ℕ → Option ℕ
find_by_name name n [] = none
find_by_name name n (j ∷ js) = if name j == n then some j else find_by_name name n js

pub as_common : Runner → ℕ → Option ℕ
as_common r ref = elim (r.heap ref) [ common _ ↦ some ref | lazy _ ↦ none ]

pub find_common : Runner → Option ℕ → Option ℕ
unfolding as_common
find_common r none = none
find_common r (some ref) = as_common r ref

-- The first job of the name decides; a lazy one is not found.
unfoldable pub find_common_job_by_name : Runner → String → Option ℕ
unfolding find_by_name find_common
find_common_job_by_name r n = find_common r (find_by_name (name_at r) n r.jobs)

abbrev is_none {ℓ} : {A : Type ℓ} → Option A → Bool
is_none none = true
is_none (some _) = false

find_config : String → List JobConfig → Option JobConfig
find_config n [] = none
find_config n (c ∷ cs) = if c.name == n && is_none c.laziness then some c else find_config n cs

-- startJob at the time `now`. A call on the nil wait group is a panic: `err` holds what is left.
add_to_group : Runner → ℕ → Option ℕ → Result Runner Runner
add_to_group r ref none = err r
add_to_group r ref (some n) =
    ok (record r { wait_group = some (n + 1); launched = r.launched ++ ref ∷ [] })

abbrev pub is_final : JobPhase → Bool
is_final p =
    if is_phase p stopped
    then true
    else (if is_phase p failed then true else is_phase p crash_looping)

unfoldable pub start_job : ℕ → FileSystem → Runner → ℕ → JobPhaseReason → Result Runner Runner
unfolding add_to_group
start_job now fs r ref initial =
    let j = put_job_phase now initial (r.heap ref) in
    if is_final (job_phase j)
    then ok (record r { heap = update r.heap ref j })
    else (let j' = with_common (init_job fs (common_of j)) j in
        let r' = record r { heap = update r.heap ref j' } in add_to_group r' ref r'.wait_group)

-- addAndStartJob
pub add_and_start_job : ℕ → FileSystem → Runner → ℕ → Result Runner Runner
add_and_start_job now fs r ref =
    let r' = add_job_if_not_exists r ref in start_job now fs r' ref (job_phase (r'.heap ref)).reason

-- exec: a loop over `r.jobs` as it stands when the loop begins.
start_all : ℕ → FileSystem → List ℕ → Runner → Result Runner Runner
start_all now fs [] r = ok r
start_all now fs (j ∷ js) r = start_job now fs r j unknown >>= start_all now fs js

unfoldable pub exec : ℕ → FileSystem → Runner → Result Runner Runner
unfolding start_all
exec now fs r = start_all now fs r.jobs r

-- The constructors of jobs and what they ask the system.
pub record Maker : Type 0 where
  pub now : ℕ
  pub prepare : String → Result String ℕ
  pub parse_duration : String → Result String ℕ

unfoldable pub make_job : Maker → JobConfig → Option Laziness → Result String Job
make_job m c none = new_common_job m.now m.prepare c >>= λ j. ok (common j)
make_job m c (some l) = new_lazy_job m.now m.prepare m.parse_duration c l >>= λ j. ok (lazy j)

unfoldable pub add_new : Runner → Job → Runner
unfolding allocate
add_new r j = let (ref, r') = allocate r j in add_job_if_not_exists r' ref

unfoldable pub labelled : String → Result String Job → Result String Job
labelled n (ok j) = ok j
labelled n (err e) = err ("error initializing job " <> n <> ": " <> e)

unfoldable pub init_loop : Maker → List JobConfig → Runner → Result String Runner
unfolding make_job labelled add_new
init_loop m [] r = ok r
init_loop m (c ∷ cs) r =
    labelled c.name (make_job m c c.laziness) >>= λ j. init_loop m cs (add_new r j)

-- Runner.Init
unfoldable pub init_runner : Maker → Runner → Result String Runner
unfolding init_loop
init_runner m r = init_loop m r.job_configs r

-- The verb %q, for a name without characters that it escapes.
abbrev pub quoted : String → String
quoted n = "\"" <> n <> "\""

make_configured : Maker → Runner → String → Option JobConfig → Result String (ℕ × Runner)
unfolding allocate
make_configured m r n none = err ("can't find ignition config for job " <> quoted n)
make_configured m r n (some c) =
    new_common_job m.now m.prepare c >>= λ j. ok (allocate r (common j))

-- findCommonIgnitionJobByName makes a new job from the configuration.
unfoldable pub find_common_ignition_job_by_name :
    Maker → Runner → String → Result String (ℕ × Runner)
unfolding make_configured find_config allocate
find_common_ignition_job_by_name m r n = make_configured m r n (find_config n r.job_configs)
