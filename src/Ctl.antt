-- ===== src/Ctl.antt =====
-- cmd/mittnitectl: the command line that controls a running mittnite through its API. What a
-- command prints is a list of messages; their styling belongs to a library.
pub mod Wait
pub mod Commands
use mittnite.Prelude.{
  ℕ, String, Bool, true, false, not, ◌&&◌, Option, none, some, List, [], ◌∷◌, ◌++◌, Result, ok, err,
  ◌>>=◌, ℤ, pos, negsuc, ltb_ℤ, if◌then◌else◌, ◌==◌, string_eq,
}
use mittnite.Config.{JobConfig, get_max_attempts}
use mittnite.Proc.Phase.{JobPhase, JobPhaseReason, is_phase, stopped}
use mittnite.Proc.CommonJob.{CommonJobStatus}
use mittnite.Cli.Responses.{ApiError, TypedApiResponse}
use mittnite.Cli.Client.{Net, job_list, job_status}

pub data CtlError : Type 0 where
  cannot_list : ApiError → CtlError
  no_jobs more_than_one_job : CtlError
  no_status : String → ApiError → CtlError
  api_error : ApiError → CtlError
  timed_out : String → CtlError
  not_printed : ApiError → CtlError
  bad_flags stream_error : String → CtlError

-- One line on a job, by the test that chooses it.
pub data StatusLine : Type 0 where
  running_line : String → JobPhaseReason → ℕ → StatusLine
  stopped_line : String → StatusLine
  not_running_line : String → JobPhaseReason → StatusLine

-- jobStatusLine
pub job_status_line : String → CommonJobStatus → StatusLine
job_status_line job s =
    if s.running
    then running_line job s.phase.reason s.pid
    else (if is_phase s.phase stopped
        then stopped_line job
        else not_running_line job s.phase.reason)

-- wrapNotSet
pub wrap_not_set : String → String
wrap_not_set s = if s == "" then "<not set>" else s

pub data Message : Type 0 where
  says : String → String → Message
  line : StatusLine → Message
  details : String → List String → String → Bool → ℤ → String → String → Message
  json : List String → Message
  list_heading list_help : Message
  status_help : String → Message

module _ {W : Type 0} (net : Net W) (api_address : String) where
  only_job : Option ApiError → List String → Result CtlError String
  only_job (some e) jobs = err (cannot_list e)
  only_job none [] = err no_jobs
  only_job none (job ∷ []) = ok job
  only_job none (a ∷ b ∷ jobs) = err more_than_one_job

  -- determineJobName
  unfoldable pub determine_job_name : List String → W → W × Result CtlError String
  unfolding only_job
  determine_job_name (job ∷ args) w = (w, ok job)
  determine_job_name [] w =
      let (w', jobs) = job_list net api_address w in (w', only_job jobs.error jobs.body)
