-- ===== src/Ctl/Commands/Actions.antt =====
-- job_actions.go: the commands start, restart and stop, with the flags that they read.
pub mod Stops
use mittnite.Prelude.{
  ℕ, String, Bool, true, false, Option, none, some, List, [], ◌∷◌, ◌++◌, Result, ok, err,
}
use mittnite.Cli.Responses.{ApiError, print_response}
use mittnite.Cli.Client.{Net, call_action}
use mittnite.Ctl.{CtlError, api_error, bad_flags, Message, says, json, determine_job_name}
use mittnite.Ctl.Wait.{Condition, test_running, test_stopped, wait_for_condition}
use mittnite.Ctl.Commands.{ends, Outcome, Terminal}

-- The arguments of buildJobActionCommand, the messages without their symbols.
pub record ActionCommand (W : Type 0) : Type 0 where
  pub action : String
  pub start_msg : String
  pub wait_msg : String
  pub done_msg : String
  pub wait_func : String → Condition W

module _ {W : Type 0} (net : Net W) (api_address : String) where
  pub start_command : ActionCommand W
  start_command = record {
    action = "start";
    start_msg = "starting job %s";
    wait_msg = "waiting for job %s to start";
    done_msg = "job %s started";
    wait_func = test_running net api_address;
  }

  pub restart_command : ActionCommand W
  restart_command = record {
    action = "restart";
    start_msg = "restarting job %s";
    wait_msg = "waiting for job %s to restart";
    done_msg = "job %s restarted";
    wait_func = test_running net api_address;
  }

  unfoldable pub stop_command : ActionCommand W
  stop_command = record {
    action = "stop";
    start_msg = "stopping job %s";
    wait_msg = "waiting for job %s to stop";
    done_msg = "job %s stopped";
    wait_func = test_stopped net api_address;
  }

  module _ (t : Terminal W) where
    waited :
        ActionCommand W → String → List Message → Option (W × Option CtlError) → Option (Outcome W)
    waited c job said none = none
    waited c job said (some (w, some e)) =
        some (record { state = w; messages = said; end = ends (some e) })
    waited c job said (some (w, none)) =
        some (record { state = w; messages = said ++ says c.done_msg job ∷ []; end = ends none })

    unfoldable pub with_wait :
        ℕ → ActionCommand W → String → List Message → W → Bool → ℕ → Option (Outcome W)
    unfolding waited
    with_wait n c job said w false wait_for =
        some (record { state = w; messages = said; end = ends none })
    with_wait n c job said w true wait_for =
        waited c job (said ++ says c.wait_msg job ∷ [])
          (wait_for_condition t.sleep t.now n job wait_for (c.wait_func job) w)

    unfoldable pub after_action :
        ℕ
        → ActionCommand W
        → Result String (Bool × ℕ)
        → String
        → W
        → Result ApiError (List String)
        → Option (Outcome W)
    unfolding with_wait
    after_action n c flags job w (err e) = some (record {
      state = w;
      messages = says c.start_msg job ∷ [];
      end = ends (some (api_error e));
    })
    after_action n c (err e) job w (ok out) = some (record {
      state = w;
      messages = says c.start_msg job ∷ json out ∷ [];
      end = ends (some (bad_flags e));
    })
    after_action n c (ok (wait, wait_for)) job w (ok out) =
        with_wait n c job (says c.start_msg job ∷ json out ∷ []) w wait wait_for

    unfoldable pub act :
        ℕ
        → ActionCommand W
        → Result String (Bool × ℕ)
        → W × Result CtlError String
        → Option (Outcome W)
    unfolding after_action
    act n c flags (w, err e) = some (record { state = w; messages = []; end = ends (some e) })
    act n c flags (w, ok job) =
        let (w', response) = call_action net api_address job c.action w in
        after_action n c flags job w' (print_response t.pretty response)

    -- RunE of buildJobActionCommand, with the rounds of the wait that are at most looked at.
    unfoldable pub run_action :
        ℕ → ActionCommand W → Result String (Bool × ℕ) → List String → W → Option (Outcome W)
    unfolding act
    run_action n c flags args w = act n c flags (determine_job_name net api_address args w)
