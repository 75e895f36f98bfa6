-- ===== src/Cmd.antt =====
-- cmd: the command line of mittnite. The logger's ExitFunc, which `init` of up.go sets, and what
-- follows from it for Execute of root.go.
pub mod Env
pub mod Up
pub mod RenderFiles
use mittnite.Prelude.{ℕ, String, Option, none, some}

-- How a call comes back: it returns, or a panic goes up the stack.
pub data Flow : Type 0 where
  returns : Flow
  panics : String → Flow

-- A deferred call of recover, and how the function then comes back.
unfoldable pub recovered : Flow → Flow
recovered returns = returns
recovered (panics message) = returns

-- ExitFunc: the panic is raised below a deferred call of recover.
unfoldable pub exit_func : ℕ → Flow
unfolding recovered
exit_func code = recovered (panics "exit")

-- log.Fatal: the logger writes its message and calls ExitFunc.
unfoldable pub log_fatal : Flow
unfolding exit_func
log_fatal = exit_func 1

-- The exit code of the process after a call in `main`.
code_after : Flow → ℕ
code_after returns = 0
code_after (panics message) = 2

-- Execute of root.go, for the error of the command.
unfoldable pub execute {ℓ} : {E : Type ℓ} → Option E → ℕ
unfolding code_after log_fatal
execute none = 0
execute (some e) = code_after log_fatal
