-- ===== src/Lib.antt =====
-- mittnite: an init process for containers. It reads its configuration from HCL files, starts the
-- jobs, restarts them when they fail, signals them when watched files change, starts lazy jobs with
-- their first connection, and serves an HTTP API that controls jobs, which mittnitectl calls. This
-- library models its parts and proves what they promise each other.
--
-- The parts, and the files that model them:
--   Prelude                   shared tests, lists, maps and results
--   Config                    internal/config/types.go
--   Config.Load               internal/config/ignitionconfig.go and find.go; the walk of the file
--                             system, file contents and the HCL decoder are the parameter Source
--   Proc.Phase                pkg/proc/types_status.go, and the phase methods of basejob.go
--   Proc.BackOff              pkg/proc/crashloopbackoff.go
--   Proc.WaitStatus           pkg/proc/wait_status.go, over Linux's encoding of a wait status
--   Proc.BaseJob              baseJob of pkg/proc/types.go and basejob.go: state, flags, signals
--   Proc.BaseJob.StdFiles     log files and the decoration of output
--   Proc.BaseJob.StartOnce    startOnce: one run of a job's process
--   Proc.BaseJob.Output       forwardOutput
--   Proc.BaseJob.Commands     runCommandWithJobDecoration
--   Proc.BaseJob.Tail         seekTail
--   Proc.BaseJob.Streams      readStdFile and the methods that stream log files
--   Proc.BootJob              pkg/proc/job_boot.go, and Runner.Boot
--   Proc.Reaper               pkg/proc/reaper_linux.go and reaper_registry.go
--   PidFile                   pkg/pidfile/pidfile.go
--   Probes                    pkg/probe/server.go; the constructors of probes are a
--                             parameter
--   Probes.Kinds              constructors of probes in pkg/probe, and internal/helper/helper.go
--   Probes.Kinds.Databases    the probes for databases, mail servers, queues and file systems
--   Probes.Server             RunProbeServer
--   Files                     pkg/files/render.go
--   Proc.CommonJob            CommonJob of pkg/proc/job_common.go: Restart, Stop, Status
--   Proc.CommonJob.Loop       CommonJob.Run, the restart loop
--   Proc.CommonJob.Watching   CommonJob.Init and Watch
--   Proc.LazyJob              pkg/proc/job_lazy.go, and the connections of job_listener.go
--   Proc.Listener             pkg/proc/job_listener.go, and LazyJob.Run
--   Proc.Runner               pkg/proc/runner.go: the job list, Init, exec, startJob
--   Proc.Runner.Tick          Runner.tick
--   Proc.Runner.Main          Runner.Run and waitForJobsToShutDown
--   Proc.Runner.Api           pkg/proc/runner_api_v1.go: the middleware and the handlers
--   Proc.Runner.Api.Http      its routes, and a request from the router to the answer
--   Proc.Runner.Api.Logs      its log stream
--   Proc.Api                  pkg/proc/api.go
--   Cli                       pkg/cli: addresses, calls and responses of the client
--   Cli.Served                the client before the server
--   Ctl                       cmd/mittnitectl: the commands, and the wait for a condition
--   Cmd                       cmd/root.go, cmd/up.go and cmd/renderfiles.go
--   Examples                  sample jobs and runs, one module for each part
--
-- How state is modelled. A job is a record; the runner, the API and goroutines share jobs, so the
-- runner holds a store of jobs and its list holds references into it. A method takes the state and
-- returns the new one, with the effects on the outside (signals, processes, files) as a list,
-- oldest first. What other goroutines do to a job during a run is a list of requests that the run
-- takes as an argument, so a theorem about all such lists is about all interleavings. Where
-- goroutines take turns (connections and the cool-down watcher of a lazy job, the select loop of
-- the runner), the turns are an inductive step relation. A Go error is a value; a panic is the
-- result `err` that carries the state left behind.
--
-- Bounds. Times and durations are natural numbers of nanoseconds, and a duration is not below zero;
-- the counter of connections is a 32-bit word that wraps around. The restart loop takes one record
-- for each of its rounds with what the outside answers, so it needs no fuel: a list of rounds is a
-- prefix of a run, and the theorems say at which length the loop returns.
--
-- The wait of mittnitectl and Acquire of the pid file take a number of rounds, and theorems say which
-- number is enough.
--
-- The command `up` calls Boot and Run, whose results are arguments of its model; Proc.BootJob and
-- Proc.Runner.Main say which results these two can have. The router of the API, its JSON and the
-- sending of requests are arguments too; a theorem that joins the client to the server names what
-- it needs of them, for the names and the values at hand.
--
-- Not modelled: logging, cobra and its flags, the HTTP server and router, JSON, HCL, template,
-- terminal and network libraries, the profiling server, and the copying of bytes. The answers of
-- the operating system are arguments. The text of the verb %q is the name between quotes, which is
-- right for names without special characters.
pub mod Cli
pub mod Cmd
pub mod Config
pub mod Ctl
pub mod Examples
pub mod Files
pub mod PidFile
pub mod Prelude
pub mod Probes
pub mod Proc
