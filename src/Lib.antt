-- ===== src/Lib.antt =====
-- gubal: smoke tests of Anubis, run with a matrix of browser versions in a Kubernetes cluster.
--
-- The program. chromesweep (chromesweep/*.go) takes browsers, each with versions, and Anubis
-- policies. For each policy it wires a ConfigMap into the shared Anubis Deployment, and for each
-- browser and version it creates a Deployment, a Service, a NetworkPolicy and a Job under the
-- version's own name, waits for the Job, reads logs and a captured frame, and deletes the four.
-- The results become a Markdown report and a zip. gubald serves this over RPC and posts to GitHub,
-- gubalctl calls it, chrome-sweep runs it from a command line, and chrome-bully runs in the Job:
-- it captures the frame and logs its path, which chromesweep reads from the log.
--
-- The files.
--   Common and its children: Boolean tests, strings as lists of bytes, errors, lists.
--   Strings and its children: what is used of Go's packages strings, strconv, bufio, path and
--     html.
--   Chromesweep.Versions and Logs: ParseVersions, reportedUA and capturedFramePath of
--     chromesweep/parse.go.
--   Chromesweep.Policies: chromesweep/policies.go. Names is on the validation of names, Order on
--     the policies of a map.
--   Chromesweep.Report: chromesweep/report.go. Its data and tally are in the parent; Groups, Tail
--     and Markdown render, Stats is on the tally, Sections on the failure logs.
--   Chromesweep.Bundle: chromesweep/bundle.go. Paths is on the names in the zip, Writes on its
--     entries.
--   Chromesweep.Objects: the Kubernetes objects; Retarget: chromesweep/retarget.go.
--   Chromesweep.Host: what the program calls. Host.Calls and Host.Returns reason about programs.
--   Chromesweep.Cluster: chromesweep/cluster.go. Pods has its methods on logs, the collector and
--     frames, Anubis those on the Anubis Deployment; Wiring, Waits and Replace are on them.
--   Chromesweep.Config: chromesweep/config.go.
--   Chromesweep.Sweep: sweepOne of chromesweep/sweep.go; Run is the rest of that file, Pool its
--     bounded goroutines, with Slots, Counts and Refine on the results they store; Teardown,
--     Results, Grows, Restore, Passed and Complete are on them.
--   Gubalctl: cmd/gubalctl/policies.go, with Pairs and Lockstep on it and the server's loader;
--     Main: cmd/gubalctl/main.go, with Numbers on its version flags and Sends on its calls.
--   Gubald.Comments: cmd/gubald/svc/smoketest/comments.go. Gubald.Service: smoketest.go beside it,
--     the requests, the allowlist and the semaphore; Answers is on what it answers, Runs has its
--     calls and background goroutines as steps, Browsers is on the browsers of a request.
--   Gubald.Session: the programs of smoketest.go and what they call. Gubald.Sweeps: executeSweep,
--     runSweep, uploadBundle and the goroutine of SubmitSmokeTest; Effects and Complete are on
--     them.
--   Gubald.Clients: github.go and tigris.go, with Repos and Bundles on them. Gubald.Startup:
--     cmd/gubald/main.go from the flags to the server.
--   ChromeSweep: cmd/chrome-sweep/main.go. Browsers is on its version flags, Exits on its status.
--   ChromeBully: the headers and names of cmd/chrome-bully/main.go, Console: console.go, Driver:
--     what they call, Capture: capture and waitForText, Main: run and main. Headers, Frames,
--     Capture.Waiting, Capture.Ends and Main.Once are on them; Reading and Reported are on what
--     chromesweep reads from the log.
--   Examples: the theorems at concrete inputs.
--
-- How the code corresponds. A function of the source has a definition with its name, in snake
-- case; an error path is a value of Result. A method of Cluster and what calls it is a program of
-- type M: a function of a state with the host's world and the list of the writing calls so far. A
-- defer is what follows the `attempt` of the body. A Go string is the list of its bytes.
--
-- What is a parameter. The Kubernetes API through client-go, polling, files, `kubectl cp`, and the
-- decoding of YAML and JSON are fields of the record Host, any functions of a world. PollReturns
-- is what the documentation of PollUntilContextTimeout says of a return without an error. The zip
-- writer is the record BundleIo. Env is what the server calls besides, Cli what chrome-sweep does,
-- and Driver what chrome-bully does: chromedp, files and the clock. Clock says that the time of a
-- context runs out, and Format what a JSON line of log/slog gives when it is read.
--
-- Bounds. Numbers are natural numbers and durations are in seconds, but for the flags of
-- chrome-bully, which are integers. The fuel of the digits of a number in Strings.Numbers is the
-- number itself, which is more than its digits. The fuel of waitForText is its evaluations: more
-- than the time that is left is enough. The fuel of the captures on an interval is their number,
-- and no theorem is about more than one. A bufio.Scanner stops at a line that is over its buffer,
-- which is written out.
--
-- What is not modelled. Cancellation of a context is left to what the calls return; slog messages
-- are left out but for those of chrome-bully, which are read; strings.ToLower is a
-- parameter, and %q, where it is not one, is without escapes; sort.Slice and sort.Strings are
-- insertion sorts, which give the same on keys that differ. Run sweeps the versions one after
-- another, and their interleavings are in Pool and its children. The parsing of flags, the warnings, the HTTP
-- handlers, the verifier of signatures and the listeners of gubald, and the generated code are not
-- modelled.
pub mod ChromeBully
pub mod ChromeSweep
pub mod Chromesweep
pub mod Common
pub mod Examples
pub mod Gubalctl
pub mod Gubald
pub mod Strings
