-- ===== src/Lib.antt =====
-- A verification library of cpa-codex-auto-reset, a plugin that spends the rate-limit reset credits of
-- Codex accounts before they expire.
--
-- How the parts interact. A scan (`Scan`, internal/reset/engine.go) discovers the accounts, reconciles
-- them with the state file and runs `processAccount` on each. That reads the usage and the credits
-- from the Codex service, decides whether a credit is worth spending, writes the attempt down, sends
-- `Consume`, verifies the result, and clears the host's own cooldown. The state file is shared with
-- the web handler, which sets the participation flags.
--
-- Which file models which part:
--   Account                  internal/account/discovery.go: `Account`; Account/Discovery: `Discover`
--   Config                   internal/config/config.go: `Config`, `Safe`; Config/Parse: `Parse`, `Validate`
--   State                    internal/state/model.go; State/Participation and State/Reconcile:
--                            internal/state/participation.go; State/Store: internal/state/store.go;
--                            State/Shared: `Update` from several callers, under the file lock of
--                            internal/state/lock_unix.go
--   Codex                    internal/codex/client.go: the data; Codex/Http: the reply in `do`,
--                            `parseRetryAfter`; Codex/ReadUsage, ReadCredits, ReadConsume: what the
--                            three requests read; Codex/Requests: `NewClient`, the request in `do`,
--                            `Usage`, `Credits`, `Consume` as a whole
--   Management               internal/management/client.go: the error; Management/ResetQuota:
--                            `ResetQuota`
--   Reset/Updates, Housekeeping  internal/reset/engine.go: the closures given to `Store.Update`
--   Reset/Backoff, Attempts  the same file: delays, credits, attempts
--   Reset/Exec               the monad in which the engine runs
--   Reset/Engine, Process, Scan  the engine's operations, in the order of the code
--   Reset/Lifecycle          the same file: `New`, `Start`, its goroutine, `Stop`, the locks of `Scan`
--   Reset/AccountLocks       the same file: `accountLock` and the mutex that `processAccount` holds
--   Reset/WriteAhead, Gate, Quiet, Resolve, LogBound, Persistence  theorems on the engine
--   Web                      internal/web/handler.go: the status page, the account list,
--                            `nextAllowedAt`; Web/Origin: `sameOrigin`; Web/Newest: the loop of `logs`;
--                            Web/Pages: the handlers; Web/Routes: `Registration`, `Handle`, `route`;
--                            Web/Accepted, Routes/Guarded, Routes/Served: theorems on these
--   Host                     internal/host/client.go, and `callHost` of main.go
--   Plugin                   internal/plugin/runtime.go: Plugin/Runtime has the state and the locked
--                            sections of `Handle` and `Shutdown`, Plugin/System their interleavings,
--                            Plugin/Handle the other methods, Plugin/Sanitize `SanitizeError`;
--                            Plugin/Entry: the exported functions of main.go
--   Plugin/Owned, Settled, Overlap  theorems on the runtime
--   Examples                 concrete runs
--
-- How the engine is modelled. An action takes a world (the state file, the number of the interaction,
-- the calls sent so far) to a result and a world. Everything that the engine does not decide is
-- answered by an environment, by the number of the interaction: the clock, cancellation, the services,
-- failures of the disk, random bytes, and the calls of `SetParticipation` that other goroutines make
-- between two accesses to the file. Two engine operations on
-- one account exclude each other by a mutex and are not interleaved. A log entry or an update whose
-- error the code ignores is an action whose result is dropped.
--
-- The life of an engine and of the runtime. Here goroutines do interleave: each is a sequence of steps
-- between two accesses of shared memory, and a list of events or turns says whose step comes next. A
-- step that the state does not allow changes nothing, so every list is a schedule. The engines that
-- the runtime builds are numbered; in the runtime's system `Stop` is the swap of its flag with the cancellation that follows it, and what
-- its waits give is said of one engine. The life of an engine leaves out what a scan does between
-- its second check and the release of the lock: that is `scan_locked` of Reset/Scan.
--
-- Numbers. Times are nanoseconds from the earliest `time.Time`; durations and Go's integers are
-- signed, with int64 wrap-around where the code multiplies. A float64 percentage is counted in units of
-- 2^-1074, of which every finite float64 is a multiple. Go leaves the conversion of a float64 beyond
-- int64 to the platform: it is a parameter. Loops are structural recursion, and decimal digits recurse
-- on accessibility; only the loop that turns the log around is bounded, by as many rounds as the log
-- has entries, and the result about it holds for every log.
--
-- The counters of the state (`Attempt.VerificationCount`, `Backoff.Level`, `PendingLocalClear.Attempts`,
-- the counts of a scan) are natural numbers without a bound: each is read from the state file or grows
-- by one at a time, and does not come near the end of an int.
--
-- Texts are sequences of Unicode characters, not bytes; where the code counts bytes, the length is that
-- of UTF-8.
--
-- Parameters, for code that is not in the repository or only wraps a system: SHA-256, JSON, YAML, URLs,
-- IP addresses, dates in RFC 3339 and in HTTP, base64, letter case, the HTTP transport, the host.
--
-- Not modelled: the Windows twin of the file lock and the synchronisation of directories
-- (lock_windows.go, sync_unix.go, sync_windows.go), which wrap system calls and stand as stages that
-- may fail; the float product of `jitterFor`, a parameter; `EqualExceptSecret`, which only tests call; the
-- texts of the registration; C memory beyond nil pointers and failed allocations; the pages' assets.
pub mod Prelude
pub mod Account
pub mod Config
pub mod State
pub mod Codex
pub mod Management
pub mod Reset
pub mod Web
pub mod Host
pub mod Plugin
pub mod Examples
