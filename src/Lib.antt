-- ===== src/Lib.antt =====
-- Verification of docker-volume-gcepd, a Docker volume plugin that keeps each volume on a
-- persistent disk of Google Compute Engine.
--
-- The program: Docker calls the methods of the driver (internal/driver/driver.go), which keeps a
-- record of each volume in a store with a file (internal/state/state.go), asks a client
-- (internal/gce) to create, attach, detach and delete disks, and a mounter (internal/mount) to
-- format and mount them. At startup the driver aligns its records with the disks that GCE lists and
-- with what is still mounted (internal/driver/reconcile.go).
--
-- The modules, and the code that they stand for:
--   Prelude            numbers, lists, Go strings as bytes, Go maps as association lists, results,
--                      and calls that take a state and return it
--   Errors             the errors of all packages, with errors.Is and errors.As
--   State              internal/state/state.go: Volume (the record and the closures given to
--                      Update), Json (Marshal and Unmarshal of the records by their struct tags),
--                      Files (the file system and the atomic write), Store (Load and the operations)
--   Gce.Name, Options  internal/gce/options.go: ValidateDiskName, ParseDiskOptions, Matches, labels
--   Gce.Retry          internal/gce/retry.go: the retry loop and isRetryable
--   Gce.Client, Info   internal/gce/gce.go and the data of internal/gce/disk.go
--   Gce.Opening        internal/gce/gce.go: New, Close and the adapters of the Compute library
--   Gce.Disks          internal/gce/disk.go: CreateDisk, GetDisk, DeleteDisk, ListManagedDisks; Phases
--                      has DeleteDisk in steps of one call each, with its retries
--   Gce.Refs, Attach   internal/gce/attach.go: AttachDisk, DetachDisk, taking a disk over; Stamp has
--                      nowStamp
--   Mount              internal/mount/mount.go and runner.go: Paths, Mounts (/proc/mounts), Commands,
--                      Running (execRunner and osFS); Table and Kernel state what Linux and
--                      mount(8) promise of the mount table, as named hypotheses
--   Driver             internal/driver: Interface, Convert (convert.go), Lifecycle (driver.go),
--                      Startup (reconcile.go), Waiting (WaitBackground), Wiring (the client and the
--                      mounter of internal/gce and internal/mount as the driver's interfaces),
--                      Interleaved (requests among the phases of the background deletes)
--   Metadata           internal/metadata/metadata.go: the client of the metadata server
--   Cmd                cmd/docker-volume-gcepd/main.go: Durations (time.ParseDuration), Config
--                      (resolveScope, resolveForceDetachAfter), Run (run, over all of the above)
--   Examples           a small world, and runs of the program in it
-- The other modules below these prove what their names say.
--
-- State and calls: a method of the driver is a function from a `Driver` to its result and the
-- `Driver` after it, whose fields are the store, the world outside and the deletes that are to run
-- in the background. The world is a parameter: the driver sees it through the interfaces gceClient
-- and mounter, the client through the calls of the Compute API and a runtime with the clock, and
-- the mounter through commands and file calls. `run` puts all of them over one world, whose outside
-- is the record `Platform`: net/http, the Compute library, os and os/exec, the environment, the
-- clock, the handler of go-plugins-helpers/volume, which starts and ends goroutines of the driver
-- through its methods alone, and the order in which background deletes end. The mutex of the driver
-- makes each method one step; a background delete is a step of its own, in any order with the
-- others, or goes phase by phase, with requests in between, but not within one. Each counts in the
-- WaitGroup until it ends; what runs between the retries of one call is part of the world's
-- answers. The outcomes of the system calls of the store come from a script, so that any of them
-- may fail.
--
-- Bounds and fuel: RefCount is an int64 kept as its bit pattern below 2 ^ 64. The loops on a clock
-- (retry, WaitForDevice, the wait for a release) run for `rounds` of the runtime and then end with
-- the error `unfinished`, which no code of the program makes; for retry, more rounds than
-- MaxElapsed has nanoseconds are enough, for the wait for a release more than the window has and
-- one, and for WaitForDevice more than its timeout has and one, since each round reads the clock.
-- The adapter's List runs for `list_rounds`, which are enough when they are more than the disks
-- that the iterator gives. A Duration is an int64, as its sign and size.
--
-- Not modelled: third-party and standard libraries, whose calls are parameters (of ParseDuration
-- only the float64 product is one); `main`, which logs the error of run; the scan and the print of
-- the JSON text of the state file, whose content is the values that the text says; goroutine phases
-- between two calls of one request, and the mix of the phases of several goroutines during
-- WaitBackground; the texts of error messages and the log, with statusOrAbsent; case and white
-- space beyond ASCII; operation timeouts, which are errors of the context; and ErrNotOnGCE, which
-- no code tells from other errors.
pub mod Prelude
pub mod Errors
pub mod State
pub mod Gce
pub mod Mount
pub mod Driver
pub mod Metadata
pub mod Cmd
pub mod Examples
