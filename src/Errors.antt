-- ===== src/Errors.antt =====
-- The errors of the program, from every package under internal/. A message is a constructor with
-- the values that the code formats into it; `wrapped` is `fmt.Errorf` with one `%w`, so that
-- `errors.Is` and `errors.As` look through it, and `%v` is a plain argument.
use docker_plugin_gce_pd.Prelude.{ℕ, Bool, true, false, Option, none, some, List, ◌==◌}
use docker_plugin_gce_pd.Prelude.{Result}
use docker_plugin_gce_pd.Prelude.Bytes.{Bytes}

-- The prefix that a `%w` message puts in front of the error that it wraps.
pub data Doing : Type 0 where
  creating_state_dir reading_state_file parsing_state_file : Doing
  writing_temp_state renaming_state : Doing
  waiting_for_operation : Doing
  creating_disk getting_disk deleting_disk marking_deleting snapshotting : Bytes → Doing
  listing_disks : Doing
  attaching_disk detaching_disk failing_over : Bytes → Bytes → Doing
  probing_device formatting_device : Bytes → Doing
  creating_mountpoint mounting unmounting : Bytes → Doing
  reading_mounts : Doing
  rolled_back adopting mount_state_write : Bytes → Doing
  building_request reading_metadata running : Bytes → Doing
  creating_disks_client creating_instances_client : Doing

pub data Error : Type 0 where
  -- no error, but the end of the process by a panic
  panicked : Error
  -- an error of the operating system, of net/http or of os/exec
  system : Bytes → Error
  -- `*googleapi.Error` with its Code
  googleapi : ℕ → Error
  -- an error with a gRPC status, with its code
  grpc_status : ℕ → Error
  -- `ctx.Err()`
  context_done : Error
  -- `fmt.Errorf("%w: %s", ErrDiskNotFound, name)`
  disk_not_found : Bytes → Error
  -- `*RetryExhaustedError`
  retry_exhausted : ℕ → Error → Error
  -- no error of the program: a loop of the model has used up its rounds
  unfinished : Error
  -- `*exitError` of the command runner, with its code
  exit_error : ℕ → Error
  -- the same with the code -1, of a command that a signal has ended
  killed : Error
  wrapped : Doing → Error → Error
  -- package state
  already_in_state not_in_state : Bytes → Error
  -- ParseDiskOptions, parseLabels and ValidateDiskName
  invalid_size invalid_type invalid_fs invalid_bool invalid_policy unknown_option : Bytes → Error
  invalid_label reserved_label : Bytes → Error
  exclusive_sources : Error
  empty_name : Error
  long_name : Bytes → Error
  malformed_name : Bytes → Error
  -- package driver
  volume_not_found different_options still_deleting : Bytes → Error
  not_managed mismatched_disk : Bytes → Error
  in_use : Bytes → ℕ → Error
  -- both errors are formatted with `%v`
  orphaned : Bytes → Error → Error → Error
  -- package gce
  still_attached : Bytes → List Bytes → Error
  attached_elsewhere : Bytes → Bytes → Error
  -- package mount
  device_timeout : Bytes → Error
  unsupported_filesystem : Bytes → Error
  -- package metadata
  -- `fmt.Errorf("%w: %v", ErrNotOnGCE, err)`: only the first is wrapped
  unreachable : Error → Error
  -- the code, the path and the trimmed body
  metadata_status : ℕ → Bytes → Bytes → Error
  empty_zone : Error
  -- package main
  not_on_gce : Error
  -- the variable of the environment and its value
  invalid_setting : Bytes → Bytes → Error

-- A Go call that returns a value and an error.
abbrev pub Res {ℓ} : Type ℓ → Type ℓ
Res A = Result Error A

-- `errors.Is(err, gce.ErrDiskNotFound)`
unfoldable pub is_disk_not_found : Error → Bool
is_disk_not_found (disk_not_found _) = true
is_disk_not_found (retry_exhausted _ e) = is_disk_not_found e
is_disk_not_found (wrapped _ e) = is_disk_not_found e
is_disk_not_found _ = false

-- `errors.As(err, &gerr)` at `*googleapi.Error`: the code that it finds.
unfoldable pub as_googleapi : Error → Option ℕ
as_googleapi (googleapi code) = some code
as_googleapi (retry_exhausted _ e) = as_googleapi e
as_googleapi (wrapped _ e) = as_googleapi e
as_googleapi _ = none

-- `isNotFound` of gce/disk.go
unfoldable pub is_not_found : Error → Bool
unfolding as_googleapi
is_not_found e = elim (as_googleapi e) [ none ↦ false | some code ↦ code == 404 ]
