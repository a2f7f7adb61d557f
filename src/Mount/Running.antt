-- ===== src/Mount/Running.antt =====
-- mount/runner.go and the end of mount.go: execRunner and osFS, which put the interfaces of
-- `Mounter` on os/exec and os. Those are the standard library's: a record of their calls.
use docker_plugin_gce_pd.Prelude.{ℕ, List, [], ◌∷◌, ok, err}
use docker_plugin_gce_pd.Prelude.Bytes.{Bytes, codes}
use docker_plugin_gce_pd.Prelude.Eff.{Eff, ◌>>=◌, return}
use docker_plugin_gce_pd.Errors.{Error, Res, exit_error, killed, wrapped, running}
use docker_plugin_gce_pd.Mount.Commands.{Host}

-- How CombinedOutput ends: with a nil error, an *exec.ExitError with a code from 0 or with -1, or
-- another error.
pub data Ending : Type 0 where
  succeeded : Ending
  exited : ℕ → Ending
  signalled : Ending
  broken : Error → Ending

pub record System (W : Type 0) : Type 0 where
  pub combined_output : List Bytes → Eff W (Bytes × Ending)
  pub stat : Bytes → Eff W (Res (Unit {0}))
  pub mkdir_all : Bytes → Eff W (Res (Unit {0}))
  pub read_file : Bytes → Eff W (Res Bytes)

-- The name of the command stands first.
abbrev command_name : List Bytes → Bytes
command_name [] = []
command_name (name ∷ args) = name

-- run of execRunner after CombinedOutput. The output beside an error is dropped: no caller reads it.
unfoldable pub after_output : List Bytes → Bytes × Ending → Res Bytes
after_output argv (out, succeeded) = ok out
after_output argv (out, exited code) = err (exit_error code)
after_output argv (out, signalled) = err killed
after_output argv (out, broken e) = err (wrapped (running (command_name argv)) e)

module _ {W : Type 0} (system : System W) where
  unfoldable pub exec_run : List Bytes → Eff W (Res Bytes)
  exec_run argv = do r ← system.combined_output argv; return (after_output argv r)

  -- New: execRunner and osFS.
  abbrev pub real_host : Host W
  real_host = record {
    run = exec_run;
    stat = system.stat;
    mkdir_all = system.mkdir_all;
    read_mounts = system.read_file (codes "/proc/mounts");
  }
