-- ===== src/State/Volume.antt =====
-- state.go: `Status`, `VolumeOptions`, `Volume`, and the changes that the closures given to
-- `Update` make to a volume. `RefCount` is an int64, kept as its bit pattern below 2 ^ 64.
use docker_plugin_gce_pd.Prelude.{ℕ, ◌+◌, ◌-◌, ◌%◌, ◌^◌, Bool, ◌&&◌, ◌==◌}
use docker_plugin_gce_pd.Prelude.{[], ltb, if◌then◌else◌}
use docker_plugin_gce_pd.Prelude.Bytes.{Bytes, codes}
use docker_plugin_gce_pd.Prelude.Map.{Map}

-- Any string of the state file; the program sets it to one of these two.
abbrev pub Status : Type 0
Status = Bytes

abbrev pub created : Status
created = codes "created"

abbrev pub mounted : Status
mounted = codes "mounted"

pub record VolumeOptions : Type 0 where
  pub size_gb : ℕ
  pub disk_type : Bytes
  pub fs_type : Bytes
  pub labels : Map Bytes
  pub source_snapshot : Bytes
  pub source_image : Bytes
  pub snapshot_on_remove : Bool
  pub reclaim_policy : Bytes

pub record Volume : Type 0 where
  pub name : Bytes
  pub options : VolumeOptions
  pub status : Status
  pub mountpoint : Bytes
  pub ref_count : ℕ
  pub created_at : Bytes

-- `RefCount > 0` on the bit pattern of an int64.
unfoldable pub is_positive : ℕ → Bool
is_positive n = ltb 0 n && ltb n (2 ^ 63)

-- The closure of IncRef.
unfoldable pub hold : Bytes → Volume → Volume
hold mountpoint v = record v {
  ref_count = (v.ref_count + 1) % 2 ^ 64;
  status = mounted;
  mountpoint = mountpoint;
}

-- `if v.RefCount > 0 { v.RefCount-- }`, which cannot wrap.
unfoldable pub one_less : ℕ → ℕ
unfolding is_positive
one_less n = if is_positive n then n - 1 else n

-- What DecRef and ResetRefCounts do to a volume that nobody uses.
unfoldable pub settle : Volume → Volume
settle v = record v { status = created; mountpoint = [] }

-- The closure of DecRef.
unfoldable pub release : Volume → Volume
unfolding one_less settle
release v =
    let w : Volume = record v { ref_count = one_less v.ref_count } in
    if w.ref_count == 0 then settle w else w

-- The loop body of ResetRefCounts.
unfoldable pub reset : Volume → Volume
unfolding settle
reset v = settle (record v { ref_count = 0 })

-- The closure of SetMounted.
unfoldable pub restore : Bytes → Volume → Volume
restore mountpoint v = record v { ref_count = 1; status = mounted; mountpoint = mountpoint }
