-- ===== src/Examples/OneMount.antt =====
-- A host that can mount one disk, at one place, with its mount table.
use docker_plugin_gce_pd.Prelude.{
  sym, ap, Bool-cases, inl, inr, ◌≡◌, refl, Bool, true, false, not, ◌&&◌, List, [], ◌∷◌, ◌++◌, ok,
  err, arith, if◌then◌else◌,
}
use docker_plugin_gce_pd.Prelude.Bytes.{Bytes, codes, str_eq, str_eq_iff}
use docker_plugin_gce_pd.Prelude.Eff.{Eff}
use docker_plugin_gce_pd.Errors.{Error, Res, system}
use docker_plugin_gce_pd.Prelude.Bytes.{is_space, str_eq_refl}
use docker_plugin_gce_pd.Prelude.{not, ◌&&◌}
use docker_plugin_gce_pd.Mount.Table.{NoSpace}
use docker_plugin_gce_pd.Mount.Paths.{clean, mountpoint_for}
use docker_plugin_gce_pd.Mount.Table.{Entry, IsEntry, AreEntries, text_of, without_top}
use docker_plugin_gce_pd.Mount.Commands.{Host}
use docker_plugin_gce_pd.Mount.Kernel.{Kernel}
use docker_plugin_gce_pd.Prelude.{◌++◌, ◌&&◌}
use docker_plugin_gce_pd.Mount.Table.{without_top}
use docker_plugin_gce_pd.Mount.Paths.{clean, mountpoint_for}

abbrev pub place : Bytes
place = codes "/var/lib/docker-gcepd/mounts/data-1"

abbrev pub entry : Entry
entry = record { device = codes "/dev/sdb"; target = place; rest = codes "ext4 rw 0 0" }

abbrev pub root : Entry
root = record { device = codes "/dev/sda1"; target = codes "/"; rest = codes "ext4 rw 0 0" }

abbrev plain : Bytes → Bool
plain [] = true
plain (c ∷ cs) = not (is_space c) && plain cs

plain-NoSpace : (w : Bytes) → plain w ≡ true → NoSpace w
plain-NoSpace [] h = tt
plain-NoSpace (c ∷ cs) h = (ground arith, plain-NoSpace cs (ground arith))

root-IsEntry : IsEntry root
unfolding str_eq is_space
root-IsEntry = record {
  device = (refl, plain-NoSpace root.device refl);
  target = (refl, plain-NoSpace root.target refl);
  rest = ground arith;
}

entry-IsEntry : IsEntry entry
unfolding str_eq is_space
entry-IsEntry = record {
  device = (refl, plain-NoSpace entry.device refl);
  target = (refl, plain-NoSpace entry.target refl);
  rest = ground arith;
}

pub both-AreEntries : AreEntries (root ∷ entry ∷ [])
both-AreEntries = (root-IsEntry, (entry-IsEntry, tt))

-- Whether the disk is mounted.
abbrev pub table : Bool → List Entry
table false = root ∷ []
table true = root ∷ entry ∷ []

abbrev pub refused : Eff Bool (Res Bytes)
refused w = (err (system (codes "refused")), w)

abbrev pub mount_args : List Bytes → Eff Bool (Res Bytes)
mount_args (device ∷ target ∷ []) false =
    if str_eq target place then (ok [], true) else refused false
mount_args args w = refused w

abbrev pub umount_args : List Bytes → Eff Bool (Res Bytes)
umount_args (target ∷ []) true = if str_eq target place then (ok [], false) else refused true
umount_args args w = refused w

abbrev pub command : List Bytes → Eff Bool (Res Bytes)
command [] w = refused w
command (name ∷ args) w =
    if str_eq name (codes "mount")
    then mount_args args w
    else if str_eq name (codes "umount")
    then umount_args args w
    else (ok (codes "ext4"), w)

abbrev pub host : Host Bool
host = record {
  run = command;
  stat = λ path w. (ok tt, w);
  mkdir_all = λ path w. (ok tt, w);
  read_mounts = λ w. (ok (text_of (table w)), w);
}

place_lem : (target : Bytes) → str_eq target place ≡ true → target ≡ place
place_lem target = (str_eq_iff target place).0

table-AreEntries : (w : Bool) → AreEntries (table w)
table-AreEntries false = (root-IsEntry, tt)
table-AreEntries true = both-AreEntries

mounts_place :
    (device target out : Bytes) (w : Bool)
    → (command (codes "mount" ∷ device ∷ target ∷ []) w).0 ≡ ok out
    → (e : Entry) × (clean e.target ≡ clean target)
      × (table (command (codes "mount" ∷ device ∷ target ∷ []) w).1 ≡ table w ++ (e ∷ []))
unfolding str_eq
mounts_place device target out false h = elim (Bool-cases (str_eq target place)) [
  | inl at ↦ (entry, ap clean (sym (place_lem target at)), ground (arith, at))
  | inr other ↦ let no : ⊥ = ground (arith, h, other) in elim no [ ]
]
mounts_place device target out true h = let no : ⊥ = cc in elim no [ ]

mount_refused :
    (device target : Bytes) (x : Error) (w : Bool)
    → (command (codes "mount" ∷ device ∷ target ∷ []) w).0 ≡ err x
    → table (command (codes "mount" ∷ device ∷ target ∷ []) w).1 ≡ table w
unfolding str_eq
mount_refused device target x false h = ground (arith, h)
mount_refused device target x true h = refl

off_place : without_top place (root ∷ entry ∷ []) ≡ root ∷ []
unfolding without_top str_eq clean docker_plugin_gce_pd.Mount.Paths.push_segment
off_place = refl

umounts_place :
    (target out : Bytes) (w : Bool)
    → (command (codes "umount" ∷ target ∷ []) w).0 ≡ ok out
    → table (command (codes "umount" ∷ target ∷ []) w).1 ≡ without_top target (table w)
unfolding str_eq
umounts_place target out true h = elim (Bool-cases (str_eq target place)) [
  | inl at ↦ ground (arith, place_lem target at, str_eq_refl place, off_place)
  | inr other ↦ let no : ⊥ = ground (arith, h, other) in elim no [ ]
]
umounts_place target out false h = let no : ⊥ = cc in elim no [ ]

umount_refused :
    (target : Bytes) (x : Error) (w : Bool)
    → (command (codes "umount" ∷ target ∷ []) w).0 ≡ err x
    → table (command (codes "umount" ∷ target ∷ []) w).1 ≡ table w
unfolding str_eq
umount_refused target x true h = ground (arith, h)
umount_refused target x false h = refl

pub host-Kernel : Kernel host table
host-Kernel = record {
  entries = table-AreEntries;
  reads = λ text w e. let same : text_of (table w) ≡ text = cc in sym same;
  by_read = λ w. refl;
  by_mkdir = λ path w. refl;
  mounts = mounts_place;
  mount_fails = mount_refused;
  unmounts = umounts_place;
  unmount_fails = umount_refused;
}
