-- ===== src/Driver/Counts.antt =====
-- What the users of the volumes see of the driver: which volumes there are, and how many mounts
-- each of them has; and what the operations of the store change of that.
pub mod Refinement
use mathlib.Core.Path.{fun_ext, subst}
use docker_plugin_gce_pd.Prelude.{
  ℕ, zero, suc, ◌<◌, ◌≤◌, ◌^◌, ◌≡◌, refl, sym, ap, ◌∙◌, ◌⊎◌, inl, inr, false, Option, none, some,
  arith, if◌then◌else◌, Bool-cases,
}
use docker_plugin_gce_pd.Prelude.Bytes.{Bytes, str_eq, str_eq→eq}
use docker_plugin_gce_pd.Prelude.Map.{Map, lookup, lookup-EachOf}
use docker_plugin_gce_pd.State.Volume.{Volume, hold, release, is_positive}
use docker_plugin_gce_pd.Errors.{Res}
use docker_plugin_gce_pd.State.Store
use docker_plugin_gce_pd.State.Store.{Store}
use docker_plugin_gce_pd.State.Updates.{
  lookup-update_at, lookup-add_at, lookup-remove_at, update_missing, add_present,
}
use docker_plugin_gce_pd.Driver.Interface.{GceClient, Mounter, Driver}
use docker_plugin_gce_pd.Driver.Lifecycle.{
  new_record, create, remove, mount, unmount, run_background,
}
use docker_plugin_gce_pd.Driver.Stores.{create-store, remove-store, mount-store, unmount-store}
use docker_plugin_gce_pd.Driver.Removing.{remove_lem}
use docker_plugin_gce_pd.Driver.Invariant.{
  Fits, IsSound, Step, creates, removes, mounts, unmounts, deletes, Reach, here, next,
  Reach-IsSound, run_background-store,
}
use docker_plugin_gce_pd.Mount.Paths.{mountpoint_for}

-- The mounts of each volume that there is.
abbrev pub Counts : Type 0
Counts = Bytes → Option ℕ

abbrev pub put : Bytes → Option ℕ → Counts → Counts
put name c f k = if str_eq name k then c else f k

-- One change: nothing, a volume that comes with no mounts, one without mounts that goes, and a
-- mount more or less of a volume.
pub data Change (f g : Counts) : Type 0 where
  stays : g ≡ f → Change f g
  comes : (name : Bytes) → f name ≡ none → g ≡ put name (some 0) f → Change f g
  goes : (name : Bytes) → f name ≡ some 0 → g ≡ put name none f → Change f g
  gains : (name : Bytes) (n : ℕ) → f name ≡ some n → g ≡ put name (some (suc n)) f → Change f g
  loses : (name : Bytes) (n : ℕ) → f name ≡ some (suc n) → g ≡ put name (some n) f → Change f g

abbrev pub count_of : Option Volume → Option ℕ
count_of none = none
count_of (some v) = some v.ref_count

abbrev pub counts_of : Store → Counts
counts_of s k = count_of (lookup k s.vols)

-- The view of a driver.
abbrev pub counts : {W : Type 0} → Driver W → Counts
counts d = counts_of d.store

counts_of-update :
    (name : Bytes) (fn : Volume → Volume) (s : Store) (v : Volume)
    → lookup name s.vols ≡ some v
    → counts_of (Store.update name fn s).1 ≡ put name (some (fn v).ref_count) (counts_of s)
counts_of-update name fn s v e = fun_ext λ k. rw (lookup-update_at k name fn s v e) (ground arith)

counts_of-add :
    (v : Volume) (s : Store)
    → lookup v.name s.vols ≡ none
    → counts_of (Store.add v s).1 ≡ put v.name (some v.ref_count) (counts_of s)
counts_of-add v s e = fun_ext λ k. rw (lookup-add_at k v s e) (ground arith)

pub counts_of-remove :
    (name : Bytes) (s : Store) (v : Volume)
    → lookup name s.vols ≡ some v
    → counts_of (Store.remove name s).1 ≡ put name none (counts_of s)
counts_of-remove name s v e = fun_ext λ k. rw (lookup-remove_at k name s v e) (ground arith)

-- Putting the count that a volume has changes nothing.
put_same : (name : Bytes) (c : Option ℕ) (f : Counts) → f name ≡ c → put name c f ≡ f
put_same name c f e = fun_ext λ k. elim (Bool-cases (str_eq name k)) [
  | inl same ↦ rw same (sym e ∙ ap f (str_eq→eq name k same))
  | inr other ↦ rw other refl
]

-- What Add, IncRef, DecRef and the store's Remove do to the view.
pub add-Change :
    (v : Volume) (s : Store) → v.ref_count ≡ 0 → Change (counts_of s) (counts_of (Store.add v s).1)
add-Change v s fresh = go (lookup v.name s.vols) refl
  where
    go :
        (o : Option Volume)
        → lookup v.name s.vols ≡ o
        → Change (counts_of s) (counts_of (Store.add v s).1)
    go none e =
        comes v.name (ap count_of e)
          (counts_of-add v s e ∙ ap (λ c. put v.name (some c) (counts_of s)) fresh)
    go (some w) e = stays (ap counts_of (add_present v w s e))

pub hold-Change :
    (n : ℕ) (name target : Bytes) (s : Store)
    → suc n < 2 ^ 63
    → ((v : Volume) → lookup name s.vols ≡ some v → v.ref_count ≤ n)
    → Change (counts_of s) (counts_of (Store.update name (hold target) s).1)
unfolding hold
hold-Change n name target s lt bound = go (lookup name s.vols) refl
  where
    go :
        (o : Option Volume)
        → lookup name s.vols ≡ o
        → Change (counts_of s) (counts_of (Store.update name (hold target) s).1)
    go none e = stays (ap counts_of (update_missing name (hold target) s e))
    go (some v) e = gains name v.ref_count (ap count_of e) (
        counts_of-update name (hold target) s v e
        ∙ ap (λ c. put name (some c) (counts_of s)) (omega (arith, bound v e)))

pub release-Change :
    (n : ℕ) (name : Bytes) (s : Store)
    → n < 2 ^ 63
    → ((v : Volume) → lookup name s.vols ≡ some v → v.ref_count ≤ n)
    → Change (counts_of s) (counts_of (Store.update name release s).1)
unfolding release
release-Change n name s lt bound = go (lookup name s.vols) refl
  where
    count : (v : Volume) (c : ℕ) → v.ref_count ≡ suc c → suc c < 2 ^ 63 → (release v).ref_count ≡ c
    count v c e k = ground arith

    idle : (v : Volume) → v.ref_count ≡ 0 → (release v).ref_count ≡ 0
    idle v e = ground arith

    some' :
        (v : Volume) (c : ℕ)
        → lookup name s.vols ≡ some v
        → v.ref_count ≡ c
        → Change (counts_of s) (counts_of (Store.update name release s).1)
    some' v zero e same = stays (
        counts_of-update name release s v e
        ∙ put_same name (some (release v).ref_count) (counts_of s)
            (ap count_of e ∙ ap some (same ∙ sym (idle v same))))
    some' v (suc c) e same = loses name c (ap count_of e ∙ ap some same) (
        counts_of-update name release s v e
        ∙ ap (λ m. put name (some m) (counts_of s)) (count v c same (omega (arith, bound v e))))

    go :
        (o : Option Volume)
        → lookup name s.vols ≡ o
        → Change (counts_of s) (counts_of (Store.update name release s).1)
    go none e = stays (ap counts_of (update_missing name release s e))
    go (some v) e = some' v v.ref_count e refl
