-- ===== src/Gce/Opening/Listing.antt =====
-- The adapter's List reads the iterator to its end.
use docker_plugin_gce_pd.Prelude.{
  ℕ, zero, suc, ◌<◌, ◌≡◌, refl, ◌∙◌, ap, ◌++◌, none, some, List, [], ◌∷◌, ok, err, length, arith,
}
use mathlib.Core.List.{append-nil, append_assoc}
use mathlib.Core.Path.{sym}
use docker_plugin_gce_pd.Prelude.Bytes.{Bytes}
use docker_plugin_gce_pd.Errors.{Error, Res}
use docker_plugin_gce_pd.Gce.Info.{DiskProto}
use docker_plugin_gce_pd.Gce.Client.{ComputeApi}
use docker_plugin_gce_pd.Gce.Opening.{Library, Opened, drain, after_next, adapters}

module _ {W D I It O : Type 0} (lib : Library W D I It O) where
  -- Next gives these disks, one at a time, and then Done or an error.
  pub data Answers (it : It) : W → List DiskProto → Res (Unit {0}) → W → Type 0 where
    done : {w w' : W} → lib.next it w ≡ (ok none, w') → Answers it w [] (ok tt) w'
    failed : {w w' : W} {e : Error} → lib.next it w ≡ (err e, w') → Answers it w [] (err e) w'
    gives :
        {w w' w'' : W} {dk : DiskProto} {dks : List DiskProto} {r : Res (Unit {0})}
        → lib.next it w ≡ (ok (some dk), w')
        → Answers it w' dks r w''
        → Answers it w (dk ∷ dks) r w''

  -- All the disks, or the error.
  abbrev pub all_or : List DiskProto → Res (Unit {0}) → Res (List DiskProto)
  all_or dks (ok _) = ok dks
  all_or dks (err e) = err e

  drain-Answers :
      (n : ℕ) (it : It) (out dks : List DiskProto) (r : Res (Unit {0})) {w w' : W}
      → length dks < n
      → Answers it w dks r w'
      → drain lib n it out w ≡ (all_or (out ++ dks) r, w')
  unfolding drain after_next
  drain-Answers zero it out dks r lt a = ground arith
  drain-Answers (suc n) it out _ _ lt (done e) = rw e (ap (λ l. (ok l, _)) (sym (append-nil out)))
  drain-Answers (suc n) it out _ _ lt (failed e) = rw e refl
  drain-Answers (suc n) it out _ r {w' = end} lt (gives {dk = dk} {dks = dks} e a) = rw e (
      drain-Answers n it (out ++ (dk ∷ [])) dks r (omega arith) a
      ∙ ap (λ l. (all_or l r, end)) (append_assoc out (dk ∷ []) dks))

  -- Where the iterator that List opens gives fewer disks than the loop has rounds, and then Done
  -- or an error, List returns all of the disks in their order, or else that error and no disk.
  pub list_disks-all :
      (rounds : ℕ) (c : Opened D I) (project zone filter : Bytes) (dks : List DiskProto)
      (r : Res (Unit {0})) (w w' : W)
      → length dks < rounds
      → Answers
          (lib.list c.disks project zone filter w).0
          (lib.list c.disks project zone filter w).1
          dks
          r
          w'
      → ComputeApi.list_disks (adapters lib rounds c) project zone filter w ≡ (all_or dks r, w')
  unfolding adapters
  list_disks-all rounds c project zone filter dks r w w' lt a =
      drain-Answers rounds (lib.list c.disks project zone filter w).0 [] dks r lt a
