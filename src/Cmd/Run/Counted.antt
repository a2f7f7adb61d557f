-- ===== src/Cmd/Run/Counted.antt =====
-- A count of the REST clients that are open, and the calls of run that leave it as it is.
use docker_plugin_gce_pd.Prelude.{
  ℕ, zero, suc, ◌+◌, ◌-◌, ◌≡◌, refl, ◌∙◌, Option, none, some, List, [], ◌∷◌, ◌++◌, ok, err, is_ok,
  if◌then◌else◌,
}
use docker_plugin_gce_pd.Prelude.Bytes.{Bytes, codes}
use docker_plugin_gce_pd.Prelude.Map.{Map}
use docker_plugin_gce_pd.Prelude.Eff.{Eff, ◌>>=◌, return}
use docker_plugin_gce_pd.Errors.{Error, Res, wrapped, building_request}
use docker_plugin_gce_pd.Gce.Info.{DiskProto}
use docker_plugin_gce_pd.Gce.Retry.Outcome.{Quiet, Keeps, handled-Keeps}
use docker_plugin_gce_pd.Gce.Client.{NewSnapshot}
use docker_plugin_gce_pd.Gce.Disks.Keeping.{Untouched}
use docker_plugin_gce_pd.Prelude.{◌-◌}
use docker_plugin_gce_pd.Gce.Opening.{Opened, adapters, drain, after_next}
use docker_plugin_gce_pd.Mount.Commands.{is_mounted}
use docker_plugin_gce_pd.Metadata as MetadataServer
use docker_plugin_gce_pd.Metadata.{Metadata}
use docker_plugin_gce_pd.Driver.Interface.{Driver}
use docker_plugin_gce_pd.Cmd.Run.{Platform, client_of, mounter}

module _ {W D I It O : Type 0} (p : Platform W D I It O) (live : W → ℕ) where
  -- `live` counts the clients of the library that are open: its constructors open one, or none
  -- where they return an error, its Close closes one, and nothing else opens or closes any.
  pub record CountsClients : Type 0 where
    pub opens_disks :
        (c : Option Bytes) (w : W)
        → live (p.lib.new_disks_client c w).1
          ≡ (if is_ok (p.lib.new_disks_client c w).0 then 1 + live w else live w)
    pub opens_instances :
        (c : Option Bytes) (w : W)
        → live (p.lib.new_instances_client c w).1
          ≡ (if is_ok (p.lib.new_instances_client c w).0 then 1 + live w else live w)
    pub closes_disks : (c : D) (w : W) → live (p.lib.close_disks c w).1 ≡ live w - 1
    pub closes_instances : (c : I) (w : W) → live (p.lib.close_instances c w).1 ≡ live w - 1
    pub by_get : (c : D) (j z name : Bytes) (w : W) → live (p.lib.get c j z name w).1 ≡ live w
    pub by_list : (c : D) (j z filter : Bytes) (w : W) → live (p.lib.list c j z filter w).1 ≡ live w
    pub by_next : (it : It) (w : W) → live (p.lib.next it w).1 ≡ live w
    pub by_delete : (c : D) (j z name : Bytes) (w : W) → live (p.lib.delete c j z name w).1 ≡ live w
    pub by_snapshot :
        (c : D) (j z name : Bytes) (s : NewSnapshot) (w : W)
        → live (p.lib.create_snapshot c j z name s w).1 ≡ live w
    pub by_labels :
        (c : D) (j z name f : Bytes) (l : Map Bytes) (w : W)
        → live (p.lib.set_labels c j z name f l w).1 ≡ live w
    pub by_wait : (op : O) (w : W) → live (p.lib.wait op w).1 ≡ live w
    pub by_runtime : (n : ℕ) → Quiet p.runtime (λ w. live w ≡ n)
    pub by_http : (url : Bytes) (h : Bytes × Bytes) (w : W) → live (p.http.get url h w).1 ≡ live w
    pub by_read : (path : Bytes) (w : W) → live (p.system.read_file path w).1 ≡ live w
    pub by_serve :
        (c : Opened D I) (d : Driver W)
        → live (p.serve_unix (client_of p c) (mounter p) d).1.world ≡ live d.world

  module _ (counts : CountsClients) where
    after_next-live :
        (again : DiskProto → Eff W (Res (List DiskProto))) (out : List DiskProto)
        (r : Res (Option DiskProto)) (w : W)
        → ((dk : DiskProto) (v : W) → live (again dk v).1 ≡ live v)
        → live (after_next p.lib again out r w).1 ≡ live w
    unfolding after_next
    after_next-live again out (err e) w h = refl
    after_next-live again out (ok none) w h = refl
    after_next-live again out (ok (some dk)) w h = h dk w

    drain-live :
        (n : ℕ) (it : It) (out : List DiskProto) (w : W) → live (drain p.lib n it out w).1 ≡ live w
    unfolding drain
    drain-live zero it out w = refl
    drain-live (suc n) it out w =
        let r = p.lib.next it w in
        after_next-live (λ dk. drain p.lib n it (out ++ (dk ∷ []))) out r.0 r.1
          (λ dk v. drain-live n it (out ++ (dk ∷ [])) v)
        ∙ counts.by_next it w

    pub adapters-Untouched :
        (n : ℕ) (c : Opened D I) → Untouched (adapters p.lib p.list_rounds c) (λ w. live w ≡ n)
    unfolding adapters
    adapters-Untouched n c = record {
      by_get = λ j z name w h. counts.by_get c.disks j z name w ∙ h;
      by_list = λ j z filter w h.
          drain-live p.list_rounds (p.lib.list c.disks j z filter w).0 []
            (p.lib.list c.disks j z filter w).1
          ∙ counts.by_list c.disks j z filter w
          ∙ h;
      by_delete = λ j z name w h. counts.by_delete c.disks j z name w ∙ h;
      by_snapshot = λ j z name s w h. counts.by_snapshot c.disks j z name s w ∙ h;
      by_labels = λ j z name f l w h. counts.by_labels c.disks j z name f l w ∙ h;
      by_wait = λ op w h. counts.by_wait op w ∙ h;
    }

    pub is_mounted-live :
        (n : ℕ) (target : Bytes) → Keeps (λ w. live w ≡ n) ((mounter p).is_mounted target)
    unfolding is_mounted
    is_mounted-live n target w h =
        let r = p.system.read_file (codes "/proc/mounts") w in
        handled-Keeps (λ w. live w ≡ n) r.0 _ _ r.1 (counts.by_read (codes "/proc/mounts") w ∙ h)
          (λ a v q. q) (λ e v q. q)

    abbrev pub server : MetadataServer.Client W
    server = MetadataServer.new p.http []

    request-live :
        (o : Option Error) (path url : Bytes) (w : W)
        → live
            ((elim o as (λ x. Eff W (Res Bytes)) [
              | some e ↦ return (err (wrapped (building_request path) e))
              | none ↦ do
                r ← p.http.get url MetadataServer.flavor_header
                return (MetadataServer.after_do path r)
            ])
              w).1
          ≡ live w
    request-live (some e) path url w = refl
    request-live none path url w = counts.by_http url MetadataServer.flavor_header w

    get-live : (path : Bytes) (w : W) → live (MetadataServer.get server path w).1 ≡ live w
    unfolding MetadataServer.get MetadataServer.new MetadataServer.apply_options
    get-live path w =
        let url = MetadataServer.url_of server path in
        request-live (p.http.invalid_url url) path url w

    fetch_name-live :
        (j : Bytes) (r : Res Bytes) (w : W)
        → live (MetadataServer.fetch_name server j r w).1 ≡ live w
    unfolding MetadataServer.fetch_name MetadataServer.instance_name
    fetch_name-live j (err e) w = refl
    fetch_name-live j (ok z) w =
        let r = MetadataServer.instance_name server w in
        handled-Keeps (λ v. live v ≡ live w) r.0 _ _ r.1 (get-live (codes "instance/name") w)
          (λ a v q. q) (λ e v q. q)

    fetch_zone-live :
        (r : Res Bytes) (w : W) → live (MetadataServer.fetch_zone server r w).1 ≡ live w
    unfolding MetadataServer.fetch_zone MetadataServer.zone
    fetch_zone-live (err e) w = refl
    fetch_zone-live (ok j) w =
        let r = MetadataServer.zone server w in
        fetch_name-live j r.0 r.1 ∙ get-live (codes "instance/zone") w

    pub fetch-live : (w : W) → live (MetadataServer.fetch server w).1 ≡ live w
    unfolding MetadataServer.fetch MetadataServer.project_id
    fetch-live w =
        let r = MetadataServer.project_id server w in
        fetch_zone-live r.0 r.1 ∙ get-live (codes "project/project-id") w

    pub on_gce-live : (w : W) → live (MetadataServer.on_gce server w).1 ≡ live w
    unfolding MetadataServer.on_gce
    on_gce-live w = get-live (codes "project/project-id") w
