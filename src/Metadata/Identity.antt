-- ===== src/Metadata/Identity.antt =====
-- What Fetch gives: the zone cut out of the server's path, and nothing in part.
use mathlib.Core.Path.{subst}
use docker_plugin_gce_pd.Prelude.{sym, ap, ◌≡◌, ◌≢◌, Option, none, some, [], ◌++◌, ok, err, arith}
use docker_plugin_gce_pd.Prelude.Bytes.{Bytes, codes, str_eq_iff}
use docker_plugin_gce_pd.Errors.{Res}
use docker_plugin_gce_pd.Gce.Info.{after_last}
use docker_plugin_gce_pd.Gce.Info.Segments.{NoSlash, Cut, after_last-Cut, after_last-append}
use docker_plugin_gce_pd.Metadata.{
  Client, Metadata, short_zone, checked_zone, after_zone, get, project_id, zone, instance_name,
  fetch_name, fetch_zone, fetch,
}

short_zone-NoSlash : (raw : Bytes) → NoSlash (short_zone raw)
unfolding short_zone
short_zone-NoSlash raw = go (after_last b'/' raw) (after_last-Cut raw)
  where
    go : (o : Option Bytes) → Cut raw o → NoSlash (elim o [ none ↦ raw | some rest ↦ rest ])
    go none h = h
    go (some r) h = h

-- The name of a zone.
abbrev pub ZoneName : Bytes → Type 0
ZoneName z = (z ≢ []) × NoSlash z

checked_zone_inv : (raw z : Bytes) → checked_zone raw ≡ ok z → (short_zone raw ≡ z) × (z ≢ [])
unfolding checked_zone
checked_zone_inv raw z h = (
  ground (arith, str_eq_iff (short_zone raw) []),
  λ e. ground (arith, str_eq_iff (short_zone raw) []),
)

checked_zone-ZoneName : (raw z : Bytes) → checked_zone raw ≡ ok z → ZoneName z
checked_zone-ZoneName raw z h =
    let (same, some') = checked_zone_inv raw z h in
    (some', subst NoSlash same (short_zone-NoSlash raw))

after_zone-ZoneName : (r : Res Bytes) (z : Bytes) → after_zone r ≡ ok z → ZoneName z
unfolding after_zone
after_zone-ZoneName (err e) z h = cc
after_zone-ZoneName (ok raw) z h = checked_zone-ZoneName raw z h

module _ {W : Type 0} (c : Client W) where
  zone-ZoneName : (w : W) (z : Bytes) → (zone c w).0 ≡ ok z → ZoneName z
  unfolding zone
  zone-ZoneName w z h = after_zone-ZoneName (get c (codes "instance/zone") w).0 z h

  fetch_name_inv :
      (p : Bytes) (r : Res Bytes) (w : W) (m : Metadata)
      → (fetch_name c p r w).0 ≡ ok m
      → (m.project_id ≡ p) × (r ≡ ok m.zone)
  unfolding fetch_name
  fetch_name_inv p (err e) w m h = cc
  fetch_name_inv p (ok z) w m h = ground arith

  fetch_zone_inv :
      (r : Res Bytes) (w : W) (m : Metadata)
      → (fetch_zone c r w).0 ≡ ok m
      → (r ≡ ok m.project_id) × ((zone c w).0 ≡ ok m.zone)
  unfolding fetch_zone
  fetch_zone_inv (err e) w m h = cc
  fetch_zone_inv (ok p) w m h =
      let (same, zoned) = fetch_name_inv p (zone c w).0 (zone c w).1 m h in
      (ap ok (sym same), zoned)

  -- The identity that Fetch returns has the project that the server named, and a zone that is not
  -- empty and has no slash.
  pub fetch_ok :
      (w : W) (m : Metadata)
      → (fetch c w).0 ≡ ok m
      → ((project_id c w).0 ≡ ok m.project_id) × ZoneName m.zone
  unfolding fetch
  fetch_ok w m h =
      let (named, zoned) = fetch_zone_inv (project_id c w).0 (project_id c w).1 m h in
      (named, zone-ZoneName (project_id c w).1 m.zone zoned)

  -- Where the server answers the three requests and the zone's answer ends in a slash and the name
  -- of a zone, Fetch returns the project, that name and the instance, after these requests alone.
  pub fetch_lem :
      (w w1 w2 w3 : W) (p n a z : Bytes)
      → ZoneName z
      → project_id c w ≡ (ok p, w1)
      → get c (codes "instance/zone") w1 ≡ (ok (a ++ (codes "/" ++ z)), w2)
      → instance_name c w2 ≡ (ok n, w3)
      → fetch c w ≡ (ok (record { project_id = p; zone = z; instance_name = n }), w3)
  unfolding fetch fetch_zone fetch_name zone after_zone checked_zone short_zone
  fetch_lem w w1 w2 w3 p n a z (some', clean) first second third =
      ground (arith, after_last-append a z clean, str_eq_iff z [])
