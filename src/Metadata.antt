-- ===== src/Metadata.antt =====
-- internal/metadata/metadata.go: the client of the metadata server. What net/http does with a
-- request is a `Transport`, over the world `W`.
pub mod Identity
use docker_plugin_gce_pd.Prelude.{
  ℕ, ◌++◌, not, Option, none, some, List, [], ◌∷◌, ok, err, take, length, leb, ◌==◌, if◌then◌else◌,
  is_ok,
}
use docker_plugin_gce_pd.Prelude.Bytes.{
  Bytes, codes, str_eq, trim_space, trim_left_byte, trim_right_byte,
}
use docker_plugin_gce_pd.Prelude.Eff.{Eff, ◌>>=◌, return}
use docker_plugin_gce_pd.Errors.{
  Error, Res, wrapped, building_request, reading_metadata, unreachable, metadata_status, empty_zone,
}
use docker_plugin_gce_pd.Gce.Info.{after_last}
use docker_plugin_gce_pd.Prelude.{Bool}

-- The body is what can be read of it before the error, where there is one, or its end.
pub record Response : Type 0 where
  pub status_code : ℕ
  pub body : Bytes
  pub broken : Option Error

pub record Transport (W : Type 0) : Type 0 where
  -- the error of `http.NewRequestWithContext` on a URL
  pub invalid_url : Bytes → Option Error
  -- `Do` on a GET of a URL with one header
  pub get : Bytes → Bytes × Bytes → Eff W (Res Response)

pub record Client (W : Type 0) : Type 0 where
  pub base_url : Bytes
  pub http : Transport W

pub record Metadata : Type 0 where
  pub project_id : Bytes
  pub zone : Bytes
  pub instance_name : Bytes

abbrev pub default_base_url : Bytes
default_base_url = codes "http://metadata.google.internal/computeMetadata/v1"

abbrev pub flavor_header : Bytes × Bytes
flavor_header = (codes "Metadata-Flavor", codes "Google")

-- `io.ReadAll` of `io.LimitReader(body, n)`: an error after the first `n` bytes is not met.
unfoldable pub read_limited : ℕ → Response → Res Bytes
read_limited n r =
    if leb n (length r.body)
    then ok (take n r.body)
    else elim r.broken [ none ↦ ok r.body | some e ↦ err e ]

-- `strings.LastIndex(raw, "/")`, and what stands after it.
unfoldable pub short_zone : Bytes → Bytes
short_zone raw = elim (after_last b'/' raw) [ none ↦ raw | some rest ↦ rest ]

-- Zone after its request.
unfoldable pub checked_zone : Bytes → Res Bytes
checked_zone raw = if str_eq (short_zone raw) [] then err empty_zone else ok (short_zone raw)

unfoldable pub after_zone : Res Bytes → Res Bytes
unfolding checked_zone
after_zone (err e) = err e
after_zone (ok raw) = checked_zone raw

-- get after ReadAll.
unfoldable pub after_read : Bytes → ℕ → Res Bytes → Res Bytes
after_read path status_code (err e) = err (wrapped (reading_metadata path) e)
after_read path status_code (ok body) =
    if not (status_code == 200)
    then err (metadata_status status_code path (trim_space body))
    else ok (trim_space body)

-- get after Do.
unfoldable pub after_do : Bytes → Res Response → Res Bytes
after_do path (err e) = err (unreachable e)
after_do path (ok r) = after_read path r.status_code (read_limited 65536 r)

module _ {W : Type 0} where
  unfoldable pub with_base_url : Bytes → Client W → Client W
  with_base_url u c = record c { base_url = trim_right_byte b'/' u }

  unfoldable pub with_http_client : Transport W → Client W → Client W
  with_http_client h c = record c { http = h }

  -- The loop of New over its options.
  unfoldable pub apply_options : List (Client W → Client W) → Client W → Client W
  apply_options [] c = c
  apply_options (o ∷ os) c = apply_options os (o c)

  -- New; the default HTTP client is given, since its transport is the host's.
  unfoldable pub new : Transport W → List (Client W → Client W) → Client W
  new http options = apply_options options (record { base_url = default_base_url; http = http })

  unfoldable pub url_of : Client W → Bytes → Bytes
  url_of c path = c.base_url ++ (codes "/" ++ trim_left_byte b'/' path)

  unfoldable pub get : Client W → Bytes → Eff W (Res Bytes)
  get c path = elim (c.http.invalid_url (url_of c path)) [
    | some e ↦ return (err (wrapped (building_request path) e))
    | none ↦ do r ← c.http.get (url_of c path) flavor_header; return (after_do path r)
  ]

  unfoldable pub project_id : Client W → Eff W (Res Bytes)
  project_id c = get c (codes "project/project-id")

  unfoldable pub zone : Client W → Eff W (Res Bytes)
  zone c = do raw ← get c (codes "instance/zone"); return (after_zone raw)

  unfoldable pub instance_name : Client W → Eff W (Res Bytes)
  instance_name c = get c (codes "instance/name")

  -- Fetch after ProjectID and Zone.
  unfoldable pub fetch_name : Client W → Bytes → Res Bytes → Eff W (Res Metadata)
  fetch_name c p (err e) = return (err e)
  fetch_name c p (ok z) = do
    name ← instance_name c
    elim name [
      | err e ↦ return (err e)
      | ok n ↦ return (ok (record { project_id = p; zone = z; instance_name = n }))
    ]

  -- Fetch after ProjectID.
  unfoldable pub fetch_zone : Client W → Res Bytes → Eff W (Res Metadata)
  fetch_zone c (err e) = return (err e)
  fetch_zone c (ok p) = do z ← zone c; fetch_name c p z

  unfoldable pub fetch : Client W → Eff W (Res Metadata)
  fetch c = do p ← project_id c; fetch_zone c p

  unfoldable pub on_gce : Client W → Eff W Bool
  on_gce c = do r ← get c (codes "project/project-id"); return (is_ok r)
