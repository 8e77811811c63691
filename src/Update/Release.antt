-- ===== src/Update/Release.antt =====
-- The official release of the agent: `fetchReleaseManifest` and `selectReleaseArtifact`.
use noderax_agent.Prelude.{
  ℕ, Bool, not, ◌||◌, Option, none, some, List, [], ◌∷◌, ◌++◌, ltb, leb, if◌then◌else◌, Text, codes,
  is_empty, text_eq, trim_space, Outcome, ok, err, ◌>>◌,
}

pub record Artifact : Type 0 where
  pub binary_url : Text
  pub sha256 : Text

pub record Manifest : Type 0 where
  pub version : Text
  pub channel : Text
  pub amd64 : Option Artifact
  pub arm64 : Option Artifact

pub record Asset : Type 0 where
  pub name : Text
  pub browser_download_url : Text

pub data ReleaseError : Type 0 where
  request_failed fetch_failed decode_failed : Text → ReleaseError
  bad_status : ℕ → ReleaseError
  manifest_invalid : Text → ReleaseError
  both_failed : ReleaseError → ReleaseError
  both_failed_status : ReleaseError → ℕ → ReleaseError
  release_undecodable : Text → ReleaseError
  asset_not_found : Text → ReleaseError
  no_artifact : Text → ReleaseError
  unsupported_architecture : Text → ReleaseError

-- An answer over HTTP: its status, and what its body decodes to.
pub record Response : Type 0 where
  pub status : ℕ
  pub manifest : Outcome Text Manifest
  pub assets : Outcome Text (List Asset)

-- What a call sees of the network: whether a URL makes a request, and how the request ends.
pub record Network : Type 0 where
  pub new_request : Text → Outcome Text (Unit {0})
  pub send : Text → Outcome Text Response

abbrev pub requested : Outcome Text (Unit {0}) → Outcome ReleaseError (Unit {0})
requested (ok _) = ok tt
requested (err e) = err (request_failed e)

abbrev pub is_success : ℕ → Bool
is_success status = not (ltb status 200 || leb 300 status)

abbrev pub check_manifest : Text → Outcome Text Manifest → Outcome ReleaseError Manifest
check_manifest url (err e) = err (decode_failed e)
check_manifest url (ok m) =
    if is_empty (trim_space m.version) || not (text_eq m.channel (codes "tag"))
    then err (manifest_invalid url)
    else ok m

abbrev pub read_manifest : Text → Outcome Text Response → Outcome ReleaseError Manifest
read_manifest url (err e) = err (fetch_failed e)
read_manifest url (ok r) =
    if is_success r.status then check_manifest url r.manifest else err (bad_status r.status)

unfoldable pub fetch_manifest_from_url : Network → Text → Outcome ReleaseError Manifest
fetch_manifest_from_url n url = do requested (n.new_request url); read_manifest url (n.send url)

-- The first asset that is the manifest and has a URL.
unfoldable pub manifest_asset : List Asset → Option Text
manifest_asset [] = none
manifest_asset (a ∷ assets) =
    let rest = manifest_asset assets in
    if not (text_eq a.name (codes "release-manifest.json"))
      || is_empty (trim_space a.browser_download_url)
    then rest
    else some a.browser_download_url

abbrev pub from_asset : Network → Text → Option Text → Outcome ReleaseError Manifest
from_asset n version none = err (asset_not_found version)
from_asset n version (some url) = fetch_manifest_from_url n url

abbrev pub from_assets : Network → Text → Outcome Text (List Asset) → Outcome ReleaseError Manifest
from_assets n version (err e) = err (release_undecodable e)
from_assets n version (ok assets) = from_asset n version (manifest_asset assets)

abbrev pub from_release :
    Network → Text → ReleaseError → Outcome Text Response → Outcome ReleaseError Manifest
from_release n version first (err e) = err (both_failed first)
from_release n version first (ok r) =
    if is_success r.status
    then from_assets n version r.assets
    else err (both_failed_status first r.status)

unfoldable pub fetch_release_manifest : Network → Text → Outcome ReleaseError Manifest
unfolding fetch_manifest_from_url manifest_asset
fetch_release_manifest n version =
    let cdn_url =
      codes "https://cdn.noderax.net/noderax-agent/releases/"
      ++ version
      ++ codes "/release-manifest.json" in
    let release_url =
      codes "https://api.github.com/repos/noderax/noderax-agent/releases/tags/agent-v" ++ version in
    elim (fetch_manifest_from_url n cdn_url) [
      | ok m ↦ ok m
      | err first ↦ do
        requested (n.new_request release_url)
        from_release n version first (n.send release_url)
    ]

abbrev pub the_artifact : Manifest → Option Artifact → Outcome ReleaseError Artifact
the_artifact m none = err (no_artifact m.version)
the_artifact m (some a) = ok a

unfoldable pub select_release_artifact : Manifest → Text → Outcome ReleaseError Artifact
select_release_artifact m arch =
    if text_eq arch (codes "amd64")
    then the_artifact m m.amd64
    else if text_eq arch (codes "arm64")
    then the_artifact m m.arm64
    else err (unsupported_architecture arch)
