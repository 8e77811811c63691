-- ===== src/Update/Official.antt =====
-- The official places of a release: the CDN, and the releases of the repository on GitHub.
use noderax_agent.Prelude.{
  ℕ, ◌≤◌, ◌<◌, ◌≡◌, refl, ◌⊎◌, inl, inr, true, not, ◌||◌, Option, none, some, List, [], ◌∷◌, ◌++◌,
  arith, Bool-cases, Text, codes, is_empty, text_eq, text_eq-eq, trim_space, Outcome, ok, err, ◌>>◌,
}
use noderax_agent.Update.Release.{
  Artifact, Manifest, Asset, ReleaseError, Response, Network, is_success, requested, read_manifest,
  check_manifest, fetch_manifest_from_url, manifest_asset, from_asset, from_assets, from_release,
  fetch_release_manifest, the_artifact, select_release_artifact,
}

-- A URL answered a request with success.
pub record Answers (n : Network) (url : Text) (r : Response) : Type 0 where
  pub sent : n.send url ≡ ok r
  pub at_least : 200 ≤ r.status
  pub below : r.status < 300

-- A URL serves a manifest of the channel of tags.
pub record Serves (n : Network) (url : Text) (m : Manifest) : Type 0 where
  pub response : Response
  pub answers : Answers n url response
  pub decoded : response.manifest ≡ ok m
  pub tagged : m.channel ≡ codes "tag"

-- A list of assets has a manifest at a URL.
pub data ListsManifest (url : Text) : List Asset → Type 0 where
  here :
      {a : Asset} {assets : List Asset}
      → a.name ≡ codes "release-manifest.json"
      → a.browser_download_url ≡ url
      → ListsManifest url (a ∷ assets)
  later :
      {a : Asset} {assets : List Asset} → ListsManifest url assets → ListsManifest url (a ∷ assets)

-- A release has a manifest at a URL.
pub record Releases (n : Network) (release_url url : Text) : Type 0 where
  pub response : Response
  pub answers : Answers n release_url response
  pub assets : List Asset
  pub decoded : response.assets ≡ ok assets
  pub listed : ListsManifest url assets

-- The CDN serves the manifest for the version, or the URL does that the release of the version has.
abbrev pub IsPublished : Network → Text → Manifest → Type 0
IsPublished n version m =
    Serves n
      (codes "https://cdn.noderax.net/noderax-agent/releases/"
        ++ version
        ++ codes "/release-manifest.json")
      m
    ⊎ ((url : Text) × Releases n
          (codes "https://api.github.com/repos/noderax/noderax-agent/releases/tags/agent-v"
            ++ version)
          url
        × Serves n url m)

-- The artifact of a manifest for an architecture.
abbrev pub IsBuiltFor : Text → Manifest → Artifact → Type 0
IsBuiltFor arch m a =
    ((arch ≡ codes "amd64") × (m.amd64 ≡ some a)) ⊎ ((arch ≡ codes "arm64") × (m.arm64 ≡ some a))

is_success-bounds : (s : ℕ) → is_success s ≡ true → (200 ≤ s) × (s < 300)
is_success-bounds s h = (ground arith, ground arith)

check_manifest-tagged :
    (url : Text) (d : Outcome Text Manifest) (m : Manifest)
    → check_manifest url d ≡ ok m
    → (d ≡ ok m) × (m.channel ≡ codes "tag")
check_manifest-tagged url (err e) m h = cc
check_manifest-tagged url (ok x) m h =
    elim (Bool-cases (is_empty (trim_space x.version) || not (text_eq x.channel (codes "tag")))) [
      | inl bad ↦ cc (simp bad at h)
      | inr good ↦
          let same : x ≡ m = manifest_eq x m (simp good at h) in
          (rw same refl, rw (← same) (text_eq-eq _ _ (ground arith)))
    ]
  where
    manifest_eq : (x m : Manifest) → ◌≡◌ {A = Outcome ReleaseError Manifest} (ok x) (ok m) → x ≡ m
    manifest_eq x m e = cc

read_manifest-Serves :
    (n : Network) (url : Text) (o : Outcome Text Response) (m : Manifest)
    → n.send url ≡ o
    → read_manifest url o ≡ ok m
    → Serves n url m
read_manifest-Serves n url (err e) m s h = cc
read_manifest-Serves n url (ok r) m s h = elim (Bool-cases (is_success r.status)) [
  | inr bad ↦ cc (simp bad at h)
  | inl good ↦
      let (decoded, tagged) = check_manifest-tagged url r.manifest m (simp good at h) in
      let (low, high) = is_success-bounds r.status good in
      record {
        response = r;
        answers = record { sent = s; at_least = low; below = high };
        decoded = decoded;
        tagged = tagged;
      }
]

behind :
    (o : Outcome Text (Unit {0})) (x : Outcome ReleaseError Manifest) (m : Manifest)
    → (requested o >> x) ≡ ok m
    → x ≡ ok m
behind (ok u) x m h = h
behind (err e) x m h = cc

fetch_manifest_from_url-Serves :
    (n : Network) (url : Text) (m : Manifest)
    → fetch_manifest_from_url n url ≡ ok m
    → Serves n url m
unfolding fetch_manifest_from_url
fetch_manifest_from_url-Serves n url m h =
    read_manifest-Serves n url (n.send url) m refl (behind (n.new_request url) _ m h)

manifest_asset-ListsManifest :
    (url : Text) (assets : List Asset) → manifest_asset assets ≡ some url → ListsManifest url assets
unfolding manifest_asset
manifest_asset-ListsManifest url [] h = cc
manifest_asset-ListsManifest url (a ∷ assets) h =
    elim (Bool-cases (
      not (text_eq a.name (codes "release-manifest.json"))
      || is_empty (trim_space a.browser_download_url))) [
        | inl other ↦ later (manifest_asset-ListsManifest url assets (simp other at h))
        | inr it ↦
            here (text_eq-eq _ _ (ground arith)) (url_eq a.browser_download_url (simp it at h))
      ]
  where
    url_eq : (u : Text) → some u ≡ some url → u ≡ url
    url_eq u e = cc

module _ (n : Network) (version : Text) (first : ReleaseError) (m : Manifest)
    (release_url : Text) where
  from_assets-Releases :
      (r : Response) (d : Outcome Text (List Asset))
      → Answers n release_url r
      → r.assets ≡ d
      → from_assets n version d ≡ ok m
      → (url : Text) × Releases n release_url url × Serves n url m
  from_assets-Releases r (err e) answers eq h = cc
  from_assets-Releases r (ok assets) answers eq h = by_asset (manifest_asset assets) refl h
    where
      by_asset :
          (o : Option Text)
          → manifest_asset assets ≡ o
          → from_asset n version o ≡ ok m
          → (url : Text) × Releases n release_url url × Serves n url m
      by_asset none found h = cc
      by_asset (some url) found h = (
        url,
        record {
          response = r;
          answers = answers;
          assets = assets;
          decoded = eq;
          listed = manifest_asset-ListsManifest url assets found;
        },
        fetch_manifest_from_url-Serves n url m h,
      )

  from_release-Releases :
      (o : Outcome Text Response)
      → n.send release_url ≡ o
      → from_release n version first o ≡ ok m
      → (url : Text) × Releases n release_url url × Serves n url m
  from_release-Releases (err e) s h = cc
  from_release-Releases (ok r) s h = elim (Bool-cases (is_success r.status)) [
    | inr bad ↦ cc (simp bad at h)
    | inl good ↦
        let (low, high) = is_success-bounds r.status good in
        from_assets-Releases r r.assets (record { sent = s; at_least = low; below = high }) refl
          (simp good at h)
  ]

pub fetch_release_manifest-IsPublished :
    (n : Network) (version : Text) (m : Manifest)
    → fetch_release_manifest n version ≡ ok m
    → IsPublished n version m
unfolding fetch_release_manifest
fetch_release_manifest-IsPublished n version m h =
    by_first (fetch_manifest_from_url n cdn_url) refl h
  where
    cdn_url : Text
    cdn_url =
        codes "https://cdn.noderax.net/noderax-agent/releases/"
        ++ version
        ++ codes "/release-manifest.json"

    release_url : Text
    release_url =
        codes "https://api.github.com/repos/noderax/noderax-agent/releases/tags/agent-v" ++ version

    by_first :
        (o : Outcome ReleaseError Manifest)
        → fetch_manifest_from_url n cdn_url ≡ o
        → ◌≡◌ {A = Outcome ReleaseError Manifest}
            (elim o [
              | ok m' ↦ ok m'
              | err first ↦
                  requested (n.new_request release_url)
                  >> from_release n version first (n.send release_url)
            ])
            (ok m)
        → IsPublished n version m
    by_first (ok m') e h = inl (fetch_manifest_from_url-Serves n cdn_url m (cc (e, h)))
    by_first (err first) e h = inr (
        from_release-Releases n version first m release_url (n.send release_url) refl
          (behind (n.new_request release_url) _ m h))

the_artifact-some :
    (m : Manifest) (o : Option Artifact) (a : Artifact) → the_artifact m o ≡ ok a → o ≡ some a
the_artifact-some m none a h = cc
the_artifact-some m (some b) a h = cc

pub select_release_artifact-IsBuiltFor :
    (m : Manifest) (arch : Text) (a : Artifact)
    → select_release_artifact m arch ≡ ok a
    → IsBuiltFor arch m a
unfolding select_release_artifact
select_release_artifact-IsBuiltFor m arch a h = elim (Bool-cases (text_eq arch (codes "amd64"))) [
  | inl x86 ↦ inl (text_eq-eq _ _ x86, the_artifact-some m m.amd64 a (simp x86 at h))
  | inr other ↦ elim (Bool-cases (text_eq arch (codes "arm64"))) [
    | inl arm ↦ inr (text_eq-eq _ _ arm, the_artifact-some m m.arm64 a (simp (other, arm) at h))
    | inr unknown ↦ cc (simp (other, unknown) at h)
  ]
]
