-- ===== src/Webhook/Config/Valid.antt =====
-- What a validated configuration gives the rest of the webhook.
use e_bpf_lens.Prelude.{
  ◌&&◌, ◌⊎◌, inl, inr, Bool-cases, String, true, false, none, ◌≡◌, arith, is_empty,
}
use e_bpf_lens.Webhook.Deps.{Semver}
use e_bpf_lens.Webhook.Config.{SdkInject, validate, package_version, uses_image_volume}

module _ (semver : Semver) (hash : String → String) (s : SdkInject) where
  -- Validated settings have a package version, given that a hash is never the empty text; without
  -- an image volume that version is a valid one, and with one there is neither a host mount path nor
  -- an SDK version; where the webhook manages the SDK versions on the host, it has a mount path.
  validate-package_version :
      ((text : String) → is_empty (hash text) ≡ false)
      → validate semver s ≡ none
      → (is_empty (package_version hash s) ≡ false)
        × ((uses_image_volume s ≡ true)
              × (is_empty s.host_mount_path ≡ true)
              × (is_empty s.sdk_pkg_version ≡ true)
            ⊎ (uses_image_volume s ≡ false)
              × (semver.is_valid s.sdk_pkg_version ≡ true)
              × ((s.manage_sdk_versions && is_empty s.host_mount_path) ≡ false))
  unfolding validate package_version uses_image_volume
  validate-package_version non_empty valid = (ground (arith, non_empty s.image_volume_path), cases)
    where
      cases :
          (uses_image_volume s ≡ true)
            × (is_empty s.host_mount_path ≡ true)
            × (is_empty s.sdk_pkg_version ≡ true)
          ⊎ (uses_image_volume s ≡ false)
            × (semver.is_valid s.sdk_pkg_version ≡ true)
            × ((s.manage_sdk_versions && is_empty s.host_mount_path) ≡ false)
      cases = elim (Bool-cases (uses_image_volume s)) [
        | inl e ↦ inl (e, ground arith, ground arith)
        | inr e ↦ inr (e, ground arith, ground arith)
      ]
