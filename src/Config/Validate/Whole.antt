-- ===== src/Config/Validate/Whole.antt =====
-- What NormalizeAndValidate accepts, and what comes out.
use mgl03_homekit_bridge.Common.{ℕ, ◌≡◌, ◌∙◌, Bytes}
use mgl03_homekit_bridge.Config.Validate.{Settings, normal_settings, normalize_and_validate}
use mgl03_homekit_bridge.Config.Validate.Accepted.{is_ok, value_or, normal_devices}
use mgl03_homekit_bridge.Config.Validate.Complete.{is_complete, normalize_and_validate_lem}
use mgl03_homekit_bridge.Config.Validate.Filled.{IsFilledIn, normal_settings-IsFilledIn}
use mgl03_homekit_bridge.Config.Validate.Tests.{is_accepted, is_complete-is_accepted}

-- For every configuration there is one that is filled in. A blank name, state directory, broker address,
-- topic or client id and a port or window of 0 are replaced by their defaults; that of the state directory
-- is the directory of the file, or "state" if this is the current one. The mode is trimmed and in lower
-- case, and "first" if nothing is left. The pairing code has lost its dashes and spaces. Each device has a
-- trimmed name, or a numbered one if nothing is left, a normal MAC and a trimmed DID. The rest is as it
-- was. The configuration is accepted exactly if, filled in, its port is 1 to 65535, its mode "first",
-- "auto" or "manual", its window 5 to 600, its pairing code eight digits and not a trivial one, and each
-- device has a MAC or a DID, a well-formed MAC if it has one, and not the id 1, with no two that have the
-- same MAC, the same DID where they have no MAC, or the same id if it is set. If it is accepted, the
-- filled-in one comes out.
pub normalize_and_validate-IsFilledIn :
    (numbered : Bytes → ℕ → Bytes) (dir : Bytes) (c : Settings)
    → let r = normalize_and_validate numbered dir c in
      (c' : Settings) × IsFilledIn numbered dir c c'
      × (is_ok r ≡ is_accepted c')
      × (value_or c' r ≡ c')
normalize_and_validate-IsFilledIn numbered dir c =
    let c' = record (normal_settings dir c) { devices = normal_devices numbered 0 c.devices } in
    let (good, same) = normalize_and_validate_lem numbered dir c in
    (
      c',
      normal_settings-IsFilledIn numbered dir c,
      good ∙ unfold is_complete in is_complete-is_accepted c',
      same,
    )
