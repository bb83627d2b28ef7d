-- ===== src/App/Merge.antt =====
-- main.go: device keys, the merge of configured and saved devices, and matching reports to devices.
pub mod Fresh
pub mod Again
pub mod Owner
use mgl03_homekit_bridge.Common.{
  ℕ, suc, Bool, true, false, not, ◌&&◌, ◌||◌, Option, none, some, List, [], ◌∷◌, ◌++◌, Bytes, codes,
  eq_bytes, is_empty, to_lower, equal_fold, if◌then◌else◌,
}
use mgl03_homekit_bridge.Config.Device.{Device}
use mgl03_homekit_bridge.Openmiio.Types.{Update}

unfoldable pub device_key : Device → Bytes
device_key d =
    if not (is_empty d.mac)
    then to_lower d.mac
    else if not (is_empty d.did)
    then codes "did:" ++ d.did
    else []

-- The maps `seenMAC` and `seenDID`, which are only added to.
pub record Seen : Type 0 where
  pub macs : List Bytes
  pub dids : List Bytes

unfoldable pub seen_in : Bytes → List Bytes → Bool
seen_in k [] = false
seen_in k (s ∷ ss) = eq_bytes k s || seen_in k ss

-- Both loops record a device so.
unfoldable pub note_device : Device → Seen → Seen
note_device d seen = record {
  macs = if is_empty d.mac then seen.macs else to_lower d.mac ∷ seen.macs;
  dids = if is_empty d.did then seen.dids else d.did ∷ seen.dids;
}

unfoldable pub note_devices : List Device → Seen → Seen
note_devices [] seen = seen
note_devices (d ∷ ds) seen = note_devices ds (note_device d seen)

unfoldable pub is_duplicate : Device → Seen → Bool
is_duplicate d seen =
    not (is_empty d.mac) && seen_in (to_lower d.mac) seen.macs
    || not (is_empty d.did) && seen_in d.did seen.dids

-- The second loop: the saved devices that are appended.
unfoldable pub merge_loop : List Device → Seen → List Device
merge_loop [] seen = []
merge_loop (d ∷ ds) seen =
    let later = merge_loop ds (note_device d seen) in
    let others = merge_loop ds seen in
    if is_duplicate d seen || is_empty (device_key d) then others else d ∷ later

unfoldable pub merge_devices : List Device → List Device → List Device
merge_devices configured saved =
    configured ++ merge_loop saved (note_devices configured (record { macs = []; dids = [] }))

-- The test in findDevice and matchAccessory.
unfoldable pub is_match : Update → Device → Bool
is_match u d =
    not (is_empty u.mac) && (not (is_empty d.mac) && equal_fold u.mac d.mac)
    || not (is_empty u.did) && (not (is_empty d.did) && eq_bytes u.did d.did)

-- findDevice, with `none` for -1; matchAccessory looks through the accessories of the devices so.
unfoldable pub find_device : List Device → Update → Option ℕ
find_device [] u = none
find_device (d ∷ ds) u =
    if is_match u d then some 0 else elim (find_device ds u) [ none ↦ none | some i ↦ some (suc i) ]

unfoldable pub update_identity : Update → Bytes
update_identity u = if is_empty u.mac then codes "did:" ++ u.did else to_lower u.mac
