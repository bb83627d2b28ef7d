-- ===== src/Bridge/Ids.antt =====
-- sensor.go: the HomeKit accessory ids and serial numbers of devices.
use Prim.Native.Nat.{bit_xor}
use mgl03_homekit_bridge.Common.{
  ℕ, ◌+◌, ◌*◌, ◌%◌, ◌^◌, [], ◌∷◌, ◌++◌, Bytes, codes, is_empty, to_upper, leb, ◌==◌, if◌then◌else◌,
}
use mgl03_homekit_bridge.Config.Device.{Device}

-- hash/fnv, New64a over the bytes of a string.
unfoldable pub fnv64a : ℕ → Bytes → ℕ
fnv64a h [] = h
fnv64a h (b ∷ s) = fnv64a (bit_xor h b * 1099511628211 % 2 ^ 64) s

-- `h.Sum64()&0x7fffffff + 2`, where `&` binds tighter.
unfoldable pub stable_id : Device → ℕ
stable_id device =
    let identity = if is_empty device.mac then codes "did:" ++ device.did else device.mac in
    fnv64a 14695981039346656037 identity % 2 ^ 31 + 2

unfoldable pub default_accessory_id : Device → ℕ
default_accessory_id device = stable_id device

unfoldable pub accessory_id : Device → ℕ
accessory_id device = if leb 2 device.aid then device.aid else stable_id device

-- strings.ReplaceAll(s, ":", "")
without_colons : Bytes → Bytes
without_colons [] = []
without_colons (c ∷ s) = let rest = without_colons s in if c == b':' then rest else c ∷ rest

unfoldable pub serial_number : Device → Bytes
unfolding without_colons
serial_number device =
    if is_empty device.mac then device.did else to_upper (without_colons device.mac)
