-- ===== src/Openmiio/Types.antt =====
-- parser.go, its data: BLE events and the updates that they decode to.
use mgl03_homekit_bridge.Common.{ℕ, Bool, ◌||◌, false, Option, none, [], Bytes, is_some}
use mgl03_homekit_bridge.Common.Int.{ℤ, pos}

-- A float64 is its IEEE 754 bit pattern.
abbrev pub Float64 : Type 0
Float64 = ℕ

-- The arithmetic of float64, which the hardware and the Go runtime give.
pub record FloatOps : Type 0 where
  -- float64(math.Float32frombits(bits))
  pub from_float32_bits : ℕ → Float64
  pub of_int : ℤ → Float64
  -- int(v)
  pub to_int : Float64 → ℤ
  pub mul : Float64 → Float64 → Float64
  pub div : Float64 → Float64 → Float64
  -- math.Round
  pub round : Float64 → Float64
  pub is_nan : Float64 → Bool
  pub is_inf : Float64 → Bool
  pub lt : Float64 → Float64 → Bool
  pub eq : Float64 → Float64 → Bool
  -- strconv.ParseFloat(s, 64)
  pub parse : Bytes → Option Float64

pub record BleEvent : Type 0 where
  pub id : ℤ
  pub payload : Bytes

pub record ToothbrushEvent : Type 0 where
  pub type : ℕ
  pub timestamp : ℤ
  pub score : Option ℕ

-- `unset` is the empty string, the zero value of the Go type.
pub data ProductKind : Type 0 where
  climate toothbrush unset : ProductKind

pub record Update : Type 0 where
  pub did : Bytes
  pub mac : Bytes
  pub product_id : ℤ
  pub kind : ProductKind
  pub model : Bytes
  pub frame_count : ℤ
  pub has_frame_count : Bool
  pub gateway_time : ℤ
  pub temperature : Option Float64
  pub humidity : Option Float64
  pub battery : Option ℤ
  pub toothbrush : Option ToothbrushEvent

-- The zero value `Update{}`.
abbrev pub zero_update : Update
zero_update = record {
  did = [];
  mac = [];
  product_id = pos 0;
  kind = unset;
  model = [];
  frame_count = pos 0;
  has_frame_count = false;
  gateway_time = pos 0;
  temperature = none;
  humidity = none;
  battery = none;
  toothbrush = none;
}

unfoldable pub has_measurements : Update → Bool
has_measurements u =
    is_some u.temperature || (is_some u.humidity || (is_some u.battery || is_some u.toothbrush))
