-- ===== src/Openmiio/Decoders.antt =====
-- decoders.go: the event payloads of the two products.
pub mod Ranges
pub mod Runs
use mgl03_homekit_bridge.Common.{
  ℕ, Bool, ◌||◌, Option, none, some, List, [], ◌∷◌, ◌++◌, Bytes, ltb, if◌then◌else◌, Result, ok,
  err,
}
use mgl03_homekit_bridge.Common.Int.{ℤ, pos, negsuc, eq_ℤ}
use mgl03_homekit_bridge.Openmiio.Types.{Float64, FloatOps, BleEvent, Update}
use mgl03_homekit_bridge.Openmiio.Hex.{hex_decode, le_uint32}

abbrev pub event_temperature : ℤ
event_temperature = pos 19457

abbrev pub event_humidity : ℤ
event_humidity = pos 19458

abbrev pub event_battery : ℤ
event_battery = pos 18435

abbrev pub event_toothbrush_state : ℤ
event_toothbrush_state = pos 12291

abbrev pub event_standard_battery : ℤ
event_standard_battery = pos 4106

-- The messages that the decoders collect, with the value that they quote.
pub data DecodeError : Type 0 where
  temperature_format : Bytes → DecodeError
  temperature_non_finite : Bytes → DecodeError
  temperature_range : Float64 → DecodeError
  humidity_format : Bytes → DecodeError
  humidity_range : ℕ → DecodeError
  battery_format : Bytes → DecodeError
  battery_range : ℕ → DecodeError
  toothbrush_format : Bytes → DecodeError

-- A decoder fills an update and collects errors.
abbrev pub Progress : Type 0
Progress = Update × List DecodeError

abbrev pub report : DecodeError → Progress → Progress
report e (u, errs) = (u, errs ++ (e ∷ []))

unfoldable pub first_byte : Option Bytes → Option ℕ
first_byte none = none
first_byte (some []) = none
first_byte (some (b ∷ _)) = some b

-- `none` is "expected byte".
unfoldable pub decode_byte : Bytes → Option ℕ
decode_byte s = first_byte (hex_decode s)

unfoldable pub battery_value : Bytes → Option ℕ → Progress → Progress
battery_value s none p = report (battery_format s) p
battery_value s (some v) (u, errs) =
    if ltb 100 v
    then (u, errs ++ (battery_range v ∷ []))
    else (record u { battery = some (pos v) }, errs)

unfoldable pub decode_battery : Bytes → Progress → Progress
decode_battery s p = battery_value s (decode_byte s) p

-- The decoded bytes of a state event: type, four bytes of time, and a score where there is one.
unfoldable pub toothbrush_value : Bytes → Option Bytes → Progress → Progress
toothbrush_value s (some (t ∷ a ∷ b ∷ c ∷ d ∷ [])) (u, errs) = (
  record u {
    toothbrush = some (record { type = t; timestamp = pos (le_uint32 a b c d); score = none });
  },
  errs,
)
toothbrush_value s (some (t ∷ a ∷ b ∷ c ∷ d ∷ x ∷ _)) (u, errs) = (
  record u {
    toothbrush = some (record { type = t; timestamp = pos (le_uint32 a b c d); score = some x });
  },
  errs,
)
toothbrush_value s _ p = report (toothbrush_format s) p

unfoldable pub decode_toothbrush_state : Bytes → Progress → Progress
decode_toothbrush_state s p = toothbrush_value s (hex_decode s) p

-- One round of the loop of decodeToothbrushT700i.
unfoldable pub toothbrush_item : BleEvent → Progress → Progress
toothbrush_item item p =
    if eq_ℤ item.id event_toothbrush_state
    then decode_toothbrush_state item.payload p
    else if eq_ℤ item.id event_standard_battery
    then decode_battery item.payload p
    else p

unfoldable pub toothbrush_items : List BleEvent → Progress → Progress
toothbrush_items [] p = p
toothbrush_items (item ∷ items) p = toothbrush_items items (toothbrush_item item p)

unfoldable pub decode_toothbrush_t700i : List BleEvent → Update → Progress
decode_toothbrush_t700i events update = toothbrush_items events (update, [])

module _ (fl : FloatOps) where
  open fl use {from_float32_bits, of_int, mul, div, round, is_nan, is_inf, lt}

  -- math.Round(value*10) / 10
  unfoldable pub round_tenth : Float64 → Float64
  round_tenth v = div (round (mul v (of_int (pos 10)))) (of_int (pos 10))

  unfoldable pub float_value : Bytes → Option Bytes → Result DecodeError Float64
  float_value s (some (a ∷ b ∷ c ∷ d ∷ _)) =
      let v = from_float32_bits (le_uint32 a b c d) in
      if is_nan v || is_inf v then err (temperature_non_finite s) else ok v
  float_value s _ = err (temperature_format s)

  unfoldable pub decode_float32_le : Bytes → Result DecodeError Float64
  decode_float32_le s = float_value s (hex_decode s)

  -- `value < -100 || value > 150`
  unfoldable pub temperature_out_of_range : Float64 → Bool
  temperature_out_of_range v = lt v (of_int (negsuc 99)) || lt (of_int (pos 150)) v

  unfoldable pub temperature_value : Result DecodeError Float64 → Progress → Progress
  temperature_value (err e) p = report e p
  temperature_value (ok raw) (u, errs) =
      let v = round_tenth raw in
      if temperature_out_of_range v
      then (u, errs ++ (temperature_range v ∷ []))
      else (record u { temperature = some v }, errs)

  unfoldable pub humidity_value : Bytes → Option ℕ → Progress → Progress
  humidity_value s none p = report (humidity_format s) p
  humidity_value s (some v) (u, errs) =
      if lt (of_int (pos 100)) (of_int (pos v))
      then (u, errs ++ (humidity_range v ∷ []))
      else (record u { humidity = some (of_int (pos v)) }, errs)

  unfoldable pub decode_temperature : Bytes → Progress → Progress
  decode_temperature s p = temperature_value (decode_float32_le s) p

  unfoldable pub decode_humidity : Bytes → Progress → Progress
  decode_humidity s p = humidity_value s (decode_byte s) p

  -- One round of the loop of decodeSensorHTO2.
  unfoldable pub sensor_item : BleEvent → Progress → Progress
  sensor_item item p =
      if eq_ℤ item.id event_temperature
      then decode_temperature item.payload p
      else if eq_ℤ item.id event_humidity
      then decode_humidity item.payload p
      else if eq_ℤ item.id event_battery
      then decode_battery item.payload p
      else p

  unfoldable pub sensor_items : List BleEvent → Progress → Progress
  sensor_items [] p = p
  sensor_items (item ∷ items) p = sensor_items items (sensor_item item p)

  unfoldable pub decode_sensor_hto2 : List BleEvent → Update → Progress
  decode_sensor_hto2 events update = sensor_items events (update, [])
