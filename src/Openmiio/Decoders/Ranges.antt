-- ===== src/Openmiio/Decoders/Ranges.antt =====
-- Every value that a decoder accepts is in its range, and what it rejects is reported.
use mgl03_homekit_bridge.Common.{
  ℕ, ◌<◌, ◌≡◌, refl, ◌⊎◌, inl, inr, Bool, false, Option, none, some, [], ◌∷◌, Bytes, Result, ok,
  err, arith, Bool-cases, All,
}
use mgl03_homekit_bridge.Common.Int.{ℤ, pos, negsuc, ◌≤ℤ◌, eq_ℤ}
use mgl03_homekit_bridge.Openmiio.Types.{
  Float64, FloatOps, BleEvent, ToothbrushEvent, ProductKind, Update,
}
use mgl03_homekit_bridge.Openmiio.Decoders.{
  Progress, DecodeError, report, toothbrush_format, decode_byte, battery_value, decode_battery,
  toothbrush_value, decode_toothbrush_state, toothbrush_item, round_tenth, decode_float32_le,
  temperature_out_of_range, temperature_value, humidity_value, decode_temperature, decode_humidity,
  sensor_item, event_temperature, event_humidity, event_battery, event_toothbrush_state,
  event_standard_battery,
}
use mgl03_homekit_bridge.Openmiio.Hex.{hex_decode, hex_decode-IsByte, le_uint32-lt, IsByte}

-- An accepted battery is 0 to 100 percent, an accepted temperature not below -100 and not above 150
-- degrees, and an accepted humidity not above 100 percent, in the order of the floats.
abbrev pub BatteryInRange : Option ℤ → Type 0
BatteryInRange none = Unit
BatteryInRange (some b) = (pos 0 ≤ℤ b) × (b ≤ℤ pos 100)

abbrev pub TemperatureInRange : FloatOps → Option Float64 → Type 0
TemperatureInRange fl none = Unit
TemperatureInRange fl (some v) =
    (fl.lt v (fl.of_int (negsuc 99)) ≡ false) × (fl.lt (fl.of_int (pos 150)) v ≡ false)

abbrev pub HumidityInRange : FloatOps → Option Float64 → Type 0
HumidityInRange fl none = Unit
HumidityInRange fl (some v) = fl.lt (fl.of_int (pos 100)) v ≡ false

-- A state event comes from bytes: its type and score are below 256, its time fits 32 bits.
abbrev pub ScoreInRange : Option ℕ → Type 0
ScoreInRange none = Unit
ScoreInRange (some x) = x < 256

abbrev pub ToothbrushInRange : Option ToothbrushEvent → Type 0
ToothbrushInRange none = Unit
ToothbrushInRange (some e) =
    (e.type < 256) × (pos 0 ≤ℤ e.timestamp) × (e.timestamp ≤ℤ pos 4294967295) × ScoreInRange e.score

pub record IsInRange (fl : FloatOps) (u : Update) : Type 0 where
  pub battery : BatteryInRange u.battery
  pub temperature : TemperatureInRange fl u.temperature
  pub humidity : HumidityInRange fl u.humidity
  pub toothbrush : ToothbrushInRange u.toothbrush

-- The fields that no decoder touches.
abbrev pub Header : Type 0
Header = Bytes × Bytes × ℤ × ProductKind × Bytes × ℤ × Bool × ℤ

abbrev pub header : Update → Header
header u =
    (u.did, u.mac, u.product_id, u.kind, u.model, u.frame_count, u.has_frame_count, u.gateway_time)

-- What one event may do: keep the header, stay in range, and either report or decode, never both.
pub record IsStep (fl : FloatOps) (p q : Progress) : Type 0 where
  pub same_header : header q.0 ≡ header p.0
  pub in_range : IsInRange fl p.0 → IsInRange fl q.0
  pub reported : (q.1 ≡ p.1) ⊎ (q.0 ≡ p.0)

module _ (fl : FloatOps) where
  IsStep-refl : (p : Progress) → IsStep fl p p
  IsStep-refl p = record { same_header = refl; in_range = λ h. h; reported = inl refl }

  decode_battery-IsStep : (s : Bytes) (p : Progress) → IsStep fl p (decode_battery s p)
  unfolding decode_battery
  decode_battery-IsStep s p = value_step (decode_byte s)
    where
      value_step : (o : Option ℕ) → IsStep fl p (battery_value s o p)
      value_step none =
          unfold battery_value in
          record { same_header = refl; in_range = λ h. h; reported = inr refl }
      value_step (some v) = unfold battery_value in ground arith

  decode_toothbrush_state-IsStep :
      (s : Bytes) (p : Progress) → IsStep fl p (decode_toothbrush_state s p)
  unfolding decode_toothbrush_state
  decode_toothbrush_state-IsStep s p = value_step (hex_decode s) (hex_decode-IsByte s)
    where
      reports : IsStep fl p (report (toothbrush_format s) p)
      reports = record { same_header = refl; in_range = λ h. h; reported = inr refl }

      value_step :
          (o : Option Bytes)
          → ((bs : Bytes) → o ≡ some bs → All IsByte bs)
          → IsStep fl p (toothbrush_value s o p)
      value_step none h = unfold toothbrush_value in reports
      value_step (some []) h = unfold toothbrush_value in reports
      value_step (some (t ∷ [])) h = unfold toothbrush_value in reports
      value_step (some (t ∷ a ∷ [])) h = unfold toothbrush_value in reports
      value_step (some (t ∷ a ∷ b ∷ [])) h = unfold toothbrush_value in reports
      value_step (some (t ∷ a ∷ b ∷ c ∷ [])) h = unfold toothbrush_value in reports
      value_step (some (t ∷ a ∷ b ∷ c ∷ d ∷ [])) h =
          let (ht, (ha, (hb, (hc, (hd, hs))))) = h _ refl in
          let small = le_uint32-lt a b c d ha hb hc hd in
          unfold toothbrush_value in
          record {
            same_header = refl;
            in_range = λ r. record {
              battery = r.battery;
              temperature = r.temperature;
              humidity = r.humidity;
              toothbrush = (ht, omega arith, omega (arith, small), tt);
            };
            reported = inl refl;
          }
      value_step (some (t ∷ a ∷ b ∷ c ∷ d ∷ x ∷ bs)) h =
          let (ht, (ha, (hb, (hc, (hd, (hx, hs)))))) = h _ refl in
          let small = le_uint32-lt a b c d ha hb hc hd in
          unfold toothbrush_value in
          record {
            same_header = refl;
            in_range = λ r. record {
              battery = r.battery;
              temperature = r.temperature;
              humidity = r.humidity;
              toothbrush = (ht, omega arith, omega (arith, small), hx);
            };
            reported = inl refl;
          }

  decode_temperature-IsStep : (s : Bytes) (p : Progress) → IsStep fl p (decode_temperature fl s p)
  unfolding decode_temperature
  decode_temperature-IsStep s p = value_step (decode_float32_le fl s)
    where
      value_step : (r : Result DecodeError Float64) → IsStep fl p (temperature_value fl r p)
      value_step (err e) =
          unfold temperature_value in
          record { same_header = refl; in_range = λ h. h; reported = inr refl }
      value_step (ok raw) =
          unfold temperature_value in
          elim (Bool-cases (temperature_out_of_range fl (round_tenth fl raw))) [
            | inl out ↦
                rw out (record { same_header = refl; in_range = λ h. h; reported = inr refl })
            | inr in_bounds ↦ rw in_bounds (record {
              same_header = refl;
              in_range = λ h. record {
                battery = h.battery;
                temperature = unfold temperature_out_of_range in (ground arith, ground arith);
                humidity = h.humidity;
                toothbrush = h.toothbrush;
              };
              reported = inl refl;
            })
          ]

  decode_humidity-IsStep : (s : Bytes) (p : Progress) → IsStep fl p (decode_humidity fl s p)
  unfolding decode_humidity
  decode_humidity-IsStep s p = value_step (decode_byte s)
    where
      value_step : (o : Option ℕ) → IsStep fl p (humidity_value fl s o p)
      value_step none =
          unfold humidity_value in
          record { same_header = refl; in_range = λ h. h; reported = inr refl }
      value_step (some v) =
          unfold humidity_value in
          elim (Bool-cases (fl.lt (fl.of_int (pos 100)) (fl.of_int (pos v)))) [
            | inl out ↦
                rw out (record { same_header = refl; in_range = λ h. h; reported = inr refl })
            | inr in_bounds ↦ rw in_bounds (record {
              same_header = refl;
              in_range = λ h. record {
                battery = h.battery;
                temperature = h.temperature;
                humidity = in_bounds;
                toothbrush = h.toothbrush;
              };
              reported = inl refl;
            })
          ]

  pub toothbrush_item-IsStep :
      (item : BleEvent) (p : Progress) → IsStep fl p (toothbrush_item item p)
  unfolding toothbrush_item
  toothbrush_item-IsStep item p = elim (Bool-cases (eq_ℤ item.id event_toothbrush_state)) [
    | inl state ↦ rw state (decode_toothbrush_state-IsStep item.payload p)
    | inr other ↦ elim (Bool-cases (eq_ℤ item.id event_standard_battery)) [
      | inl level ↦ rw (other, level) (decode_battery-IsStep item.payload p)
      | inr ignored ↦ rw (other, ignored) (IsStep-refl p)
    ]
  ]

  pub sensor_item-IsStep : (item : BleEvent) (p : Progress) → IsStep fl p (sensor_item fl item p)
  unfolding sensor_item
  sensor_item-IsStep item p = elim (Bool-cases (eq_ℤ item.id event_temperature)) [
    | inl t ↦ rw t (decode_temperature-IsStep item.payload p)
    | inr not_t ↦ elim (Bool-cases (eq_ℤ item.id event_humidity)) [
      | inl h ↦ rw (not_t, h) (decode_humidity-IsStep item.payload p)
      | inr not_h ↦ elim (Bool-cases (eq_ℤ item.id event_battery)) [
        | inl b ↦ rw (not_t, not_h, b) (decode_battery-IsStep item.payload p)
        | inr ignored ↦ rw (not_t, not_h, ignored) (IsStep-refl p)
      ]
    ]
  ]
