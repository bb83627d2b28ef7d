-- ===== src/Examples/Data.antt =====
-- Reports, devices and payloads that the examples share.
use mgl03_homekit_bridge.Common.{ℕ, true, false, Option, none, some, [], ◌∷◌, Bytes, codes}
use mgl03_homekit_bridge.Common.Int.{ℤ, pos, eq_ℤ, ltb_ℤ}
use mgl03_homekit_bridge.Config.Device.{Device}
use mgl03_homekit_bridge.Openmiio.Types.{
  FloatOps, ToothbrushEvent, Update, zero_update, toothbrush, climate,
}
use mgl03_homekit_bridge.Bridge.Battery.{BatteryService}
use mgl03_homekit_bridge.Bridge.Toothbrush.{Toothbrush, Now}

abbrev pub brush_mac : Bytes
brush_mac = codes "aa:bb:cc:dd:ee:ff"

abbrev pub event : ℕ → ℕ → Option ℕ → ToothbrushEvent
event type t score = record { type = type; timestamp = pos t; score = score }

-- A report of a brushing event at the gateway time `gwts`.
abbrev pub brushing : ℕ → ToothbrushEvent → ℕ → Update
brushing counter e gwts = record zero_update {
  mac = brush_mac;
  product_id = pos 6032;
  kind = toothbrush;
  frame_count = pos counter;
  has_frame_count = true;
  gateway_time = pos gwts;
  toothbrush = some e;
}

abbrev pub clock : ℕ → Now
clock n = record { unix = pos n; nanos = pos n }

abbrev pub full_battery : BatteryService
full_battery = record { level = pos 100; status_low = 0 }

-- A session that began at 1000 and was last heard of at 5 nanoseconds.
abbrev pub busy : Toothbrush
busy = record {
  motion = true;
  battery = full_battery;
  timers = record {
    next_id = 1;
    waiting = record { id = 0; after = pos 30_000_000_000; generation = 1 } ∷ [];
    in_flight = [];
  };
  timer = some 0;
  generation = 1;
  active = true;
  session_start = pos 1000;
  last_activity = some (pos 5);
  last_completed = pos 0;
  last_score = none;
  last_duration = pos 0;
}

-- Floats as integers, for a run: tenths are not rounded here.
abbrev pub whole_floats : FloatOps
whole_floats = record {
  from_float32_bits = λ n. n;
  of_int = λ z. elim z [ ℤ.pos n ↦ n | ℤ.negsuc n ↦ 0 ];
  to_int = λ n. pos n;
  mul = λ x y. x;
  div = λ x y. x;
  round = λ x. x;
  is_nan = λ x. false;
  is_inf = λ x. false;
  lt = λ x y. ltb_ℤ (pos x) (pos y);
  eq = λ x y. eq_ℤ (pos x) (pos y);
  parse = λ s. none;
}

abbrev pub sensor_mac : Bytes
sensor_mac = codes "11:22:33:44:55:66"

-- A report of 21 degrees.
abbrev pub warm : Update
warm = record zero_update {
  mac = sensor_mac;
  product_id = pos 5860;
  kind = climate;
  frame_count = pos 7;
  has_frame_count = true;
  gateway_time = pos 1000;
  temperature = some 21;
}

abbrev pub sensor : Device
sensor = record {
  name = codes "Sensor";
  mac = sensor_mac;
  did = [];
  product_id = pos 5860;
  model = codes "miaomiaoce.sensor_ht.o2";
  aid = 2;
}

abbrev pub brush : Device
brush = record {
  name = codes "Brush";
  mac = brush_mac;
  did = [];
  product_id = pos 6032;
  model = codes "k0918.toothbrush.t700i";
  aid = 0;
}
