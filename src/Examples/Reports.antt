-- ===== src/Examples/Reports.antt =====
-- internal/openmiio and internal/measurements: frames, BLE messages and readings.
use mgl03_homekit_bridge.Common.{
  ◌≡◌, refl, false, some, [], ◌∷◌, codes, arith, All, eq_bytes, to_lower, lower_char,
}
use mgl03_homekit_bridge.Common.Int.{pos, sub_time}
use mgl03_homekit_bridge.Common.Table.{lookup}
use mgl03_homekit_bridge.Openmiio.Types.{zero_update}
use mgl03_homekit_bridge.Openmiio.Hex.{hex_encode}
use mgl03_homekit_bridge.Openmiio.Decoders.{event_toothbrush_state, toothbrush_item}
use mgl03_homekit_bridge.Openmiio.Decoders.Runs.{state_bytes, toothbrush_item-state_bytes}
use mgl03_homekit_bridge.Openmiio.Products.{Product, lookup_product}
use mgl03_homekit_bridge.Openmiio.Parser.{BleMessage, parse_ble_event}
use mgl03_homekit_bridge.Openmiio.Parser.Reports.{IsReport, parse_ble_event-IsReport}
use mgl03_homekit_bridge.Openmiio.Dedup.{
  Deduplicator, accepted, classify, classify_known, frame_key,
}
use mgl03_homekit_bridge.Openmiio.Dedup.Order.{IsTracked}
use mgl03_homekit_bridge.Openmiio.Dedup.Sequence.{
  classify_run, newest_first, baseline, classify_run-newest_first,
}
use mgl03_homekit_bridge.Config.Mac.{is_hex, only_hex, join_pairs, normalize_mac}
use mgl03_homekit_bridge.Measurements.State.{
  Reading, identity, reading_changes, merge, find_reading,
}
use mgl03_homekit_bridge.Measurements.Laws.{HasNumbers, merge_again, find_reading-merge}
use mgl03_homekit_bridge.Examples.Data.{warm, sensor_mac, sensor, whole_floats}

-- Frame 300 of the sensor came 10 nanoseconds after the start.
abbrev filter : Deduplicator
filter = record { reset_after = pos 60; frames = (sensor_mac, baseline 300 (pos 10)) ∷ [] }

warm-IsTracked : IsTracked warm
unfolding frame_key eq_bytes to_lower lower_char
warm-IsTracked = record { counted = refl; keyed = refl }

known : lookup (frame_key warm) filter.frames ≡ some (baseline 300 (pos 10))
unfolding frame_key eq_bytes to_lower lower_char lookup
known = refl

classify_run-newest_first_example :
    classify_run filter warm ((pos 20, 302) ∷ (pos 30, 301) ∷ (pos 40, 302) ∷ [])
    ≡ newest_first 300 ((pos 20, 302) ∷ (pos 30, 301) ∷ (pos 40, 302) ∷ [])
unfolding sub_time
classify_run-newest_first_example =
    classify_run-newest_first ((pos 20, 302) ∷ (pos 30, 301) ∷ (pos 40, 302) ∷ []) filter warm 300
      (pos 10) warm-IsTracked (omega arith) known
      (
        omega arith,
        omega arith,
        omega arith,
        (omega arith, omega arith, omega arith, (omega arith, omega arith, omega arith, tt)),
      )

-- At 100 the frame is accepted, since the reset is over.
warm-accepted : (classify filter (pos 100) warm).1 ≡ accepted
unfolding classify classify_known frame_key eq_bytes to_lower lower_char lookup sub_time
warm-accepted = refl

abbrev message : BleMessage
message = record {
  did = codes "blt.1";
  mac = sensor_mac;
  pdid = pos 5860;
  events = record { id = pos 18435; payload = codes "64" } ∷ [];
  frame_count = pos 7;
  gateway_time = pos 1000;
}

parse_ble_event-IsReport_example :
    All
      (λ u.
        (product : Product) × (lookup_product message.pdid ≡ some product)
        × IsReport whole_floats message product u)
      (parse_ble_event whole_floats (some message)).0
parse_ble_event-IsReport_example = parse_ble_event-IsReport whole_floats message

toothbrush_item-state_bytes_example :
    toothbrush_item
      (record { id = event_toothbrush_state; payload = hex_encode (state_bytes 1 1120 (some 80)) })
      (zero_update, [])
    ≡ (
      record zero_update {
        toothbrush = some (record { type = 1; timestamp = pos 1120; score = some 80 });
      },
      [],
    )
toothbrush_item-state_bytes_example =
    toothbrush_item-state_bytes
      (record { id = event_toothbrush_state; payload = hex_encode (state_bytes 1 1120 (some 80)) })
      1 1120 (some 80) (zero_update, []) refl refl (omega arith) (omega arith) (omega arith, tt)

abbrev warm-HasNumbers : HasNumbers whole_floats warm
warm-HasNumbers = record { temperature = refl; humidity = tt }

merge_again_example :
    merge whole_floats warm (pos 2000) (merge whole_floats warm (pos 1000) []).0
    ≡ ((merge whole_floats warm (pos 1000) []).0, false)
merge_again_example = merge_again whole_floats warm (pos 1000) (pos 2000) [] warm-HasNumbers

find_reading-merge_example :
    (r : Reading) × (find_reading sensor (merge whole_floats warm (pos 1000) []).0 ≡ some r)
    × (reading_changes whole_floats r warm ≡ false)
unfolding identity normalize_mac only_hex is_hex join_pairs to_lower lower_char
find_reading-merge_example =
    find_reading-merge whole_floats warm (pos 1000) [] sensor warm-HasNumbers refl refl refl
