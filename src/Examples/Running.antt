-- ===== src/Examples/Running.antt =====
-- The bridge while it starts and runs: the channel, property reports and the accessories.
use mgl03_homekit_bridge.Common.{
  ℕ, ◌≡◌, refl, Bool, true, none, some, List, [], ◌∷◌, ◌++◌, Bytes, codes, arith,
}
use mgl03_homekit_bridge.Common.Int.{ℤ, pos, neg64, seconds64, sub64}
use mgl03_homekit_bridge.Config.Device.{Device}
use mgl03_homekit_bridge.Config.Validate.{Settings, defaults}
use mgl03_homekit_bridge.Openmiio.Types.{Update}
use mgl03_homekit_bridge.Openmiio.Parser.{Property}
use mgl03_homekit_bridge.Openmiio.Miot.{parse_miot_properties}
use mgl03_homekit_bridge.Openmiio.Miot.Answer.{IsAnswer, parse_miot_properties-IsAnswer}
use mgl03_homekit_bridge.Bridge.Toothbrush.{
  apply, apply_event, apply_level, apply_start, raw_live, in_session, duration_abs, reference_time,
  arm_watchdog, new_toothbrush,
}
use mgl03_homekit_bridge.Bridge.Toothbrush.System.{System, report, here, next}
use mgl03_homekit_bridge.Bridge.Toothbrush.Trace.{initial}
use mgl03_homekit_bridge.Bridge.Toothbrush.Ends.{Ends, Reach-Ends}
use mgl03_homekit_bridge.App.Prepare.{prepare_devices}
use mgl03_homekit_bridge.App.Prepare.Assigned.{IsAssigned}
use mgl03_homekit_bridge.Openmiio.Dedup.{new_deduplicator}
use mgl03_homekit_bridge.App.Updates.{Runtime, process_updates}
use mgl03_homekit_bridge.App.Updates.Enrolled.{HasNewMacs, process_updates-HasNewMacs}
use mgl03_homekit_bridge.App.Discover.{discover_devices}
use mgl03_homekit_bridge.App.Queue.{new_queue, offer, History, arrive, take}
use mgl03_homekit_bridge.App.Queue.Fifo.{IsFifo, Reach-IsFifo}
use mgl03_homekit_bridge.App.Queue as Queue
use mgl03_homekit_bridge.App.Discover
use mgl03_homekit_bridge.App.Updates.{replay_initial}
use mgl03_homekit_bridge.App.Updates.Rules.{applied}
use mgl03_homekit_bridge.App.Updates.Replay.{AreOwners, reports}
use mgl03_homekit_bridge.App.Start.{assemble, runtime}
use mgl03_homekit_bridge.App.Start.Replayed.{reports-assemble}
use mgl03_homekit_bridge.Examples.Data.{
  event, brushing, clock, full_battery, sensor, brush, warm, whole_floats,
}

-- The brush after the report of a start.
abbrev begun : System
begun = record (initial full_battery) {
  brush = apply (brushing 1 (event 0 1000 none) 1000) (clock 5) (initial full_battery).brush;
}

Reach-Ends_example : Ends begun
unfolding apply apply_event apply_level apply_start raw_live in_session duration_abs reference_time
    arm_watchdog new_toothbrush sub64 neg64 seconds64
Reach-Ends_example =
    Reach-Ends full_battery 5
      (next here (report (initial full_battery) (brushing 1 (event 0 1000 none) 1000) (clock 5)))
      (omega arith) refl refl refl (omega arith)

-- A temperature and a property that nobody reads.
abbrev props : List Property
props =
    record { did = codes "d1"; siid = pos 3; piid = pos 1001; value = codes "21" }
    ∷ record { did = codes "d1"; siid = pos 9; piid = pos 1; value = codes "x" }
    ∷ []

parse_miot_properties-IsAnswer_example :
    IsAnswer whole_floats props (parse_miot_properties whole_floats (some props))
parse_miot_properties-IsAnswer_example = parse_miot_properties-IsAnswer whole_floats props

abbrev empty_history : History
empty_history = record { queue = new_queue; offered = []; taken = [] }

Reach-IsFifo_example : IsFifo (record { queue = new_queue; offered = warm ∷ []; taken = warm ∷ [] })
unfolding offer
Reach-IsFifo_example = Reach-IsFifo (
    Queue.next (Queue.next Queue.here (arrive empty_history (pos 5) warm)) (
      take
        (record {
          queue = record new_queue { waiting = warm ∷ [] };
          offered = warm ∷ [];
          taken = [];
        })
        warm [] refl))

abbrev plain : Bytes → ℕ → Bytes
plain name index = name

-- A sort for lists that are in order.
abbrev kept : (Device → Device → Bool) → List Device → List Device
kept less ds = ds

-- The default settings with two devices, and with none.
abbrev with_two : Settings
with_two = record (defaults (codes "d") (codes "24681357")) { devices = sensor ∷ brush ∷ [] }

abbrev with_none : Settings
with_none = defaults (codes "d") (codes "24681357")

reports-assemble_example :
    let s = assemble plain kept with_none [] (Discover.report (pos 5) warm ∷ []) [] in
    let calls = applied (replay_initial plain whole_floats (pos 1000) s.initial (runtime s)).1 in
    (reports calls ≡ reports s.initial) × AreOwners s.exposed calls
reports-assemble_example =
    reports-assemble plain kept whole_floats with_none [] (Discover.report (pos 5) warm ∷ []) []
      (pos 1000) (λ less p ds. refl) (omega arith)

-- Two reports of a brush that is not known yet reach a bridge with one sensor.
abbrev serving : Runtime
serving = record {
  exposed = sensor ∷ [];
  devices = (prepare_devices (sensor ∷ [])).0;
  deduplicator = new_deduplicator (pos 60);
  measurements = [];
  unknown = [];
}

abbrev arrivals : List (ℤ × ℤ × Update)
arrivals =
    (pos 1, pos 1000, brushing 1 (event 0 1000 none) 1000)
    ∷ (pos 2, pos 1002, brushing 2 (event 0 1002 none) 1002)
    ∷ []

process_updates-HasNewMacs_example :
    let after = (process_updates plain whole_floats true arrivals serving).0 in
    (added : List Device) × (after.devices ≡ serving.devices ++ added)
    × HasNewMacs [] added
    × IsAssigned [] after.devices
process_updates-HasNewMacs_example =
    process_updates-HasNewMacs plain whole_floats true arrivals serving (sensor ∷ []) refl
      (omega arith)
