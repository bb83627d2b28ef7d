-- ===== src/Examples/Live.antt =====
-- A message on the connection reaches the loop of processUpdates, and a report a toothbrush.
use mgl03_homekit_bridge.Common.{
  ℕ, ◌≡◌, refl, true, none, some, List, [], ◌∷◌, ◌++◌, Bytes, codes, trim_space, eq_bytes, arith,
}
use mgl03_homekit_bridge.Common.Int.{ℤ, pos}
use mgl03_homekit_bridge.Openmiio.Types.{FloatOps, Update, zero_update, has_measurements}
use mgl03_homekit_bridge.Openmiio.Products.{model_sensor_hto2}
use mgl03_homekit_bridge.Openmiio.Parser.{Json}
use mgl03_homekit_bridge.Openmiio.Miot.{
  parse, parse_miot_properties, new_update, collect, collect_kind, kind_of, raw_number,
  set_measurement, in_order,
}
use mgl03_homekit_bridge.Openmiio.Decoders.{temperature_out_of_range, round_tenth}
use mgl03_homekit_bridge.Common.Table.{lookup, insert}
use mgl03_homekit_bridge.Openmiio.Dedup.{new_deduplicator}
use mgl03_homekit_bridge.Mqtt.Publish.{be_value, publish_qos, parse_body, parse_publish}
use mgl03_homekit_bridge.Mqtt.Publish.Shape.{publish_payload}
use mgl03_homekit_bridge.Mqtt.Topics.{has_topic}
use mgl03_homekit_bridge.Mqtt.Session.{
  go_on, Turn, packet, timeout, on_publish, on_packet, on_read, serve_loop,
}
use mgl03_homekit_bridge.Mqtt.Topics.{
  normalized_topics, normalized_loop, connect_payload, subscribe_payload, subscribe_topics,
}
use mgl03_homekit_bridge.Mqtt.Wire.{write_utf8, write_packet}
use mgl03_homekit_bridge.Mqtt.Serve.{Client, accepts, client_id_of}
use mgl03_homekit_bridge.Mqtt.Serve as Serve
use mgl03_homekit_bridge.Mqtt.Run.{Attempt, later, run, run_from, session_events, after_session}
use mgl03_homekit_bridge.Mqtt.Run.Messages.{heard_messages}
use mgl03_homekit_bridge.App.Prepare.{prepare_devices}
use mgl03_homekit_bridge.App.Updates.{Runtime, process_updates}
use mgl03_homekit_bridge.App.Queue.{offer}
use mgl03_homekit_bridge.App.Queue as Queue
use mgl03_homekit_bridge.App.Live.{Live, with_offered, serve_one, arrive, serve, here, next}
use mgl03_homekit_bridge.App.Live.Refines.{updates_of}
use mgl03_homekit_bridge.App.Live.Delivered.{reports_of, no_history, run-process_updates}
use mgl03_homekit_bridge.Bridge.Toothbrush.Invariant.{Inv}
use mgl03_homekit_bridge.Bridge.Toothbrush.Trace.{initial}
use mgl03_homekit_bridge.App.Home.{Home, serve_home}
use mgl03_homekit_bridge.App.Home as Home
use mgl03_homekit_bridge.Bridge.Toothbrush.System as Brush
use mgl03_homekit_bridge.App.Home.Whole.{IsFollowing, Reach-Home}
use mgl03_homekit_bridge.Examples.Data.{
  sensor, brush, whole_floats, full_battery, brushing, event, clock,
}

abbrev plain : Bytes → ℕ → Bytes
plain name index = name

-- A message is a report of one temperature.
abbrev json : Json
json = record {
  envelope = λ s. some (record { method = codes "properties_changed"; params = s });
  ble_message = λ s. none;
  properties = λ s.
      some (record { did = codes "d1"; siid = pos 3; piid = pos 1001; value = codes "21" } ∷ []);
}

abbrev warmer : Update
warmer = record zero_update { did = codes "d1"; model = model_sensor_hto2; temperature = some 21 }

-- Every number is 21.
abbrev floats : FloatOps
floats = record whole_floats { parse = λ s. some 21 }

abbrev topics : List Bytes
topics = codes "t" ∷ []

abbrev turns : List Turn
turns =
    (timeout, true)
    ∷ (
      packet 48 (
          publish_payload
            (record { topic = codes "t"; message = codes "hi"; packet_id = 0; qos = 0 })),
      true,
    )
    ∷ []

abbrev client : Client
client = record { address = codes "127.0.0.1:1883"; topics = topics; client_id = [] }

-- The broker accepts, and then publishes the message.
abbrev attempt : Attempt
attempt = record {
  link = record {
    dials = true;
    sends_connect = true;
    connack = packet 0x20 (0 ∷ 0 ∷ []);
    sends_subscribe = true;
    turns = turns;
  };
  lasted = 0;
  cancel = later;
}

abbrev serving : Runtime
serving = record {
  exposed = sensor ∷ [];
  devices = (prepare_devices (sensor ∷ [])).0;
  deduplicator = new_deduplicator (pos 60);
  measurements = [];
  unknown = [];
}

abbrev begun : Live
begun = record { history = no_history; runtime = serving; effects = [] }

abbrev offered : Live
offered = record begun { history = with_offered (pos 1) warmer no_history }

abbrev served : Live
served = serve_one plain floats true (pos 2) (pos 1000) warmer [] offered

-- A toothbrush begins a session.
abbrev start : Update
start = brushing 1 (event 0 1000 none) 1000

abbrev home : Home
home = record {
  live = record begun { runtime = record serving { exposed = brush ∷ [] } };
  system = initial full_battery;
}

abbrev told : Home
told = record home { live = record (home.live) { history = with_offered (pos 1) start no_history } }

abbrev brushes : Home
brushes = serve_home plain floats true 0 (pos 2) (pos 1000) (clock 5) start [] told

Reach-Home_example :
    (arrivals : List (ℤ × ℤ × Update)) × (brushes.live.history.taken ≡ [] ++ updates_of arrivals)
    × IsFollowing plain floats true 0 arrivals home brushes
    × Inv brushes.system.closed brushes.system.brush
unfolding offer
Reach-Home_example =
    Reach-Home plain floats true 0 full_battery Brush.here refl
      (Home.next (Home.next Home.here (Home.arrive home (pos 1) start))
        (Home.serve told (pos 2) (pos 1000) (clock 5) start [] refl))
      (omega arith)

run-process_updates_example :
    (arrivals : List (ℤ × ℤ × Update)) × (process_updates plain floats true arrivals serving
      ≡ (served.runtime, served.effects))
    × ([] ++ (updates_of arrivals ++ [])
        ≡ reports_of floats json (heard_messages client (attempt ∷ [])))
unfolding serve_loop go_on on_read on_packet on_publish parse_publish be_value parse_body
    publish_qos offer serve_one parse parse_miot_properties new_update has_topic eq_bytes collect
    collect_kind kind_of raw_number set_measurement temperature_out_of_range round_tenth in_order
    lookup insert has_measurements Serve.serve trim_space normalized_topics normalized_loop accepts
    connect_payload subscribe_payload subscribe_topics write_utf8 client_id_of run run_from
    session_events after_session Serve.after_connect write_packet Serve.after_connack
    Serve.after_subscribe Serve.loop_ending
run-process_updates_example =
    run-process_updates plain floats json true client (attempt ∷ []) begun served Queue.here refl
      (next (next here (arrive begun (pos 1) warmer))
        (serve offered (pos 2) (pos 1000) warmer [] refl))
      refl refl
