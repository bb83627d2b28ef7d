-- ===== src/Examples/Sessions.antt =====
-- Two sessions of the MQTT client.
use mgl03_homekit_bridge.Common.{
  ◌*◌, ◌≤◌, ◌≡◌, refl, true, false, List, [], ◌∷◌, ◌++◌, codes, map, All, trim_space, eq_bytes,
  arith,
}
use mgl03_homekit_bridge.Mqtt.Topics.{
  normalized_topics, normalized_loop, has_topic, connect_payload, subscribe_payload,
  subscribe_topics,
}
use mgl03_homekit_bridge.Mqtt.Wire.{write_utf8}
use mgl03_homekit_bridge.Mqtt.Session.{packet, timeout, broken, serve_loop}
use mgl03_homekit_bridge.Mqtt.Serve.{Client, Link, dial_failed, accepts, client_id_of, serve}
use mgl03_homekit_bridge.Mqtt.Serve.Handshake.{comes_about, is_accepted}
use mgl03_homekit_bridge.Mqtt.Serve.Requests.{IsSession, serve-IsSession}
use mgl03_homekit_bridge.Mqtt.Backoff.{second}
use mgl03_homekit_bridge.Mqtt.Backoff.Bounds.{expected_waits}
use mgl03_homekit_bridge.Mqtt.Run.{Attempt, Event, later, in_wait, state, acted, run}
use mgl03_homekit_bridge.Mqtt.Run.Trace.{
  states, waits_of, errors, rounds, lengths, causes, IsToggled, run_lem,
}
use mgl03_homekit_bridge.Mqtt.Run.Again.{run-comes_about}

abbrev client : Client
client = record {
  address = codes "127.0.0.1:1883";
  topics = codes "central/report" ∷ codes "miio/report" ∷ [];
  client_id = [];
}

-- The broker accepts, and then closes the connection.
abbrev link : Link
link = record {
  dials = true;
  sends_connect = true;
  connack = packet 0x20 (0 ∷ 0 ∷ []);
  sends_subscribe = true;
  turns = (timeout, true) ∷ (broken, true) ∷ [];
}

serve-IsSession_example :
    IsSession client (normalized_topics client.topics) link (serve client link)
unfolding trim_space normalized_topics normalized_loop has_topic eq_bytes
serve-IsSession_example = serve-IsSession client link (omega arith) (omega arith, (omega arith, tt))

-- First there is no broker.
abbrev down : Attempt
down = record { link = record link { dials = false }; lasted = 0; cancel = later }

abbrev up : Attempt
up = record { link = link; lasted = 70 * second; cancel = in_wait }

run_lem_example :
    let es = run client (down ∷ up ∷ []) in
    IsToggled false (states es)
    × (errors es ≡ causes (rounds client (down ∷ up ∷ [])))
    × (waits_of es ≡ expected_waits 0 (lengths (rounds client (down ∷ up ∷ []))))
    × All (λ w. (second ≤ w) × (w ≤ 32 * second)) (waits_of es)
run_lem_example = run_lem client (down ∷ up ∷ [])

run-comes_about_example :
    let acts = (serve_loop (normalized_topics client.topics) false link.turns).0 in
    (es es' : List Event) × (run client ((down ∷ []) ++ (up ∷ []))
      ≡ es ++ (state true ∷ (map acted acts ++ es')))
unfolding serve trim_space normalized_topics normalized_loop has_topic eq_bytes comes_about
    is_accepted accepts connect_payload subscribe_payload subscribe_topics write_utf8 client_id_of
run-comes_about_example =
    run-comes_about client (down ∷ []) [] up ((refl, dial_failed, refl), tt) refl
