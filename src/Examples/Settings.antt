-- ===== src/Examples/Settings.antt =====
-- internal/config and internal/mqttmini: addresses and topics.
use mgl03_homekit_bridge.Common.{
  ◌≡◌, true, ◌&&◌, some, List, [], ◌∷◌, Bytes, codes, arith, map, trim_space,
}
use mgl03_homekit_bridge.Config.Mac
use mgl03_homekit_bridge.Config.Mac.{is_mac}
use mgl03_homekit_bridge.Openmiio.Mac.{normalize_mac}
use mgl03_homekit_bridge.Openmiio.Mac.Agree.{normalize_mac-agrees}
use mgl03_homekit_bridge.Mqtt.Topics.{has_topic, normalized_topics, subscribe_topics}
use mgl03_homekit_bridge.Mqtt.Topics.Normal.{distinct, normalized_topics_lem}
use mgl03_homekit_bridge.Mqtt.Topics.Subscribe.{
  read_filters, with_qos_0, read_filters-subscribe_topics,
}

abbrev dashed : Bytes
dashed = codes "AA-BB-CC-00-11-22"

abbrev filters : List Bytes
filters = codes "a" ∷ codes " b" ∷ codes "a" ∷ []

normalize_mac-agrees_example : normalize_mac dashed ≡ Mac.normalize_mac dashed
normalize_mac-agrees_example = normalize_mac-agrees dashed

normalized_topics_lem_example :
    (distinct (normalized_topics filters) ≡ true)
    × (has_topic (codes "b") (normalized_topics filters)
        ≡ has_topic (codes "b") (map trim_space filters) && true)
normalized_topics_lem_example = normalized_topics_lem filters (codes "b")

read_filters-subscribe_topics_example :
    read_filters 4 (subscribe_topics filters) ≡ some (with_qos_0 filters)
read_filters-subscribe_topics_example =
    read_filters-subscribe_topics filters 4 (omega arith, (omega arith, (omega arith, tt)))
      (omega arith)
