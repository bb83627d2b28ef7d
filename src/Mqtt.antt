-- ===== src/Mqtt.antt =====
-- internal/mqttmini: the MQTT 3.1.1 client.
pub mod Wire
pub mod Publish
pub mod Topics
pub mod Session
pub mod Serve
pub mod Run
pub mod Backoff
