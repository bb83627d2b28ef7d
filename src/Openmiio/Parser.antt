-- ===== src/Openmiio/Parser.antt =====
-- parser.go: Parse and its two message kinds. encoding/json is a parameter: it is given by what it
-- decodes a message to.
pub mod Reports
use mgl03_homekit_bridge.Common.{
  ℕ, Bool, true, false, ◌&&◌, ◌||◌, Option, none, some, List, [], ◌∷◌, ◌++◌, Bytes, Result, ok, err,
  ◌>>=◌, or_err, codes, eq_bytes, is_some, trim_space, if◌then◌else◌,
}
use mgl03_homekit_bridge.Common.Int.{ℤ, pos, negsuc, ltb_ℤ, eq_ℤ}
use mgl03_homekit_bridge.Common.Table.{lookup, insert}
use mgl03_homekit_bridge.Openmiio.Types.{
  Float64, FloatOps, BleEvent, Update, zero_update, has_measurements,
}
use mgl03_homekit_bridge.Openmiio.Decoders.{
  Progress, DecodeError, round_tenth, temperature_out_of_range,
}
use mgl03_homekit_bridge.Openmiio.Products.{
  Product, BleDecoder, run_decoder, lookup_product, model_sensor_hto2,
}
use mgl03_homekit_bridge.Openmiio.Mac.{normalize_mac}

-- The struct of parseBLEEvent.
pub record BleMessage : Type 0 where
  pub did : Bytes
  pub mac : Bytes
  pub pdid : ℤ
  pub events : List BleEvent
  pub frame_count : ℤ
  pub gateway_time : ℤ

-- An element of the array of parseMIoTProperties; `value` is the raw JSON.
pub record Property : Type 0 where
  pub did : Bytes
  pub siid : ℤ
  pub piid : ℤ
  pub value : Bytes

pub record Envelope : Type 0 where
  pub method : Bytes
  pub params : Bytes

-- json.Unmarshal into the three types; `none` is an error.
pub record Json : Type 0 where
  pub envelope : Bytes → Option Envelope
  pub ble_message : Bytes → Option BleMessage
  pub properties : Bytes → Option (List Property)

pub data ParseError : Type 0 where
  bad_envelope bad_ble_event bad_properties : ParseError
  bad_events : List DecodeError → ParseError
  bad_number : Bytes → ParseError
  out_of_range : Bytes → ParseError

-- Go returns updates beside an error.
abbrev pub Parsed : Type 0
Parsed = List Update × Option ParseError

-- The update before its events are decoded.
unfoldable pub ble_update : BleMessage → Product → Update
ble_update m product = record zero_update {
  did = m.did;
  mac = normalize_mac m.mac;
  product_id = m.pdid;
  kind = product.kind;
  model = product.model;
  frame_count = m.frame_count;
  has_frame_count = true;
  gateway_time = m.gateway_time;
}

unfoldable pub decoded : Progress → Parsed
decoded (u, e ∷ errs) = (u ∷ [], some (bad_events (e ∷ errs)))
decoded (u, []) = if has_measurements u then (u ∷ [], none) else ([], none)

unfoldable pub decode_product : FloatOps → BleMessage → Product → Option BleDecoder → Parsed
decode_product fl m product none = ([], none)
decode_product fl m product (some d) = decoded (run_decoder fl d m.events (ble_update m product))

unfoldable pub parse_ble_product : FloatOps → BleMessage → Option Product → Parsed
parse_ble_product fl m none = ([], none)
parse_ble_product fl m (some product) = decode_product fl m product product.decode

-- parseBLEEvent, of the decoded message.
unfoldable pub parse_ble_event : FloatOps → Option BleMessage → Parsed
parse_ble_event fl none = ([], some bad_ble_event)
parse_ble_event fl (some m) = parse_ble_product fl m (lookup_product m.pdid)
