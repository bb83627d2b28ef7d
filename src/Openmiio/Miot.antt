-- ===== src/Openmiio/Miot.antt =====
-- parser.go, parseMIoTProperties and Parse.
pub mod Values
pub mod Collects
pub mod Answer
use mgl03_homekit_bridge.Common.{
  Bool, ◌&&◌, ◌||◌, Option, none, some, List, [], ◌∷◌, ◌++◌, Bytes, Result, ok, err, ◌>>=◌, or_err,
  codes, eq_bytes, trim_space, if◌then◌else◌,
}
use mgl03_homekit_bridge.Common.Int.{pos, ltb_ℤ, eq_ℤ}
use mgl03_homekit_bridge.Common.Table.{lookup, insert}
use mgl03_homekit_bridge.Openmiio.Types.{Float64, FloatOps, Update, zero_update, has_measurements}
use mgl03_homekit_bridge.Openmiio.Decoders.{round_tenth, temperature_out_of_range}
use mgl03_homekit_bridge.Openmiio.Products.{model_sensor_hto2}
use mgl03_homekit_bridge.Openmiio.Parser.{
  Property, Envelope, Json, ParseError, bad_envelope, bad_properties, bad_number, out_of_range,
  Parsed, parse_ble_event,
}

pub data MeasurementKind : Type 0 where
  temperature humidity battery : MeasurementKind

unfoldable pub kind_of : Property → Option MeasurementKind
kind_of p =
    if eq_ℤ p.siid (pos 3) && eq_ℤ p.piid (pos 1001)
    then some temperature
    else if eq_ℤ p.siid (pos 3) && eq_ℤ p.piid (pos 1002)
    then some humidity
    else if eq_ℤ p.siid (pos 2) && eq_ℤ p.piid (pos 1003)
    then some battery
    else none

-- The map `byDID` and the slice `order`.
pub record Collected : Type 0 where
  pub by_did : List (Bytes × Update)
  pub order : List Bytes

unfoldable pub new_update : Bytes → Update
new_update did = record zero_update { did = did; model = model_sensor_hto2 }

pub entry : Bytes → Option Update → Collected → Update × Collected
entry did (some u) c = (u, c)
entry did none c =
    let u = new_update did in
    (u, record { by_did = insert did u c.by_did; order = c.order ++ (did ∷ []) })

module _ (fl : FloatOps) where
  unfoldable pub raw_number : Bytes → Option Float64
  raw_number s = fl.parse (trim_space s)

  -- `v < 0 || v > 100`
  unfoldable pub humidity_out_of_range : Float64 → Bool
  humidity_out_of_range v = fl.lt v (fl.of_int (pos 0)) || fl.lt (fl.of_int (pos 100)) v

  unfoldable pub set_measurement :
      MeasurementKind → Float64 → Bytes → Update → Result ParseError Update
  set_measurement temperature value did u =
      let v = round_tenth fl value in
      if temperature_out_of_range fl v
      then err (out_of_range did)
      else ok (record u { temperature = some v })
  set_measurement humidity value did u =
      let v = round_tenth fl value in
      if humidity_out_of_range v
      then err (out_of_range did)
      else ok (record u { humidity = some v })
  set_measurement battery value did u =
      let v = fl.to_int (fl.round value) in
      if ltb_ℤ v (pos 0) || ltb_ℤ (pos 100) v
      then err (out_of_range did)
      else ok (record u { battery = some v })

  -- One round of the loop. The update is written through its pointer.
  unfoldable pub collect_kind :
      Property → Option MeasurementKind → Collected → Result ParseError Collected
  unfolding entry new_update
  collect_kind p none c = ok c
  collect_kind p (some k) c =
      let (u, c') = entry p.did (lookup p.did c.by_did) c in
      or_err (bad_number p.did) (raw_number p.value) >>= λ value.
      set_measurement k value p.did u >>= λ u'.
      ok (record c' { by_did = insert p.did u' c'.by_did })

  unfoldable pub collect : List Property → Collected → Result ParseError Collected
  collect [] c = ok c
  collect (p ∷ ps) c = collect_kind p (kind_of p) c >>= λ c'. collect ps c'

  -- The last loop: the updates in order, those that have measurements.
  with_measurements : Option Update → List Update → List Update
  with_measurements none us = us
  with_measurements (some u) us = if has_measurements u then u ∷ us else us

  unfoldable pub in_order : List Bytes → List (Bytes × Update) → List Update
  unfolding with_measurements
  in_order [] by_did = []
  in_order (did ∷ dids) by_did = with_measurements (lookup did by_did) (in_order dids by_did)

  finish : Result ParseError Collected → Parsed
  finish (err e) = ([], some e)
  finish (ok c) = (in_order c.order c.by_did, none)

  unfoldable pub parse_miot_properties : Option (List Property) → Parsed
  unfolding finish
  parse_miot_properties none = ([], some bad_properties)
  parse_miot_properties (some props) = finish (collect props (record { by_did = []; order = [] }))

  parse_envelope : Json → Option Envelope → Parsed
  parse_envelope json none = ([], some bad_envelope)
  parse_envelope json (some env) =
      if eq_bytes env.method (codes "_async.ble_event")
      then parse_ble_event fl (json.ble_message env.params)
      else if eq_bytes env.method (codes "properties_changed")
      then parse_miot_properties (json.properties env.params)
      else ([], none)

  -- Parse
  unfoldable pub parse : Json → Bytes → Parsed
  unfolding parse_envelope
  parse json payload = parse_envelope json (json.envelope payload)
