-- ===== src/Openmiio/Parser/Reports.antt =====
-- What parseBLEEvent lets through.
use mgl03_homekit_bridge.Common.{
  ◌≡◌, refl, ap, true, inl, inr, Option, none, some, [], ◌∷◌, arith, All, All-map, Option-cases,
  Bool-cases,
}
use mgl03_homekit_bridge.Openmiio.Types.{FloatOps, Update, has_measurements}
use mgl03_homekit_bridge.Openmiio.Decoders.{Progress}
use mgl03_homekit_bridge.Openmiio.Decoders.Ranges.{IsInRange, Header, header}
use mgl03_homekit_bridge.Openmiio.Decoders.Runs.{
  decode_sensor_hto2_lem, decode_toothbrush_t700i_lem,
}
use mgl03_homekit_bridge.Openmiio.Mac.{normalize_mac}
use mgl03_homekit_bridge.Openmiio.Products.{
  Product, BleDecoder, sensor_hto2, toothbrush_t700i, run_decoder, lookup_product,
}
use mgl03_homekit_bridge.Openmiio.Parser.{
  BleMessage, ble_update, decoded, decode_product, parse_ble_product, parse_ble_event,
}

run_decoder_lem :
    (fl : FloatOps) (d : BleDecoder) (m : BleMessage) (product : Product)
    → let u = (run_decoder fl d m.events (ble_update m product)).0 in
      (header u ≡ header (ble_update m product)) × IsInRange fl u
unfolding run_decoder
run_decoder_lem fl sensor_hto2 m product =
    decode_sensor_hto2_lem fl m.events (ble_update m product) (unfold ble_update in ground arith)
run_decoder_lem fl toothbrush_t700i m product =
    decode_toothbrush_t700i_lem fl m.events (ble_update m product)
      (unfold ble_update in ground arith)

-- An update that is passed on for a message and a product.
pub record IsReport (fl : FloatOps) (m : BleMessage) (product : Product) (u : Update) : Type 0 where
  pub did : u.did ≡ m.did
  pub mac : u.mac ≡ normalize_mac m.mac
  pub product_id : u.product_id ≡ m.pdid
  pub kind : u.kind ≡ product.kind
  pub model : u.model ≡ product.model
  pub frame_count : u.frame_count ≡ m.frame_count
  pub counted : u.has_frame_count ≡ true
  pub gateway_time : u.gateway_time ≡ m.gateway_time
  pub in_range : IsInRange fl u

header-IsReport :
    (fl : FloatOps) (m : BleMessage) (product : Product) (u : Update)
    → header u ≡ header (ble_update m product)
    → IsInRange fl u
    → IsReport fl m product u
unfolding ble_update
header-IsReport fl m product u same range = record {
  did = ap (λ (h : Header). h.0) same;
  mac = ap (λ (h : Header). h.1) same;
  product_id = ap (λ (h : Header). h.2) same;
  kind = ap (λ (h : Header). h.3) same;
  model = ap (λ (h : Header). h.4) same;
  frame_count = ap (λ (h : Header). h.5) same;
  counted = ap (λ (h : Header). h.6) same;
  gateway_time = ap (λ (h : Header). h.7) same;
  in_range = range;
}

decoded_lem :
    (fl : FloatOps) (m : BleMessage) (product : Product) (p : Progress)
    → IsReport fl m product p.0
    → All (IsReport fl m product) (decoded p).0
unfolding decoded
decoded_lem fl m product (u, []) h = elim (Bool-cases (has_measurements u)) [
  | inl some_value ↦ rw some_value (h, tt)
  | inr empty ↦ rw empty tt
]
decoded_lem fl m product (u, e ∷ errs) h = (h, tt)

decode_product_lem :
    (fl : FloatOps) (m : BleMessage) (product : Product) (d : Option BleDecoder)
    → All (IsReport fl m product) (decode_product fl m product d).0
unfolding decode_product
decode_product_lem fl m product none = tt
decode_product_lem fl m product (some d) =
    decoded_lem fl m product (run_decoder fl d m.events (ble_update m product)) (
      let (same, range) = run_decoder_lem fl d m product in
      header-IsReport fl m product (run_decoder fl d m.events (ble_update m product)).0 same range)

-- Every update of a BLE message, also one that comes with an error, has the DID, product id, frame counter
-- and time of the message, its MAC normalized, and the kind and model of the product that the table has
-- for the message. Its values are in range: a battery of 0 to 100 percent, a temperature not below -100 and
-- not above 150 degrees, a humidity not above 100 percent, and a state event whose type and score are below
-- 256 and whose time is from 0 to 2^32 - 1. A message of an unknown product gives no update.
pub parse_ble_event-IsReport :
    (fl : FloatOps) (m : BleMessage)
    → All
        (λ u.
          (product : Product) × (lookup_product m.pdid ≡ some product) × IsReport fl m product u)
        (parse_ble_event fl (some m)).0
unfolding parse_ble_event parse_ble_product
parse_ble_event-IsReport fl m = elim (Option-cases (lookup_product m.pdid)) [
  | inl e ↦ rw e tt
  | inr (product, e) ↦ rw e (
      All-map (λ u r. (product, refl, r)) (decode_product fl m product product.decode).0
        (decode_product_lem fl m product product.decode))
]
