-- ===== src/Openmiio/Decoders/Runs.antt =====
-- The loops of the two decoders, and a brushing event from its bytes.
use mgl03_homekit_bridge.Common.{
  ℕ, ◌/◌, ◌%◌, ◌<◌, ◌≡◌, refl, ◌∙◌, Option, none, some, List, [], ◌∷◌, Bytes, arith, All,
}
use mgl03_homekit_bridge.Common.Int.{pos}
use mgl03_homekit_bridge.Openmiio.Types.{FloatOps, BleEvent, Update}
use mgl03_homekit_bridge.Openmiio.Hex.{hex_encode, hex_decode-hex_encode, IsByte, le_uint32_lem}
use mgl03_homekit_bridge.Openmiio.Decoders.{
  Progress, toothbrush_value, decode_toothbrush_state, toothbrush_item, toothbrush_items,
  decode_toothbrush_t700i, sensor_item, sensor_items, decode_sensor_hto2, event_toothbrush_state,
}
use mgl03_homekit_bridge.Openmiio.Decoders.Ranges.{
  IsInRange, header, sensor_item-IsStep, toothbrush_item-IsStep,
}

module _ (fl : FloatOps) where
  sensor_items_lem :
      (items : List BleEvent) (p : Progress)
      → IsInRange fl p.0
      → (header (sensor_items fl items p).0 ≡ header p.0) × IsInRange fl (sensor_items fl items p).0
  unfolding sensor_items
  sensor_items_lem [] p h = (refl, h)
  sensor_items_lem (item ∷ items) p h =
      let step = sensor_item-IsStep fl item p in
      let (same, range) = sensor_items_lem items (sensor_item fl item p) (step.in_range h) in
      (same ∙ step.same_header, range)

  toothbrush_items_lem :
      (items : List BleEvent) (p : Progress)
      → IsInRange fl p.0
      → (header (toothbrush_items items p).0 ≡ header p.0)
        × IsInRange fl (toothbrush_items items p).0
  unfolding toothbrush_items
  toothbrush_items_lem [] p h = (refl, h)
  toothbrush_items_lem (item ∷ items) p h =
      let step = toothbrush_item-IsStep fl item p in
      let (same, range) = toothbrush_items_lem items (toothbrush_item item p) (step.in_range h) in
      (same ∙ step.same_header, range)

  pub decode_sensor_hto2_lem :
      (events : List BleEvent) (u : Update)
      → IsInRange fl u
      → (header (decode_sensor_hto2 fl events u).0 ≡ header u)
        × IsInRange fl (decode_sensor_hto2 fl events u).0
  unfolding decode_sensor_hto2
  decode_sensor_hto2_lem events u h = sensor_items_lem events (u, []) h

  pub decode_toothbrush_t700i_lem :
      (events : List BleEvent) (u : Update)
      → IsInRange fl u
      → (header (decode_toothbrush_t700i events u).0 ≡ header u)
        × IsInRange fl (decode_toothbrush_t700i events u).0
  unfolding decode_toothbrush_t700i
  decode_toothbrush_t700i_lem events u h = toothbrush_items_lem events (u, []) h

-- The payload that a T700i sends: its type, the time in four bytes, and a score where there is one.
abbrev score_bytes : Option ℕ → Bytes
score_bytes none = []
score_bytes (some x) = x ∷ []

abbrev pub state_bytes : ℕ → ℕ → Option ℕ → Bytes
state_bytes type n score =
    type ∷ (n % 256) ∷ (n / 256 % 256) ∷ (n / 65536 % 256) ∷ (n / 16777216) ∷ score_bytes score

state_bytes-IsByte :
    (type n : ℕ) (score : Option ℕ)
    → type < 256
    → n < 4294967296
    → All IsByte (score_bytes score)
    → All IsByte (state_bytes type n score)
state_bytes-IsByte type n score ht hn hs =
    (ht, (omega arith, (omega arith, (omega arith, (omega arith, hs)))))

toothbrush_value_lem :
    (s : Bytes) (type n : ℕ) (score : Option ℕ) (p : Progress)
    → n < 4294967296
    → toothbrush_value s (some (state_bytes type n score)) p ≡ (
      record (p.0) { toothbrush = some (record { type = type; timestamp = pos n; score = score }) },
      p.1,
    )
unfolding toothbrush_value
toothbrush_value_lem s type n none p h = rw (le_uint32_lem n h)
toothbrush_value_lem s type n (some x) p h = rw (le_uint32_lem n h)

-- The event that a T700i sends is decoded to its type, its 32-bit time and its score, whatever came
-- before, and nothing else of the update changes.
pub toothbrush_item-state_bytes :
    (item : BleEvent) (type n : ℕ) (score : Option ℕ) (p : Progress)
    → item.id ≡ event_toothbrush_state
    → item.payload ≡ hex_encode (state_bytes type n score)
    → type < 256
    → n < 4294967296
    → All IsByte (score_bytes score)
    → toothbrush_item item p ≡ (
      record (p.0) { toothbrush = some (record { type = type; timestamp = pos n; score = score }) },
      p.1,
    )
unfolding toothbrush_item decode_toothbrush_state
toothbrush_item-state_bytes item type n score p i e ht hn hs =
    rw
      (
        i,
        e,
        hex_decode-hex_encode (state_bytes type n score) (state_bytes-IsByte type n score ht hn hs),
      )
      (toothbrush_value_lem _ type n score p hn)
