-- ===== src/Openmiio/Miot/Values.antt =====
-- The numbers of MIoT properties and the DIDs that they are for.
use mgl03_homekit_bridge.Common.{
  ◌≡◌, refl, Bool, true, false, not, ◌&&◌, ◌||◌, Option, none, some, List, [], ◌∷◌, ◌++◌, Bytes, ok,
  err, eq_bytes, is_some, trim_space, if◌then◌else◌, arith,
}
use mgl03_homekit_bridge.Common.Int.{ℤ, pos, negsuc, ltb_ℤ, eq_ℤ}
use mgl03_homekit_bridge.Openmiio.Types.{Float64, FloatOps, Update, has_measurements}
use mgl03_homekit_bridge.Openmiio.Decoders.{round_tenth, temperature_out_of_range}
use mgl03_homekit_bridge.Openmiio.Decoders.Ranges.{IsInRange}
use mgl03_homekit_bridge.Openmiio.Parser.{Property, out_of_range}
use mgl03_homekit_bridge.Openmiio.Miot.{
  MeasurementKind, temperature, humidity, battery, kind_of, humidity_out_of_range, set_measurement,
}

-- Is the DID in the list?
unfoldable pub is_in : Bytes → List Bytes → Bool
is_in did [] = false
is_in did (d ∷ ds) = eq_bytes d did || is_in did ds

-- The properties that are measurements, by service and property id.
abbrev documented_kinds : List (ℤ × ℤ × MeasurementKind)
documented_kinds =
    (pos 3, pos 1001, temperature) ∷ (pos 3, pos 1002, humidity) ∷ (pos 2, pos 1003, battery) ∷ []

abbrev kind_in : List (ℤ × ℤ × MeasurementKind) → ℤ → ℤ → Option MeasurementKind
kind_in [] siid piid = none
kind_in ((s, p, k) ∷ rest) siid piid =
    if eq_ℤ siid s && eq_ℤ piid p then some k else kind_in rest siid piid

unfoldable pub documented : Property → Option MeasurementKind
documented p = kind_in documented_kinds p.siid p.piid

pub kind_of-documented : (p : Property) → kind_of p ≡ documented p
unfolding kind_of documented
kind_of-documented p = refl

-- The DIDs that `order` holds after more properties: each DID of a property with a known kind stands
-- once, where it came first.
abbrev pub with_did : Option MeasurementKind → Bytes → List Bytes → List Bytes
with_did none did order = order
with_did (some k) did order = if is_in did order then order else order ++ (did ∷ [])

unfoldable pub dids_after : List Bytes → List Property → List Bytes
dids_after order [] = order
dids_after order (p ∷ ps) = dids_after (with_did (documented p) p.did order) ps

unfoldable pub dids : List Update → List Bytes
dids [] = []
dids (u ∷ us) = u.did ∷ dids us

module _ (fl : FloatOps) where
  -- A number in the range of its kind, after rounding to a tenth or to a whole number.
  abbrev tenth : Float64 → Float64
  tenth v = fl.div (fl.round (fl.mul v (fl.of_int (pos 10)))) (fl.of_int (pos 10))

  abbrev is_within : ℤ → ℤ → Float64 → Bool
  is_within low high v = not (fl.lt v (fl.of_int low) || fl.lt (fl.of_int high) v)

  abbrev pub fits : MeasurementKind → Float64 → Bool
  fits temperature v = is_within (negsuc 99) (pos 150) (tenth v)
  fits humidity v = is_within (pos 0) (pos 100) (tenth v)
  fits battery v =
      not (ltb_ℤ (fl.to_int (fl.round v)) (pos 0)) && not (ltb_ℤ (pos 100) (fl.to_int (fl.round v)))

  abbrev pub number_fits : MeasurementKind → Option Float64 → Bool
  number_fits k none = false
  number_fits k (some v) = fits k v

  abbrev pub is_good : Option MeasurementKind → Property → Bool
  is_good none p = true
  is_good (some k) p = number_fits k (fl.parse (trim_space p.value))

  -- Every property of a known kind has a number that fits.
  unfoldable pub all_good : List Property → Bool
  all_good [] = true
  all_good (p ∷ ps) = is_good (documented p) p && all_good ps

  -- A humidity of a property is also not below 0.
  abbrev pub NotNegative : Option Float64 → Type 0
  NotNegative none = Unit
  NotNegative (some v) = fl.lt v (fl.of_int (pos 0)) ≡ false

  -- The update has one of the three values.
  abbrev pub is_measured : Update → Bool
  is_measured u = is_some u.temperature || (is_some u.humidity || is_some u.battery)

  pub is_measured-has_measurements : (u : Update) → is_measured u ≡ true → has_measurements u ≡ true
  unfolding has_measurements
  is_measured-has_measurements u h = ground arith

  -- An update of the device, with values in range.
  pub record IsEntry (did : Bytes) (u : Update) : Type 0 where
    pub own : u.did ≡ did
    pub in_range : IsInRange fl u
    pub not_negative : NotNegative u.humidity
    pub measured : is_measured u ≡ true

  -- What is known of an update while it is filled.
  abbrev pub IsOpen : Bytes → Update → Type 0
  IsOpen did u = (u.did ≡ did) × IsInRange fl u × NotNegative u.humidity

  pub set_measurement-fits :
      (k : MeasurementKind) (v : Float64) (did : Bytes) (u : Update)
      → fits k v ≡ true
      → IsOpen did u
      → (u' : Update) × (set_measurement fl k v did u ≡ ok u') × IsEntry did u'
  unfolding set_measurement round_tenth temperature_out_of_range humidity_out_of_range
  set_measurement-fits temperature v did u good (own, range, floor) = (
    record u { temperature = some (tenth v) },
    ground arith,
    record {
      own = own;
      in_range = ground (arith, range.battery, range.humidity, range.toothbrush);
      not_negative = floor;
      measured = ground arith;
    },
  )
  set_measurement-fits humidity v did u good (own, range, floor) = (
    record u { humidity = some (tenth v) },
    ground arith,
    record {
      own = own;
      in_range = ground (arith, range.battery, range.temperature, range.toothbrush);
      not_negative = ground arith;
      measured = ground arith;
    },
  )
  set_measurement-fits battery v did u good (own, range, floor) = (
    record u { battery = some (fl.to_int (fl.round v)) },
    ground arith,
    record {
      own = own;
      in_range = ground (arith, range.temperature, range.humidity, range.toothbrush);
      not_negative = floor;
      measured = ground arith;
    },
  )

  pub set_measurement-misfits :
      (k : MeasurementKind) (v : Float64) (did : Bytes) (u : Update)
      → fits k v ≡ false
      → set_measurement fl k v did u ≡ err (out_of_range did)
  unfolding set_measurement round_tenth temperature_out_of_range humidity_out_of_range
  set_measurement-misfits temperature v did u bad = ground arith
  set_measurement-misfits humidity v did u bad = ground arith
  set_measurement-misfits battery v did u bad = ground arith
