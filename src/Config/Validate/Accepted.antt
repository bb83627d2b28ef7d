-- ===== src/Config/Validate/Accepted.antt =====
-- Which devices the configuration accepts.
use mgl03_homekit_bridge.Common.{
  ℕ, suc, ◌≡◌, refl, ap, ◌∙◌, Bool, true, false, not, ◌&&◌, ◌||◌, Option, none, some, List, [], ◌∷◌,
  Bytes, Result, ok, err, ◌>>=◌, is_empty, is_some, ltb, ◌==◌, contains, if◌then◌else◌, arith,
  eq_bytes,
}
use mgl03_homekit_bridge.Config.Device.{Device}
use mgl03_homekit_bridge.Config.Mac.{is_mac}
use mgl03_homekit_bridge.Config.Validate.{
  ConfigError, key, is_seen, device_error, unless, normal_device, validate_devices,
}

-- A device can be found, and its id is not that of the bridge.
unfoldable pub is_usable : Device → Bool
is_usable d =
    not (is_empty d.mac && is_empty d.did) && ((is_empty d.mac || is_mac d.mac) && not (d.aid == 1))

-- Two devices that differ in their keys, and in their ids where both have one.
unfoldable pub apart : Device → Device → Bool
apart c d = not (eq_bytes (key d) (key c)) && not (ltb 0 d.aid && d.aid == c.aid)

unfoldable pub all_apart : Device → List Device → Bool
all_apart c [] = true
all_apart c (d ∷ ds) = apart c d && all_apart c ds

-- Every device is usable and any two are apart.
unfoldable pub are_valid : List Device → Bool
are_valid [] = true
are_valid (d ∷ ds) = is_usable d && (all_apart d ds && are_valid ds)

abbrev pub is_ok {ℓ κ} : {E : Type ℓ} {A : Type κ} → Result E A → Bool
is_ok (ok a) = true
is_ok (err e) = false

-- The devices as the loop leaves them.
unfoldable pub normal_devices : (Bytes → ℕ → Bytes) → ℕ → List Device → List Device
normal_devices numbered i [] = []
normal_devices numbered i (d ∷ ds) = normal_device numbered i d ∷ normal_devices numbered (suc i) ds

-- The value of a result, or `a`.
abbrev pub value_or {ℓ κ} : {E : Type ℓ} {A : Type κ} → A → Result E A → A
value_or a (ok b) = b
value_or a (err e) = a

-- What the loop looks at for one device: the keys and ids that it has seen.
abbrev is_clear : List Bytes → List ℕ → Device → Bool
is_clear seen aids d = not (is_seen (key d) seen) && not (ltb 0 d.aid && contains d.aid aids)

are_clear : List Bytes → List ℕ → List Device → Bool
are_clear seen aids [] = true
are_clear seen aids (d ∷ ds) = is_clear seen aids d && are_clear seen aids ds

abbrev with_aid : Device → List ℕ → List ℕ
with_aid c aids = if ltb 0 c.aid then c.aid ∷ aids else aids

is_clear_more :
    (c d : Device) (seen : List Bytes) (aids : List ℕ)
    → is_clear (key c ∷ seen) (with_aid c aids) d ≡ apart c d && is_clear seen aids d
unfolding apart is_seen
is_clear_more c d seen aids = ground arith

are_clear_more :
    (c : Device) (ds : List Device) (seen : List Bytes) (aids : List ℕ)
    → are_clear (key c ∷ seen) (with_aid c aids) ds ≡ all_apart c ds && are_clear seen aids ds
unfolding are_clear all_apart
are_clear_more c [] seen aids = refl
are_clear_more c (d ∷ ds) seen aids =
    rw (is_clear_more c d seen aids, are_clear_more c ds seen aids)
      (regroup (apart c d) (is_clear seen aids d) (all_apart c ds) (are_clear seen aids ds))
  where
    regroup : (a b x y : Bool) → (a && b) && (x && y) ≡ (a && x) && (b && y)
    regroup a b x y = ground arith

are_clear_start : (ds : List Device) → are_clear [] [] ds ≡ true
unfolding are_clear is_seen
are_clear_start [] = refl
are_clear_start (d ∷ ds) = rw (are_clear_start ds) (ground arith)

device_error_lem :
    (i : ℕ) (seen : List Bytes) (aids : List ℕ) (d : Device)
    → is_some (device_error i seen aids d) ≡ not (is_usable d && is_clear seen aids d)
unfolding device_error is_usable
device_error_lem i seen aids d = ground arith

unless_lem :
    (e : Option ConfigError) (d : Device) (r : Result ConfigError (List Device)) (ns : List Device)
    → (is_ok (unless e (r >>= λ ds. ok (d ∷ ds))) ≡ not (is_some e) && is_ok r)
      × (value_or ns r ≡ ns → value_or (d ∷ ns) (unless e (r >>= λ ds. ok (d ∷ ds))) ≡ d ∷ ns)
unfolding unless
unless_lem (some e) d r ns = (refl, λ h. refl)
unless_lem none d (ok ds) ns = (refl, λ h. ap (λ (l : List Device). d ∷ l) h)
unless_lem none d (err e) ns = (refl, λ h. refl)

validate_loop_lem :
    (numbered : Bytes → ℕ → Bytes) (i : ℕ) (seen : List Bytes) (aids : List ℕ) (ds : List Device)
    → let ns = normal_devices numbered i ds in
      let r = validate_devices numbered i seen aids ds in
      (is_ok r ≡ are_valid ns && are_clear seen aids ns) × (value_or ns r ≡ ns)
unfolding validate_devices normal_devices are_valid are_clear
validate_loop_lem numbered i seen aids [] = (refl, refl)
validate_loop_lem numbered i seen aids (d ∷ ds) =
    let d' = normal_device numbered i d in
    let ns = normal_devices numbered (suc i) ds in
    let r = validate_devices numbered (suc i) (key d' ∷ seen) (with_aid d' aids) ds in
    let (good, same) = validate_loop_lem numbered (suc i) (key d' ∷ seen) (with_aid d' aids) ds in
    let (holds, value) = unless_lem (device_error i seen aids d') d' r ns in
    (
      holds
          ∙ rw (device_error_lem i seen aids d', good, are_clear_more d' ns seen aids)
              (regroup (is_usable d') (is_clear seen aids d') (are_valid ns) (all_apart d' ns)
                (are_clear seen aids ns)),
      value same,
    )
  where
    regroup :
        (u c v a s : Bool) → not (not (u && c)) && (v && (a && s)) ≡ (u && (a && v)) && (c && s)
    regroup u c v a s = ground arith

-- The devices of a configuration are accepted exactly if, once normal, each has an address or a DID, a
-- MAC that is well-formed where there is one, and not the id of the bridge, and if no two share a key or
-- a set id; accepted devices come out normal, in their order.
pub validate_devices_lem :
    (numbered : Bytes → ℕ → Bytes) (ds : List Device)
    → let ns = normal_devices numbered 0 ds in
      let r = validate_devices numbered 0 [] [] ds in
      (is_ok r ≡ are_valid ns) × (value_or ns r ≡ ns)
validate_devices_lem numbered ds =
    let (good, same) = validate_loop_lem numbered 0 [] [] ds in
    (good ∙ rw (are_clear_start (normal_devices numbered 0 ds)) (ground arith), same)
