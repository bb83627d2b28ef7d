-- ===== src/Config/Load/Again.antt =====
-- The configuration that the first start creates is the one that the next start loads.
use mgl03_homekit_bridge.Common.{
  ℕ, ◌≡◌, refl, inl, inr, true, false, none, some, List, [], Bytes, ok, eq_bytes, Option-cases,
}
use mgl03_homekit_bridge.Common.Table.{lookup}
use mgl03_homekit_bridge.Files.{Disk, Faults, Codec, Outcome, last_disk, read_file, write_json}
use mgl03_homekit_bridge.Files.Atomic.{line}
use mgl03_homekit_bridge.Files.Calm.{IsCalm, write_json_calm, lookup-write_json}
use mgl03_homekit_bridge.Config.Pin.{generate_pin, validate_pin}
use mgl03_homekit_bridge.Config.Pin.Valid.{has_usable, generate_pin_lem}
use mgl03_homekit_bridge.Config.Validate.{Settings, defaults}
use mgl03_homekit_bridge.Config.Validate.Complete.{normalize_and_validate-defaults}
use mgl03_homekit_bridge.Config.Load.{checked, wrote, load_text, create_with, load_or_create}

wrote_lem : (c : Settings) (o : Outcome) → o.1 ≡ none → wrote c o ≡ (ok (c, true), o.0)
unfolding wrote
wrote_lem c (ds, none) e = refl
wrote_lem c (ds, some x) e = cc

module _ (numbered : Bytes → ℕ → Bytes) (codec : Codec Settings) (dir : Bytes) where
  create_with_lem :
      (f : Faults) (temp path pin text : Bytes) (d : Disk)
      → IsCalm f
      → validate_pin pin ≡ none
      → codec.encode (defaults dir pin) ≡ some text
      → create_with numbered codec dir f temp path d (some pin)
        ≡ (ok (defaults dir pin, true), (write_json f temp path (some text) d).0)
  unfolding create_with
  create_with_lem f temp path pin text d calm valid e =
      rw (normalize_and_validate-defaults numbered dir pin valid, e)
        (wrote_lem (defaults dir pin) (write_json f temp path (some text) d)
          (write_json_calm f temp path text d calm))

  pub load_text_lem :
      (pin s : Bytes)
      → validate_pin pin ≡ none
      → codec.decode s ≡ some (defaults dir pin)
      → load_text numbered codec dir s ≡ ok (defaults dir pin, false)
  unfolding load_text checked
  load_text_lem pin s valid e = rw (e, normalize_and_validate-defaults numbered dir pin valid) refl

  -- Without a file, when the random source draws a usable number and nothing fails: the first start creates
  -- the default configuration with a valid pairing code, and the next start loads the same configuration,
  -- whatever the random source draws then. Encoding gives a text that decodes to what was encoded.
  pub load_or_create_again :
      (f g : Faults) (temp path : Bytes) (draws draws' : List ℕ) (d : Disk)
      → eq_bytes temp path ≡ false
      → lookup temp d ≡ none
      → lookup path d ≡ none
      → IsCalm f
      → has_usable draws ≡ true
      → ((pin : Bytes)
          → validate_pin pin ≡ none
          → (text : Bytes) × (codec.encode (defaults dir pin) ≡ some text)
            × (codec.decode (line text) ≡ some (defaults dir pin)))
      → let first = load_or_create numbered codec dir f false temp path draws d in
        let later = last_disk d first.1 in
        let second = load_or_create numbered codec dir g false temp path draws' later in
        (pin : Bytes) × (validate_pin pin ≡ none)
        × (first.0 ≡ ok (defaults dir pin, true))
        × (second ≡ (ok (defaults dir pin, false), []))
  unfolding load_or_create read_file
  load_or_create_again f g temp path draws draws' d other fresh absent calm usable trip =
      let (returns, valid) = generate_pin_lem draws in
      elim (Option-cases (generate_pin draws)) [
        | inl e ↦ absurd (cc (e, returns, usable))
        | inr (pin, e) ↦
            let good : validate_pin pin ≡ none = rw e at valid in
            let (text, encoded, decoded) = trip pin good in
            let made = create_with_lem f temp path pin text d calm good encoded in
            let found = lookup-write_json f temp path text d other fresh calm in
            (
              pin,
              good,
              rw (absent, e, made) refl,
              rw (absent, e, made, found, load_text_lem pin (line text) good decoded) refl,
            )
      ]
