-- ===== src/Config/Load/Settled.antt =====
-- A configuration that was loaded or created is the one that is loaded from then on.
use mgl03_homekit_bridge.Common.{
  ℕ, ◌⊎◌, ap, ◌≡◌, refl, ◌∙◌, inl, inr, Bool, false, Option, none, some, List, [], Bytes, Result,
  ok, err, eq_bytes, All, Bool-cases, Option-cases, arith,
}
use mgl03_homekit_bridge.Common.Table.{lookup}
use mgl03_homekit_bridge.Files.{Disk, Faults, Codec, Outcome, last_disk, read_file, write_json}
use mgl03_homekit_bridge.Files.Atomic.{line, write_json_lem}
use mgl03_homekit_bridge.Config.Pin.{generate_pin, validate_pin}
use mgl03_homekit_bridge.Config.Pin.Valid.{generate_pin_lem}
use mgl03_homekit_bridge.Config.Validate.{Settings, ConfigError, normalize_and_validate, defaults}
use mgl03_homekit_bridge.Config.Validate.Complete.{normalize_and_validate-defaults}
use mgl03_homekit_bridge.Config.Validate.Usable.{IsUsable, normalize_and_validate-IsUsable}
use mgl03_homekit_bridge.Config.Load.Again.{load_text_lem}
use mgl03_homekit_bridge.Config.Load.{
  checked, wrote, started, load_text, create_with, load_or_create,
}

accepted_cases :
    (r : Result ConfigError Settings)
    → ((c : Settings) × (r ≡ ok c)) ⊎ ((e : ConfigError) × (r ≡ err e))
accepted_cases (ok c) = inl (c, refl)
accepted_cases (err e) = inr (e, refl)

module _ (numbered : Bytes → ℕ → Bytes) (codec : Codec Settings) (dir : Bytes) where
  -- The file of the configuration is there, and loading it gives `cfg`.
  pub record IsSettled (path : Bytes) (cfg : Settings) (d : Disk) : Type 0 where
    pub text : Bytes
    pub there : lookup path d ≡ some text
    pub loads : load_text numbered codec dir text ≡ ok (cfg, false)

  pub load_or_create-settled :
      (f : Faults) (broken : Bool) (temp path : Bytes) (draws : List ℕ) (cfg : Settings) (d : Disk)
      → broken ≡ false
      → IsSettled path cfg d
      → load_or_create numbered codec dir f broken temp path draws d ≡ (ok (cfg, false), [])
  unfolding load_or_create read_file started
  load_or_create-settled f broken temp path draws cfg d can_read h =
      rw (h.there, can_read, h.loads) refl

  pub IsSettled-same :
      (path : Bytes) (cfg : Settings) (d e : Disk)
      → lookup path e ≡ lookup path d
      → IsSettled path cfg d
      → IsSettled path cfg e
  IsSettled-same path cfg d e same h = record {
    text = h.text;
    there = same ∙ h.there;
    loads = h.loads;
  }

  checked_cases :
      (c : Bool) (r : Result ConfigError Settings) {cfg : Settings} {created : Bool}
      → checked c r ≡ ok (cfg, created)
      → (r ≡ ok cfg) × (created ≡ c)
  unfolding checked
  checked_cases c (ok s) h = (cc h, cc h)
  checked_cases c (err e) h = absurd (cc h)

  load_text-accepted :
      (text : Bytes) {cfg : Settings} {created : Bool}
      → load_text numbered codec dir text ≡ ok (cfg, created)
      → (c : Settings) × (normalize_and_validate numbered dir c ≡ ok cfg) × (created ≡ false)
  unfolding load_text
  load_text-accepted text h = elim (Option-cases (codec.decode text)) [
    | inl e ↦ let h' = rw e at h in absurd (cc h')
    | inr (c, e) ↦
        let h' = rw e at h in
        let (accepted, is) = checked_cases false (normalize_and_validate numbered dir c) h' in
        (c, accepted, is)
  ]

  pub IsSettled-IsUsable :
      (path : Bytes) (cfg : Settings) (d : Disk) → IsSettled path cfg d → All IsUsable cfg.devices
  IsSettled-IsUsable path cfg d h =
      let (c, accepted, is) = load_text-accepted h.text h.loads in
      normalize_and_validate-IsUsable numbered dir c cfg accepted

  wrote_cases :
      (c : Settings) (o : Outcome) {cfg : Settings} {created : Bool}
      → (wrote c o).0 ≡ ok (cfg, created)
      → (c ≡ cfg) × (o.1 ≡ none) × ((wrote c o).1 ≡ o.0)
  unfolding wrote
  wrote_cases c (ds, none) h = (cc h, refl, refl)
  wrote_cases c (ds, some e) h = absurd (cc h)

  -- Only a text is written.
  encoded_text :
      (f : Faults) (temp path : Bytes) (encoded : Option Bytes) (d : Disk)
      → (write_json f temp path encoded d).1 ≡ none
      → (text : Bytes) × (encoded ≡ some text)
  unfolding write_json
  encoded_text f temp path (some text) d h = (text, refl)
  encoded_text f temp path none d h = absurd (ground (arith, h))

  create_with-accepted :
      (f : Faults) (temp path pin : Bytes) (cfg : Settings) (created : Bool) (d : Disk)
      → (create_with numbered codec dir f temp path d (some pin)).0 ≡ ok (cfg, created)
      → (c : Settings) × (normalize_and_validate numbered dir c ≡ ok cfg)
  unfolding create_with
  create_with-accepted f temp path pin cfg created d h =
      let start = defaults dir pin in
      let r = normalize_and_validate numbered dir start in
      elim (accepted_cases r) [
        | inl (c, e) ↦
            let o = write_json f temp path (codec.encode c) d in
            let h' : (wrote c o).0 ≡ ok (cfg, created) = rw e at h in
            let (same, works, states) = wrote_cases c o h' in
            (start, e ∙ ap (λ (x : Settings). ok x) same)
        | inr (x, e) ↦ let h' = rw e at h in absurd (cc h')
      ]

  -- A default configuration that is created is there.
  create_with-IsSettled :
      (f : Faults) (temp path pin : Bytes) (cfg : Settings) (created : Bool) (d : Disk)
      → eq_bytes temp path ≡ false
      → lookup temp d ≡ none
      → validate_pin pin ≡ none
      → ((text : Bytes)
          → codec.encode (defaults dir pin) ≡ some text
          → codec.decode (line text) ≡ some (defaults dir pin))
      → let l = create_with numbered codec dir f temp path d (some pin) in
        l.0 ≡ ok (cfg, created) → IsSettled path cfg (last_disk d l.1)
  unfolding create_with
  create_with-IsSettled f temp path pin cfg created d other fresh valid trip h =
      let start = defaults dir pin in
      let o = write_json f temp path (codec.encode start) d in
      let accepted = normalize_and_validate-defaults numbered dir pin valid in
      let h' : (wrote start o).0 ≡ ok (cfg, created) = rw accepted at h in
      let (same, works, states) = wrote_cases start o h' in
      let (text, e) = encoded_text f temp path (codec.encode start) d works in
      let (each, found, gone) = write_json_lem f temp path text d other fresh in
      let works' = rw e at works in
      let loaded = load_text_lem numbered codec dir pin (line text) valid (trip text e) in
      record {
        text = line text;
        there = rw (accepted, states, e) (found ∙ rw works' refl);
        loads = rw (← same) loaded;
      }

  pub load_or_create-IsSettled :
      (f : Faults) (broken : Bool) (temp path : Bytes) (draws : List ℕ) (cfg : Settings)
      (created : Bool) (d : Disk)
      → eq_bytes temp path ≡ false
      → lookup temp d ≡ none
      → ((pin text : Bytes)
          → validate_pin pin ≡ none
          → codec.encode (defaults dir pin) ≡ some text
          → codec.decode (line text) ≡ some (defaults dir pin))
      → let l = load_or_create numbered codec dir f broken temp path draws d in
        l.0 ≡ ok (cfg, created) → IsSettled path cfg (last_disk d l.1)
  unfolding load_or_create read_file started
  load_or_create-IsSettled f broken temp path draws cfg created d other fresh trip h =
      let (returns, valid) = generate_pin_lem draws in
      elim (Option-cases (lookup path d)) [
        | inr (text, e) ↦ elim (Bool-cases broken) [
          | inl hidden ↦ let h' = rw (e, hidden) at h in absurd (cc h')
          | inr can_read ↦
              let h' : load_text numbered codec dir text ≡ ok (cfg, created) =
                rw (e, can_read) at h in
              let (c, accepted, is) = load_text-accepted text h' in
              rw (e, can_read) (record { text = text; there = e; loads = rw is at h' })
        ]
        | inl absent ↦ elim (Option-cases (generate_pin draws)) [
          | inl none_drawn ↦
              let h' = rw (absent, none_drawn) at h in absurd (unfold create_with in cc h')
          | inr (pin, drawn) ↦
              let h' : (create_with numbered codec dir f temp path d (some pin)).0
                  ≡ ok (cfg, created) =
                rw (absent, drawn) at h in
              let good : validate_pin pin ≡ none = rw drawn at valid in
              rw (absent, drawn)
                (create_with-IsSettled f temp path pin cfg created d other fresh good
                  (λ text. trip pin text good) h')
        ]
      ]

  -- What is loaded or created was accepted.
  pub load_or_create-accepted :
      (f : Faults) (broken : Bool) (temp path : Bytes) (draws : List ℕ) (cfg : Settings)
      (created : Bool) (d : Disk)
      → (load_or_create numbered codec dir f broken temp path draws d).0 ≡ ok (cfg, created)
      → (c : Settings) × (normalize_and_validate numbered dir c ≡ ok cfg)
  unfolding load_or_create read_file started
  load_or_create-accepted f broken temp path draws cfg created d h =
      elim (Option-cases (lookup path d)) [
        | inr (text, e) ↦ elim (Bool-cases broken) [
          | inl hidden ↦ let h' = rw (e, hidden) at h in absurd (cc h')
          | inr can_read ↦
              let h' : load_text numbered codec dir text ≡ ok (cfg, created) =
                rw (e, can_read) at h in
              let (c, accepted, is) = load_text-accepted text h' in (c, accepted)
        ]
        | inl absent ↦ elim (Option-cases (generate_pin draws)) [
          | inl none_drawn ↦
              let h' = rw (absent, none_drawn) at h in absurd (unfold create_with in cc h')
          | inr (pin, drawn) ↦
              let h' : (create_with numbered codec dir f temp path d (some pin)).0
                  ≡ ok (cfg, created) =
                rw (absent, drawn) at h in
              create_with-accepted f temp path pin cfg created d h'
        ]
      ]
