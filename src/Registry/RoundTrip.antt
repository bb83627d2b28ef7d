-- ===== src/Registry/RoundTrip.antt =====
-- What is saved is loaded again.
use mgl03_homekit_bridge.Common.{
  ◌⊎◌, Option-cases, Bool, Result, err, ◌≡◌, refl, ap, ap₂, ◌∙◌, inl, inr, false, none, some, List,
  [], ◌∷◌, Bytes, ok, map, eq_bytes, is_some, if◌then◌else◌, Bool-cases,
}
use mgl03_homekit_bridge.Common.Table.{lookup}
use mgl03_homekit_bridge.Files.{
  Disk, Faults, Codec, ReadFile, missing, unreadable, content, read_file, write_json, disk_after,
}
use mgl03_homekit_bridge.Files.Atomic.{line, write_json_lem}
use mgl03_homekit_bridge.Config.Device.{Device}
use mgl03_homekit_bridge.Config.Mac.Normal.{normalize_mac_idem}
use mgl03_homekit_bridge.Registry.{
  RegistryError, read_failed, decode_failed, loaded, decoded, with_normal_mac, load_registry,
  save_registry,
}

-- Loading depends only on what the file holds.
load_registry_cong :
    (codec : Codec (List Device)) (path : Bytes) (d d' : Disk)
    → lookup path d ≡ lookup path d'
    → load_registry codec false path d ≡ load_registry codec false path d'
unfolding load_registry read_file
load_registry_cong codec path d d' e = rw e refl

load_registry_text :
    (codec : Codec (List Device)) (path s : Bytes) (ds : List Device) (d : Disk)
    → lookup path d ≡ some s
    → codec.decode s ≡ some ds
    → load_registry codec false path d ≡ ok (map with_normal_mac ds)
unfolding load_registry read_file
load_registry_text codec path s ds d e decoded = rw (e, decoded) refl

-- What Load gives is an error or a list whose MACs were made normal.
abbrev pub IsLoaded : Result RegistryError (List Device) → Type 0
IsLoaded r =
    ((e : RegistryError) × (r ≡ err e)) ⊎ ((ds : List Device) × (r ≡ ok (map with_normal_mac ds)))

loaded-IsLoaded : (codec : Codec (List Device)) (r : ReadFile) → IsLoaded (loaded codec r)
unfolding loaded decoded
loaded-IsLoaded codec missing = inr ([], refl)
loaded-IsLoaded codec unreadable = inl (read_failed, refl)
loaded-IsLoaded codec (content s) = elim (Option-cases (codec.decode s)) [
  | inl e ↦ inl (decode_failed, rw e refl)
  | inr (ds, e) ↦ inr (ds, rw e refl)
]

pub load_registry-IsLoaded :
    (codec : Codec (List Device)) (broken : Bool) (path : Bytes) (d : Disk)
    → IsLoaded (load_registry codec broken path d)
unfolding load_registry
load_registry-IsLoaded codec broken path d = loaded-IsLoaded codec (read_file broken path d)

with_normal_mac_idem :
    (ds : List Device) → map with_normal_mac (map with_normal_mac ds) ≡ map with_normal_mac ds
unfolding with_normal_mac
with_normal_mac_idem [] = refl
with_normal_mac_idem (d ∷ ds) =
    ap₂ ◌∷◌ (ap (λ (m : Bytes). record d { mac = m }) (normalize_mac_idem d.mac))
      (with_normal_mac_idem ds)

-- Devices with normal MACs, as Load gives them, encode to a text that, with the newline that Save adds,
-- decodes to the same devices; the temporary file's name is another one than the registry's, and no file
-- has it yet. Then, whatever of the writing fails: the next Load gives these devices if Save returned no
-- error, and what it would have given before if Save returned one.
pub load_registry-save_registry :
    (codec : Codec (List Device)) (f : Faults) (temp path text : Bytes) (ds : List Device)
    (d : Disk)
    → eq_bytes temp path ≡ false
    → lookup temp d ≡ none
    → codec.encode (map with_normal_mac ds) ≡ some text
    → codec.decode (line text) ≡ some (map with_normal_mac ds)
    → let saved = map with_normal_mac ds in
      let o = save_registry codec f temp path saved d in
      load_registry codec false path (disk_after d o)
      ≡ (if is_some o.1 then load_registry codec false path d else ok saved)
unfolding save_registry
load_registry-save_registry codec f temp path text ds d other fresh encodes decodes =
    let o = write_json f temp path (some text) d in
    let (each, found, gone) = write_json_lem f temp path text d other fresh in
    rw encodes (elim (Bool-cases (is_some o.1)) [
      | inl failed ↦
          rw failed (load_registry_cong codec path (disk_after d o) d (found ∙ rw failed refl))
      | inr done ↦ rw done (
          load_registry_text codec path (line text) (map with_normal_mac ds) (disk_after d o)
            (found ∙ rw done refl) decodes
          ∙ ap ok (with_normal_mac_idem ds))
    ])
