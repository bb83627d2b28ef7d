-- ===== src/Measurements/File/Stored.antt =====
-- The keys of the measurements are such that Load does not change them, and Merge keeps it so.
use mgl03_homekit_bridge.Common.{
  ◌≡◌, refl, ap, ◌∙◌, ◌⊎◌, inl, inr, true, false, ◌||◌, none, [], ◌∷◌, ◌++◌, Bytes, eq_bytes,
  eq_bytes_iff, is_empty, take, trim_space, trim_space_idem, arith, Bool-cases, Option-cases,
}
use mgl03_homekit_bridge.Common.Int.{ℤ}
use mgl03_homekit_bridge.Common.Table.{lookup, insert, delete, lookup-insert, lookup-delete}
use mgl03_homekit_bridge.Config.Mac.{normalize_mac, is_mac, mac_groups}
use mgl03_homekit_bridge.Config.Mac.Normal.{hex_count, is_mac-normalize_mac, normalize_mac_idem}
use mgl03_homekit_bridge.Openmiio.Types.{FloatOps, Update}
use mgl03_homekit_bridge.Measurements.State.{
  Reading, Devices, did_prefix, identity, normalize_key, merge_start, merge, load_devices, or_else,
  merge_reading, reading_changes,
}

-- Each key is normal and stands for one entry.
abbrev pub IsStored : Devices → Type 0
IsStored [] = Unit
IsStored ((k, r) ∷ ds) = (normalize_key k ≡ k) × (lookup k ds ≡ none) × IsStored ds

is_mac_not_did : (s : Bytes) → is_mac s ≡ true → eq_bytes (take 4 s) did_prefix ≡ false
unfolding is_mac mac_groups eq_bytes
is_mac_not_did [] h = refl
is_mac_not_did (a ∷ []) h = cc
is_mac_not_did (a ∷ b ∷ []) h = cc
is_mac_not_did (a ∷ b ∷ c ∷ s) h = ground arith

-- The MAC of an update is empty or has twelve digits.
abbrev pub HasPlainMac : Update → Type 0
HasPlainMac u = (is_empty (normalize_mac u.mac) ≡ true) ⊎ (hex_count u.mac ≡ 12)

normalize_key-did :
    (s : Bytes) → normalize_key (did_prefix ++ trim_space s) ≡ did_prefix ++ trim_space s
unfolding normalize_key eq_bytes
normalize_key-did s = ap (λ (t : Bytes). did_prefix ++ t) (trim_space_idem s)

normalize_key-mac :
    (s : Bytes) → hex_count s ≡ 12 → normalize_key (normalize_mac s) ≡ normalize_mac s
unfolding normalize_key
normalize_key-mac s h =
    rw (is_mac_not_did (normalize_mac s) ((is_mac-normalize_mac s).1 h)) (normalize_mac_idem s)

pub normalize_key-identity :
    (u : Update)
    → HasPlainMac u
    → is_empty (identity u.mac u.did) ≡ false
    → normalize_key (identity u.mac u.did) ≡ identity u.mac u.did
unfolding identity
normalize_key-identity u (inl e) h = ground (arith, normalize_key-did u.did)
normalize_key-identity u (inr e) h =
    ground (arith, normalize_key-did u.did, normalize_key-mac u.mac e)

IsStored-insert :
    (k : Bytes) (r : Reading) (ds : Devices)
    → normalize_key k ≡ k
    → IsStored ds
    → IsStored (insert k r ds)
unfolding insert lookup
IsStored-insert k r [] n h = (n, refl, tt)
IsStored-insert k r ((j, v) ∷ ds) n (nj, fresh, h) = elim (Bool-cases (eq_bytes j k)) [
  | inl same ↦ let e = (eq_bytes_iff j k).0 same in rw same (n, rw (← e) fresh, h)
  | inr other ↦ rw other (
    nj,
    lookup-insert j k r ds ∙ ground (arith, eq_bytes_iff j k, eq_bytes_iff k j),
    IsStored-insert k r ds n h,
  )
]

IsStored-delete : (k : Bytes) (ds : Devices) → IsStored ds → IsStored (delete k ds)
unfolding delete lookup
IsStored-delete k [] h = tt
IsStored-delete k ((j, v) ∷ ds) (nj, fresh, h) = elim (Bool-cases (eq_bytes j k)) [
  | inl same ↦ rw same (IsStored-delete k ds h)
  | inr other ↦ rw other (nj, lookup-delete j k ds ∙ ground arith, IsStored-delete k ds h)
]

module _ (fl : FloatOps) where
  merge_start-IsStored :
      (u : Update) (key : Bytes) (ds : Devices)
      → IsStored ds
      → IsStored (merge_start u key ds).devices
  unfolding merge_start
  merge_start-IsStored u key ds h = elim (Option-cases (lookup key ds)) [
    | inr (r, e) ↦ rw e h
    | inl e ↦ rw e (elim (Bool-cases (is_empty u.did)) [
      | inl no_did ↦ rw no_did h
      | inr has_did ↦ rw has_did (elim (Option-cases (lookup (did_prefix ++ trim_space u.did) ds)) [
        | inl none_there ↦ rw none_there h
        | inr (r, there) ↦ rw there (IsStored-delete (did_prefix ++ trim_space u.did) ds h)
      ])
    ])
  ]

  -- Merge keeps every key normal and single, for updates whose MAC, where there is one, has twelve
  -- hexadecimal digits.
  pub merge-IsStored :
      (u : Update) (unix : ℤ) (ds : Devices)
      → HasPlainMac u
      → IsStored ds
      → IsStored (merge fl u unix ds).0
  unfolding merge
  merge-IsStored u unix ds plain h =
      let key = identity u.mac u.did in
      let start = merge_start u key ds in
      let kept = merge_start-IsStored u key ds h in
      elim (Bool-cases (is_empty key)) [
        | inl no_key ↦ rw no_key h
        | inr keyed ↦
            rw keyed (elim (Bool-cases (start.moved || reading_changes fl start.reading u)) [
              | inr same ↦ rw same kept
              | inl new ↦ rw new (
                  IsStored-insert key (merge_reading fl start.reading u unix) start.devices
                    (normalize_key-identity u plain keyed) kept)
            ])
      ]

-- Load finds again what each key stands for, or else what was there before.
load_devices_over :
    (j : Bytes) (es ds : Devices)
    → IsStored es
    → lookup j (load_devices es ds) ≡ or_else (lookup j es) (lookup j ds)
unfolding load_devices
load_devices_over j [] ds h = unfold lookup or_else in refl
load_devices_over j ((k, r) ∷ es) ds (n, fresh, h) =
    rw (n, load_devices_over j es (insert k r ds) h, lookup-insert j k r ds)
      (elim (Bool-cases (eq_bytes k j)) [
        | inl same ↦
            let e = (eq_bytes_iff k j).0 same in
            let gone : lookup j es ≡ none = rw (← e) fresh in
            unfold lookup or_else in rw (same, gone) refl
        | inr other ↦ unfold lookup in rw other refl
      ])

pub lookup-load_devices :
    (j : Bytes) (es : Devices) → IsStored es → lookup j (load_devices es []) ≡ lookup j es
lookup-load_devices j es h = load_devices_over j es [] h ∙ elim (Option-cases (lookup j es)) [
  | inl e ↦ unfold lookup or_else in rw e refl
  | inr (r, e) ↦ unfold or_else in rw e refl
]
