-- ===== src/App/Discover/Sound.antt =====
-- The devices that discovery makes: supported ones, each with an accessory id of its own.
use mgl03_homekit_bridge.Common.{
  ℕ, suc, ◌+◌, ◌≤◌, ◌<◌, ◌≡◌, ◌⊎◌, refl, ◌∙◌, inl, inr, sym, to_lower, equal_fold, Bytes, Bool,
  true, false, List, [], ◌∷◌, ◌++◌, Bytes, is_empty, codes, eq_bytes, is_some, length,
  length-append, arith, All, All-append, Bool-cases,
}
use mgl03_homekit_bridge.Common.Int.{ℤ}
use mgl03_homekit_bridge.Config.Device.{Device}
use mgl03_homekit_bridge.Openmiio.Types.{Update}
use mgl03_homekit_bridge.Openmiio.Dedup.{Deduplicator, accept}
use mgl03_homekit_bridge.App.Aids.{last_id}
use mgl03_homekit_bridge.App.Merge.{
  Seen, seen_in, note_device, note_devices, is_duplicate, device_key, is_match, find_device,
}
use mgl03_homekit_bridge.App.Merge.Fresh.{has_same, is_duplicate-note_devices}
use mgl03_homekit_bridge.App.Merge.Again.{IsFixed, IsFixed-same}
use mgl03_homekit_bridge.App.Prepare.Again.{prepare_loop-AreSame}
use mgl03_homekit_bridge.App.Prepare.Settled.{IsNamed, prepare_loop-IsNamed}
use mgl03_homekit_bridge.App.Discover.Found.{is_found, find_device-is_found}
use mgl03_homekit_bridge.App.Prepare.{prepare_loop, prepare_devices, append_device_with_aid}
use mgl03_homekit_bridge.App.Prepare.Assigned.{IsAssigned, prepare_devices-IsAssigned}
use mgl03_homekit_bridge.App.Prepare.Supported.{IsSupported, prepare_loop-IsSupported}
use mgl03_homekit_bridge.App.Prepare.Kept.{length-prepare_loop}
use mgl03_homekit_bridge.App.Updates.{supported_discovery_update, device_from_update}
use mgl03_homekit_bridge.App.Discover.{
  Discovery, Event, cancelled, window_over, report, enroll, on_report, on_event, discover_loop,
  discover_devices,
}

is_empty-to_lower : (s : Bytes) → is_empty (to_lower s) ≡ is_empty s
unfolding to_lower
is_empty-to_lower [] = refl
is_empty-to_lower (c ∷ s) = refl

-- Nothing is in the maps of a merge.
abbrev pub nothing_seen : Seen
nothing_seen = record { macs = []; dids = [] }

-- After at most `k` reports.
pub record IsSound (k : ℕ) (ds : List Device) : Type 0 where
  pub few : length ds ≤ k
  pub assigned : IsAssigned [] ds
  pub supported : All IsSupported ds
  pub named : All IsNamed ds
  pub fixed : IsFixed nothing_seen ds

no_devices : IsSound 0 []
no_devices = record { few = omega arith; assigned = tt; supported = tt; named = tt; fixed = tt }

IsSound-more : (k : ℕ) (ds : List Device) → IsSound k ds → IsSound (suc k) ds
IsSound-more k ds s = record {
  few = omega (arith, s.few);
  assigned = s.assigned;
  supported = s.supported;
  named = s.named;
  fixed = s.fixed;
}

-- A new device may come last.
IsFixed-append :
    (ds : List Device) (d : Device) (seen : Seen)
    → IsFixed seen ds
    → is_empty (device_key d) ≡ false
    → is_duplicate d (note_devices ds seen) ≡ false
    → IsFixed seen (ds ++ (d ∷ []))
unfolding note_devices
IsFixed-append [] d seen h keyed new = (new, keyed, tt)
IsFixed-append (e ∷ ds) d seen (e_new, e_keyed, h) keyed new =
    (e_new, e_keyed, IsFixed-append ds d (note_device e seen) h keyed new)

append_device-IsSound :
    (k : ℕ) (ds : List Device) (d : Device)
    → suc k < last_id
    → IsSupported d
    → is_empty (device_key d) ≡ false
    → has_same d ds ≡ false
    → IsSound k ds
    → IsSound (suc k) (append_device_with_aid ds d)
unfolding append_device_with_aid
append_device-IsSound k ds d room h keyed new s =
    let size = length-append ds (d ∷ []) in
    record {
      few =
          unfold prepare_devices in
          omega (arith, length-prepare_loop (ds ++ (d ∷ [])) [], size, s.few);
      assigned = prepare_devices-IsAssigned (ds ++ (d ∷ [])) (omega (arith, size, s.few));
      supported =
          unfold prepare_devices in
          prepare_loop-IsSupported [] (ds ++ (d ∷ []))
            (All-append IsSupported ds (d ∷ []) s.supported (h, tt));
      named = unfold prepare_devices in prepare_loop-IsNamed (ds ++ (d ∷ [])) [];
      fixed =
          unfold prepare_devices in
          IsFixed-same (ds ++ (d ∷ [])) (prepare_loop [] (ds ++ (d ∷ []))).0 nothing_seen
            (prepare_loop-AreSame (ds ++ (d ∷ [])) [])
            (IsFixed-append ds d nothing_seen s.fixed keyed (
              is_duplicate-note_devices ds d nothing_seen
              ∙ rw new (unfold is_duplicate seen_in in ground arith)));
    }

module _ (numbered : Bytes → ℕ → Bytes) where
  -- A report leaves the devices, or it is of a supported one that joins them.
  pub on_report-devices :
      (first : Bool) (now : ℤ) (u : Update) (s : Discovery)
      → let ds = (on_report numbered first now u s).0.devices in
        (ds ≡ s.devices)
        ⊎ ((supported_discovery_update u ≡ true)
            × (is_some (find_device s.devices u) ≡ false)
            × (ds
                ≡ append_device_with_aid s.devices
                    (device_from_update numbered u (length s.devices + 1))))
  unfolding on_report enroll
  on_report-devices first now u s = elim (Bool-cases (supported_discovery_update u)) [
    | inr other ↦ inl (rw other refl)
    | inl supported ↦ elim (Bool-cases (accept s.deduplicator now u).1) [
      | inr old ↦ inl (rw (supported, old) refl)
      | inl fresh ↦ elim (Bool-cases (is_some (find_device s.devices u))) [
        | inl known ↦ inl (rw (supported, fresh, known) refl)
        | inr new ↦ inr (supported, new, rw (supported, fresh, new) (ground arith))
      ]
    ]
  ]

  from_update :
      (u : Update) (i : ℕ)
      → supported_discovery_update u ≡ true
      → IsSupported (device_from_update numbered u i)
        × (is_empty (device_key (device_from_update numbered u i)) ≡ false)
  unfolding device_from_update supported_discovery_update device_key
  from_update u i h = (ground arith, ground (arith, is_empty-to_lower u.mac))

  -- The new device is like those that would take its report.
  has_same-from_update :
      (u : Update) (i : ℕ) (ds : List Device)
      → has_same (device_from_update numbered u i) ds ≡ is_found u ds
  unfolding device_from_update is_found is_match equal_fold
  has_same-from_update u i [] = refl
  has_same-from_update u i (d ∷ ds) = ground (arith, has_same-from_update u i ds)

  on_event-IsSound :
      (k : ℕ) (first : Bool) (e : Event) (s : Discovery)
      → suc k < last_id
      → IsSound k s.devices
      → IsSound (suc k) (on_event numbered first e s).0.devices
  unfolding on_event
  on_event-IsSound k first cancelled s room h = IsSound-more k s.devices h
  on_event-IsSound k first window_over s room h = IsSound-more k s.devices h
  on_event-IsSound k first (report now u) s room h = elim (on_report-devices first now u s) [
    | inl same ↦ rw same (IsSound-more k s.devices h)
    | inr (supported, new, joined) ↦
        let d = device_from_update numbered u (length s.devices + 1) in
        let (known, keyed) = from_update u (length s.devices + 1) supported in
        let unlike =
          has_same-from_update u (length s.devices + 1) s.devices
          ∙ sym (find_device-is_found u s.devices)
          ∙ new in
        rw joined (append_device-IsSound k s.devices d room known keyed unlike h)
  ]

  -- So after any events, of which there are not too many.
  pub discover_loop-IsSound :
      (k : ℕ) (first : Bool) (es : List Event) (s : Discovery)
      → k + length es < last_id
      → IsSound k s.devices
      → IsSound (k + length es) (discover_loop numbered first es s).devices
  unfolding discover_loop
  discover_loop-IsSound k first [] s room h = record {
    few = omega (arith, h.few);
    assigned = h.assigned;
    supported = h.supported;
    named = h.named;
    fixed = h.fixed;
  }
  discover_loop-IsSound k first (e ∷ es) s room h =
      let next = on_event-IsSound k first e s (omega arith) h in
      elim (Bool-cases (on_event numbered first e s).1) [
        | inl done ↦ rw done (record {
          few = omega (arith, next.few);
          assigned = next.assigned;
          supported = next.supported;
          named = next.named;
          fixed = next.fixed;
        })
        | inr goes ↦
            let later =
              discover_loop-IsSound (suc k) first es (on_event numbered first e s).0 (omega arith)
                next in
            rw goes (record {
              few = omega (arith, later.few);
              assigned = later.assigned;
              supported = later.supported;
              named = later.named;
              fixed = later.fixed;
            })
      ]

  -- So is what discovery returns where no device is there yet.
  pub discover_devices-IsSound :
      (mode : Bytes) (f : Deduplicator) (es : List Event)
      → length es < last_id
      → IsSound (length es) (discover_devices numbered mode f [] es).devices
  unfolding discover_devices
  discover_devices-IsSound mode f es room = elim (Bool-cases (eq_bytes mode (codes "manual"))) [
    | inl manual ↦
        rw manual
          (record { few = omega arith; assigned = tt; supported = tt; named = tt; fixed = tt })
    | inr other ↦
        let start : Discovery = record {
          devices = [];
          initial = [];
          deduplicator = f;
          discovered = false;
          collecting = false;
        } in
        let sound =
          discover_loop-IsSound 0 (eq_bytes mode (codes "first")) es start (omega arith)
            no_devices in
        rw other (record {
          few = omega (arith, sound.few);
          assigned = sound.assigned;
          supported = sound.supported;
          named = sound.named;
          fixed = sound.fixed;
        })
  ]
