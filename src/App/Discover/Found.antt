-- ===== src/App/Discover/Found.antt =====
-- What discovery finds.
use mgl03_homekit_bridge.Common.{
  sym, ltb, codes, ℕ, ◌+◌, ◌≡◌, refl, ap, ◌∙◌, inl, inr, Bool, true, false, ◌||◌, List, [], ◌∷◌,
  ◌++◌, Bytes, eq_bytes, eq_bytes_refl, is_some, length, to_lower, equal_fold, arith, All-map,
  Bool-cases,
}
use mgl03_homekit_bridge.Common.Int.{ℤ}
use mgl03_homekit_bridge.Common.Table.{insert}
use mgl03_homekit_bridge.Config.Device.{Device}
use mgl03_homekit_bridge.Openmiio.Types.{Update}
use mgl03_homekit_bridge.Openmiio.Dedup.{Deduplicator, accept}
use mgl03_homekit_bridge.App.Merge.{is_match, find_device, update_identity}
use mgl03_homekit_bridge.App.Prepare.{
  prepare_loop, prepare_device, prepare_devices, append_device_with_aid,
}
use mgl03_homekit_bridge.App.Prepare.Kept.{identity-prepare_device}
use mgl03_homekit_bridge.App.Updates.{supported_discovery_update, device_from_update}
use mgl03_homekit_bridge.App.Updates.Replay.{HasTakers}
use mgl03_homekit_bridge.App.Discover.{
  Discovery, Event, cancelled, window_over, report, enroll, on_report, on_event, discover_loop,
  discover_devices,
}

-- Preparing a device changes neither its MAC nor its DID, and so not the reports that it takes.
is_match-prepare_device :
    (u : Update) (used : List ℕ) (d : Device) → is_match u (prepare_device used d).0 ≡ is_match u d
unfolding is_match
is_match-prepare_device u used d =
    let same = identity-prepare_device used d in
    rw (ap (λ (i : Bytes × Bytes × Bytes). i.1) same, ap (λ (i : Bytes × Bytes × Bytes). i.2) same)
      refl

unfoldable pub is_found : Update → List Device → Bool
is_found u [] = false
is_found u (d ∷ ds) = is_match u d || is_found u ds

pub find_device-is_found :
    (u : Update) (ds : List Device) → is_some (find_device ds u) ≡ is_found u ds
unfolding find_device is_found
find_device-is_found u [] = refl
find_device-is_found u (d ∷ ds) = ground (arith, find_device-is_found u ds)

is_found-prepare_loop :
    (u : Update) (ds : List Device) (used : List ℕ)
    → is_found u (prepare_loop used ds).0 ≡ is_found u ds
unfolding prepare_loop is_found
is_found-prepare_loop u [] used = refl
is_found-prepare_loop u (d ∷ ds) used =
    rw
      (
        is_match-prepare_device u used d,
        is_found-prepare_loop u ds ((prepare_device used d).0.aid ∷ used),
      )
      refl

is_found-append :
    (u : Update) (xs ys : List Device) → is_found u (xs ++ ys) ≡ is_found u xs || is_found u ys
unfolding is_found
is_found-append u [] ys = refl
is_found-append u (x ∷ xs) ys = ground (arith, is_found-append u xs ys)

is_found-append_device :
    (u : Update) (ds : List Device) (d : Device)
    → is_found u (append_device_with_aid ds d) ≡ is_found u ds || is_match u d
unfolding append_device_with_aid prepare_devices
is_found-append_device u ds d =
    is_found-prepare_loop u (ds ++ (d ∷ [])) []
    ∙ is_found-append u ds (d ∷ [])
    ∙ unfold is_found in ground arith

module _ (numbered : Bytes → ℕ → Bytes) where
  is_match_own :
      (u : Update) (i : ℕ)
      → supported_discovery_update u ≡ true
      → is_match u (device_from_update numbered u i) ≡ true
  unfolding is_match device_from_update supported_discovery_update equal_fold
  is_match_own u i h = ground (arith, eq_bytes_refl (to_lower u.mac))

HasTakers-insert :
    (ds : List Device) (k : Bytes) (u : Update) (kept : List (Bytes × Update))
    → is_some (find_device ds u) ≡ true
    → HasTakers ds kept
    → HasTakers ds (insert k u kept)
unfolding insert
HasTakers-insert ds k u [] h hs = (h, tt)
HasTakers-insert ds k u ((j, v) ∷ kept) h (hv, hs) = elim (Bool-cases (eq_bytes j k)) [
  | inl same ↦ rw same (h, hs)
  | inr other ↦ rw other (hv, HasTakers-insert ds k u kept h hs)
]

taken_more :
    (u : Update) (ds : List Device) (d : Device)
    → is_some (find_device ds u) ≡ true
    → is_some (find_device (append_device_with_aid ds d) u) ≡ true
taken_more u ds d h =
    find_device-is_found u (append_device_with_aid ds d)
    ∙ is_found-append_device u ds d
    ∙ rw (sym (find_device-is_found u ds) ∙ h) refl

module _ (numbered : Bytes → ℕ → Bytes) where
  taken_own :
      (u : Update) (ds : List Device) (i : ℕ)
      → supported_discovery_update u ≡ true
      → is_some (find_device (append_device_with_aid ds (device_from_update numbered u i)) u) ≡ true
  taken_own u ds i h =
      let d = device_from_update numbered u i in
      find_device-is_found u (append_device_with_aid ds d)
      ∙ is_found-append_device u ds d
      ∙ rw (is_match_own numbered u i h) (ground arith)

  enroll-HasTakers :
      (u : Update) (k : Bytes) (s : Discovery)
      → supported_discovery_update u ≡ true
      → HasTakers s.devices s.initial
      → HasTakers
          (enroll numbered u (record s { initial = insert k u s.initial })).devices
          (insert k u s.initial)
  unfolding enroll
  enroll-HasTakers u k s h hs =
      let d = device_from_update numbered u (length s.devices + 1) in
      HasTakers-insert (append_device_with_aid s.devices d) k u s.initial
        (taken_own u s.devices (length s.devices + 1) h)
        (All-map (λ e t. taken_more e.1 s.devices d t) s.initial hs)

  on_report-HasTakers :
      (first : Bool) (now : ℤ) (u : Update) (s : Discovery)
      → HasTakers s.devices s.initial
      → HasTakers
          (on_report numbered first now u s).0.devices
          (on_report numbered first now u s).0.initial
  unfolding on_report
  on_report-HasTakers first now u s hs = elim (Bool-cases (supported_discovery_update u)) [
    | inr other ↦ rw other hs
    | inl supported ↦ rw supported (elim (Bool-cases (accept s.deduplicator now u).1) [
      | inr old ↦ rw old hs
      | inl fresh ↦ rw fresh (elim (Bool-cases (is_some (find_device s.devices u))) [
        | inl known ↦ rw known (HasTakers-insert s.devices (update_identity u) u s.initial known hs)
        | inr new ↦
            let joined = enroll-HasTakers u (update_identity u) s supported hs in
            rw new (elim (Bool-cases first) [
              | inl one ↦ rw one (unfold enroll in joined)
              | inr more ↦ rw more (unfold enroll in joined)
            ])
      ])
    ])
  ]

  on_event-HasTakers :
      (first : Bool) (e : Event) (s : Discovery)
      → HasTakers s.devices s.initial
      → HasTakers (on_event numbered first e s).0.devices (on_event numbered first e s).0.initial
  unfolding on_event
  on_event-HasTakers first cancelled s hs = hs
  on_event-HasTakers first window_over s hs = hs
  on_event-HasTakers first (report now u) s hs = on_report-HasTakers first now u s hs

  discover_loop-HasTakers :
      (first : Bool) (es : List Event) (s : Discovery)
      → HasTakers s.devices s.initial
      → HasTakers
          (discover_loop numbered first es s).devices
          (discover_loop numbered first es s).initial
  unfolding discover_loop
  discover_loop-HasTakers first [] s hs = hs
  discover_loop-HasTakers first (e ∷ es) s hs =
      let next = on_event-HasTakers first e s hs in
      elim (Bool-cases (on_event numbered first e s).1) [
        | inl done ↦ rw done next
        | inr more ↦ rw more (discover_loop-HasTakers first es (on_event numbered first e s).0 next)
      ]

  -- Whatever happens during discovery, in each mode: every report that it keeps for the start has a device
  -- among those that it returns.
  pub discover_devices-HasTakers :
      (mode : Bytes) (d : Deduplicator) (ds : List Device) (es : List Event)
      → let found = discover_devices numbered mode d ds es in HasTakers found.devices found.initial
  unfolding discover_devices
  discover_devices-HasTakers mode d ds es =
      elim (Bool-cases (ltb 0 (length ds) || eq_bytes mode (codes "manual"))) [
        | inl skip ↦ rw skip tt
        | inr search ↦ rw search (discover_loop-HasTakers (eq_bytes mode (codes "first")) es _ tt)
      ]
