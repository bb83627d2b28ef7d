-- ===== src/App/Server/Ready.antt =====
-- What the HomeKit server is given.
use mgl03_homekit_bridge.Common.{
  ℕ, ◌≤◌, ◌<◌, ◌≡◌, refl, inl, inr, Bool, true, false, none, some, List, ◌∷◌, Bytes, Result, ok,
  err, length, ◌==◌, Bool-cases,
}
use mgl03_homekit_bridge.Common.Int.{pos, ltb_ℤ}
use mgl03_homekit_bridge.Files.{Disk, last_disk}
use mgl03_homekit_bridge.Config.Device.{Device}
use mgl03_homekit_bridge.Config.Pin.{validate_pin}
use mgl03_homekit_bridge.Config.Validate.{Settings}
use mgl03_homekit_bridge.Config.Validate.Usable.{normalize_and_validate-bounds}
use mgl03_homekit_bridge.Config.Load.{load_or_create}
use mgl03_homekit_bridge.Config.Load.Settled.{load_or_create-accepted}
use mgl03_homekit_bridge.Registry.{load_registry}
use mgl03_homekit_bridge.Measurements.State.{Devices}
use mgl03_homekit_bridge.Bridge.Accessory.{Accessory, device_accessories}
use mgl03_homekit_bridge.App.Aids.{last_id}
use mgl03_homekit_bridge.App.Merge.{merge_devices}
use mgl03_homekit_bridge.App.Start.{Started, with_accessory, assemble}
use mgl03_homekit_bridge.App.Start.Exposed.{count, IsSorting, exposed_ids}
use mgl03_homekit_bridge.App.Run.{
  Codecs, World, RunError, registry_path, enroll_saved, start_with, start,
}
use mgl03_homekit_bridge.App.Run.Whole.{start-loaded}
use mgl03_homekit_bridge.App.Run.Saved.{enroll_saved-assemble, start_with-loaded}
use mgl03_homekit_bridge.App.Server.Ids.{count-homekit_server}
use mgl03_homekit_bridge.App.Server.{
  Host, Server, bridge_accessory, homekit_server, serve_homekit, ran_started, ran_with, run,
}

-- A server that listens is the one that was asked for.
serve_homekit_server :
    (h : Host) (s : Server) (d : Disk) {t : Server} → (serve_homekit h s d).server ≡ some t → s ≡ t
unfolding serve_homekit
serve_homekit_server h s d {t = t} e = elim (Bool-cases h.makes_directory) [
  | inr fails ↦ let e' = rw fails at e in absurd (cc e')
  | inl makes ↦ elim (Bool-cases (h.refuses s.accessories)) [
    | inl stops ↦ let e' = rw (makes, stops) at e in absurd (cc e')
    | inr made ↦ let e' : some s ≡ some t = rw (makes, made) at e in cc e'
  ]
]

ran_started_server :
    (h : Host) (cfg : Settings) (r : Result RunError Started × Disk) {t : Server}
    → (ran_started h cfg r).server ≡ some t
    → (s : Started) × (r.0 ≡ ok s) × (homekit_server cfg s ≡ t)
unfolding ran_started
ran_started_server h cfg (ok s, d) e = (s, refl, serve_homekit_server h (homekit_server cfg s) d e)
ran_started_server h cfg (err x, d) e = absurd (cc e)

serve_homekit_works :
    (h : Host) (s : Server) (d : Disk)
    → h.makes_directory ≡ true
    → h.refuses s.accessories ≡ false
    → (serve_homekit h s d).server ≡ some s
unfolding serve_homekit
serve_homekit_works h s d made taken = rw (made, taken) refl

ran_started_works :
    (h : Host) (cfg : Settings) (r : Result RunError Started × Disk) (s : Started)
    → r.0 ≡ ok s
    → h.makes_directory ≡ true
    → h.refuses (homekit_server cfg s).accessories ≡ false
    → (ran_started h cfg r).server ≡ some (homekit_server cfg s)
unfolding ran_started
ran_started_works h cfg (ok x, d) s e made taken =
    let same : x ≡ s = cc e in rw same (serve_homekit_works h (homekit_server cfg s) d made taken)
ran_started_works h cfg (err x, d) s e made taken = absurd (cc e)

module _ (numbered : Bytes → ℕ → Bytes)
    (sort : (Device → Device → Bool) → List Device → List Device) (join : Bytes → Bytes → Bytes)
    (codecs : Codecs) where
  -- The server listens when the start succeeds and the operating system and the library let it.
  pub run-start :
      (path dir : Bytes) (w : World) (h : Host) (cfg : Settings) (created : Bool) (s : Started)
      (d : Disk)
      → let l =
          load_or_create numbered codecs.settings dir w.config_faults w.config_broken w.config_temp
            path w.draws d in
        l.0 ≡ ok (cfg, created)
        → (start numbered sort join codecs path dir w d).0 ≡ ok s
        → h.makes_directory ≡ true
        → h.refuses (homekit_server cfg s).accessories ≡ false
        → (run numbered sort join codecs path dir w h d).server ≡ some (homekit_server cfg s)
  unfolding run ran_with
  run-start path dir w h cfg created s d loaded starts made taken =
      let l =
        load_or_create numbered codecs.settings dir w.config_faults w.config_broken w.config_temp
          path w.draws d in
      let r = start_with numbered sort join codecs w cfg (last_disk d l.1) in
      let starts' : r.0 ≡ ok s =
        rw (start-loaded numbered sort join codecs path dir w cfg created d loaded) at starts in
      rw loaded (ran_started_works h cfg r s starts' made taken)

  exposed-assemble :
      (cfg : Settings) (saved : List Device) (w : World) (ms : Devices)
      → let s = assemble numbered sort cfg saved w.events ms in s.exposed ≡ with_accessory s.devices
  unfolding assemble
  exposed-assemble cfg saved w ms = refl

  -- Whatever configuration, registry and reports the bridge starts from: the server that listens has a
  -- valid pairing code and a port of 1 to 65535; its first accessory is the bridge with the id 1, and no
  -- two accessories have the same id. `cfg` is the configuration that is loaded or created, `saved` is what the
  -- registry holds, there are fewer than 2^31 - 1 devices and reports, and sorting keeps the devices.
  pub run-server :
      (path dir : Bytes) (w : World) (h : Host) (cfg : Settings) (created : Bool)
      (saved : List Device) (server : Server) (n : ℕ) (d : Disk)
      → let l =
          load_or_create numbered codecs.settings dir w.config_faults w.config_broken w.config_temp
            path w.draws d in
        let d1 = last_disk d l.1 in
        l.0 ≡ ok (cfg, created)
        → load_registry codecs.registry w.registry_broken
            (registry_path numbered sort join codecs cfg)
            d1
          ≡ ok saved
        → IsSorting sort
        → length (merge_devices cfg.devices saved) < last_id
        → length w.events < last_id
        → (run numbered sort join codecs path dir w h d).server ≡ some server
        → (validate_pin server.pin ≡ none)
          × (ltb_ℤ server.port (pos 1) ≡ false)
          × (ltb_ℤ (pos 65535) server.port ≡ false)
          × (count (λ a. a.id == n) server.accessories ≤ 1)
          × (bridge : Accessory) × (others : List Accessory) × (bridge.id ≡ 1)
          × (server.accessories ≡ bridge ∷ others)
  unfolding run ran_with
  run-server path dir w h cfg created saved server n d loaded found sorts few few_reports serves =
      let l =
        load_or_create numbered codecs.settings dir w.config_faults w.config_broken w.config_temp
          path w.draws d in
      let d1 = last_disk d l.1 in
      let (c, accepted) =
        load_or_create-accepted numbered codecs.settings dir w.config_faults w.config_broken
          w.config_temp path w.draws cfg created d loaded in
      let (low, high, pin) = normalize_and_validate-bounds numbered dir c cfg accepted in
      let r = enroll_saved numbered sort join codecs w cfg saved d1 in
      let serves' : (ran_started h cfg r).server ≡ some server =
        rw (loaded, start_with-loaded numbered sort join codecs w cfg saved d1 found) at serves in
      let (s, done, is) = ran_started_server h cfg r serves' in
      let (ms, built) = enroll_saved-assemble numbered sort join codecs w cfg saved s d1 done in
      let (own, none_low) =
        exposed_ids numbered sort cfg saved w.events ms n sorts few few_reports in
      let ids =
        count-homekit_server cfg s n (rw built (exposed-assemble cfg saved w ms)) (rw built own)
          (rw built none_low) in
      rw (← is) (
        unfold homekit_server in pin,
        unfold homekit_server in low,
        unfold homekit_server in high,
        ids,
        bridge_accessory cfg,
        device_accessories s.devices,
        unfold bridge_accessory in refl,
        unfold homekit_server in refl,
      )
