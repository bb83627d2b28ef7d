-- ===== src/App/Server.antt =====
-- main.go, run: the whole function, with the HomeKit server that it ends with.
pub mod Ids
pub mod Ready
use mgl03_homekit_bridge.Common.{
  ℕ, Bool, true, false, not, ◌&&◌, Option, none, some, List, [], ◌∷◌, Bytes, Result, ok, err, codes,
  if◌then◌else◌,
}
use mgl03_homekit_bridge.Common.Int.{ℤ}
use mgl03_homekit_bridge.Files.{Disk, last_disk}
use mgl03_homekit_bridge.Config.Device.{Device}
use mgl03_homekit_bridge.Config.Validate.{Settings}
use mgl03_homekit_bridge.Config.Load.{LoadError, load_or_create}
use mgl03_homekit_bridge.Bridge.Accessory.{Accessory, device_accessories}
use mgl03_homekit_bridge.App.Start.{Started}
use mgl03_homekit_bridge.App.Run.{Codecs, World, RunError, configuration, start_with}

-- What the server is given; its address is ":" and the port.
pub record Server : Type 0 where
  pub accessories : List Accessory
  pub pin : Bytes
  pub port : ℤ
  pub interfaces : List Bytes

-- What is given to the end of run: whether the directory of the server can be made, what hap.NewServer
-- refuses, whether ListenAndServe returns an error, and whether the context was cancelled by then.
pub record Host : Type 0 where
  pub makes_directory : Bool
  pub refuses : List Accessory → Bool
  pub fails : Bool
  pub cancelled : Bool

pub data HomekitError : Type 0 where
  no_directory no_server serve_failed : HomekitError

pub data MainError : Type 0 where
  unstarted : RunError → MainError
  homekit : HomekitError → MainError

-- The server that listened, the error that run returns, the disk before the server, and the devices
-- whose accessories the deferred function closes.
pub record Ran : Type 0 where
  pub server : Option Server
  pub error : Option MainError
  pub disk : Disk
  pub closed : List Device

-- The bridge itself, whose id is set to 1.
unfoldable pub bridge_accessory : Settings → Accessory
bridge_accessory cfg = record {
  id = 1;
  info = record {
    name = cfg.bridge_name;
    serial = codes "MGL03-BLE-BRIDGE";
    manufacturer = codes "Community";
    model = codes "lumi.gateway.mgl03";
  };
}

unfoldable pub homekit_server : Settings → Started → Server
homekit_server cfg s = record {
  accessories = bridge_accessory cfg ∷ device_accessories s.devices;
  pin = cfg.pin;
  port = cfg.port;
  interfaces = cfg.interfaces;
}

-- From os.MkdirAll on.
unfoldable pub serve_homekit : Host → Server → Disk → Ran
serve_homekit h s d =
    if not h.makes_directory
    then record { server = none; error = some (homekit no_directory); disk = d; closed = [] }
    else if h.refuses s.accessories
    then record { server = none; error = some (homekit no_server); disk = d; closed = [] }
    else record {
      server = some s;
      error = if h.fails && not h.cancelled then some (homekit serve_failed) else none;
      disk = d;
      closed = [];
    }

ran_started : Host → Settings → Result RunError Started × Disk → Ran
ran_started h cfg (err e, d) = record {
  server = none;
  error = some (unstarted e);
  disk = d;
  closed = [];
}
ran_started h cfg (ok s, d) = record (serve_homekit h (homekit_server cfg s) d) {
  closed = s.exposed;
}

module _ (numbered : Bytes → ℕ → Bytes)
    (sort : (Device → Device → Bool) → List Device → List Device) (join : Bytes → Bytes → Bytes)
    (codecs : Codecs) where
  ran_with : World → Host → Disk → Result LoadError (Settings × Bool) → Ran
  ran_with w h d (err e) = record {
    server = none;
    error = some (unstarted (configuration e));
    disk = d;
    closed = [];
  }
  ran_with w h d (ok (cfg, created)) =
      ran_started h cfg (start_with numbered sort join codecs w cfg d)

  -- The whole function; `path` is that of the configuration and `dir` its directory.
  unfoldable pub run : Bytes → Bytes → World → Host → Disk → Ran
  unfolding ran_with ran_started
  run path dir w h d =
      let (r, ds) =
        load_or_create numbered codecs.settings dir w.config_faults w.config_broken w.config_temp
          path w.draws d in
      ran_with w h (last_disk d ds) r
