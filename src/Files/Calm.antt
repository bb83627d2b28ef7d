-- ===== src/Files/Calm.antt =====
-- A replacement during which every call works.
use mgl03_homekit_bridge.Common.{◌≡◌, refl, ◌∙◌, false, none, some, Bytes, eq_bytes}
use mgl03_homekit_bridge.Common.Table.{lookup}
use mgl03_homekit_bridge.Files.{
  Disk, Faults, rename_temp, write_temp, replace_file, write_json, disk_after,
}
use mgl03_homekit_bridge.Files.Atomic.{line, write_json_lem}

-- Every call of the operating system works, however the writes are split.
pub record IsCalm (f : Faults) : Type 0 where
  pub mkdir : f.mkdir ≡ false
  pub create : f.create ≡ false
  pub chmod : f.chmod ≡ false
  pub stops : f.stops ≡ none
  pub close : f.close ≡ false
  pub rename : f.rename ≡ false

pub write_json_calm :
    (f : Faults) (temp path text : Bytes) (d : Disk)
    → IsCalm f
    → (write_json f temp path (some text) d).1 ≡ none
unfolding write_json replace_file write_temp rename_temp
write_json_calm f temp path text d c = simp (c.mkdir, c.create, c.chmod, c.stops, c.close, c.rename)

-- After a replacement without faults the file holds the new text.
pub lookup-write_json :
    (f : Faults) (temp path text : Bytes) (d : Disk)
    → eq_bytes temp path ≡ false
    → lookup temp d ≡ none
    → IsCalm f
    → lookup path (disk_after d (write_json f temp path (some text) d)) ≡ some (line text)
lookup-write_json f temp path text d other fresh c =
    let (each, found, gone) = write_json_lem f temp path text d other fresh in
    found ∙ rw (write_json_calm f temp path text d c) refl
