-- ===== src/Files/Kept.antt =====
-- Files that a replacement leaves alone.
use mgl03_homekit_bridge.Common.{
  ◌≡◌, ◌≢◌, refl, inl, inr, false, none, some, List, [], ◌∷◌, Bytes, eq_bytes, eq_bytes_refl, All,
  Option, Bool-cases,
}
use mgl03_homekit_bridge.Common.Table.{lookup}
use mgl03_homekit_bridge.Files.{Disk, Faults, write_json, last_disk, disk_after}
use mgl03_homekit_bridge.Files.Atomic.{IsWhole, line, write_json_lem}

pub differ : (a b : Bytes) → eq_bytes a b ≡ false → a ≢ b
differ a b h e = let h' = rw (e, eq_bytes_refl b) at h in cc h'

lookup-last_disk :
    (temp path text k : Bytes) (d e : Disk) (ds : List Disk)
    → k ≢ temp
    → k ≢ path
    → lookup k e ≡ lookup k d
    → All (IsWhole temp path text d) ds
    → lookup k (last_disk e ds) ≡ lookup k d
lookup-last_disk temp path text k d e [] t p same h = same
lookup-last_disk temp path text k d e (x ∷ ds) t p same (whole, h) =
    lookup-last_disk temp path text k d x ds t p (whole.kept k t p) h

lookup-write_text :
    (f : Faults) (temp path text k : Bytes) (d : Disk)
    → eq_bytes temp path ≡ false
    → lookup temp d ≡ none
    → eq_bytes k temp ≡ false
    → eq_bytes k path ≡ false
    → lookup k (disk_after d (write_json f temp path (some text) d)) ≡ lookup k d
lookup-write_text f temp path text k d other fresh t p =
    let o = write_json f temp path (some text) d in
    let (each, found, gone) = write_json_lem f temp path text d other fresh in
    lookup-last_disk temp path (line text) k d d o.0 (differ k temp t) (differ k path p) refl each

-- A replacement keeps what every other file holds.
pub lookup-write_json_other :
    (f : Faults) (temp path : Bytes) (encoded : Option Bytes) (k : Bytes) (d : Disk)
    → eq_bytes temp path ≡ false
    → lookup temp d ≡ none
    → eq_bytes k temp ≡ false
    → eq_bytes k path ≡ false
    → lookup k (disk_after d (write_json f temp path encoded d)) ≡ lookup k d
lookup-write_json_other f temp path (some text) k d other fresh t p =
    lookup-write_text f temp path text k d other fresh t p
lookup-write_json_other f temp path none k d other fresh t p = elim (Bool-cases f.mkdir) [
  | inl e ↦ unfold write_json in rw e refl
  | inr e ↦ unfold write_json in rw e refl
]
