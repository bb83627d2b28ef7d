-- ===== src/Files.antt =====
-- How config.go (writeJSON), registry.go (Save) and state.go (Save) replace a file: by a temporary file
-- beside it that is renamed.
pub mod Atomic
pub mod Calm
pub mod Kept
use mgl03_homekit_bridge.Common.{
  ℕ, Bool, Option, none, some, List, [], ◌∷◌, ◌++◌, Bytes, take, map, if◌then◌else◌,
}
use mgl03_homekit_bridge.Common.Table.{lookup, insert, delete}

-- The files that matter, by path.
abbrev pub Disk : Type 0
Disk = List (Bytes × Bytes)

-- What the operating system answers during one replacement. A write may arrive in parts, `parts` says
-- after how many bytes each, and stop with an error after `stops` bytes.
pub record Faults : Type 0 where
  pub mkdir : Bool
  pub create : Bool
  pub chmod : Bool
  pub parts : List ℕ
  pub stops : Option ℕ
  pub close : Bool
  pub rename : Bool
  pub remove : Bool

pub data FileError : Type 0 where
  mkdir_failed encode_failed create_failed chmod_failed write_failed close_failed rename_failed :
      FileError

-- The states of the disk after each step, and the error that is returned.
abbrev pub Outcome : Type 0
Outcome = List Disk × Option FileError

-- The deferred os.Remove, whose error is ignored.
unfoldable pub remove_temp : Faults → Bytes → Disk → Disk
remove_temp f temp d = if f.remove then d else delete temp d

-- An early return: the deferred call is the last step.
unfoldable pub fail : Faults → Bytes → FileError → Disk → Outcome
fail f temp e d = (d ∷ remove_temp f temp d ∷ [], some e)

unfoldable pub rename_temp : Faults → Bytes → Bytes → Bytes → Disk → Outcome
rename_temp f temp path text d =
    if f.close
    then fail f temp close_failed d
    else if f.rename
    then fail f temp rename_failed d
    else (let renamed = insert path text (delete temp d) in
        (d ∷ renamed ∷ remove_temp f temp renamed ∷ [], none))

unfoldable pub write_temp : Faults → Bytes → Bytes → Bytes → Disk → Option ℕ → Outcome
write_temp f temp path text created (some n) =
    fail f temp write_failed (insert temp (take n text) created)
write_temp f temp path text created none = rename_temp f temp path text (insert temp text created)

-- From os.CreateTemp on, which answers with the name `temp`.
unfoldable pub replace_file : Faults → Bytes → Bytes → Bytes → Disk → Outcome
replace_file f temp path text d =
    let created = insert temp [] d in
    let (later, e) = write_temp f temp path text created f.stops in
    let partial = map (λ n. insert temp (take n text) created) f.parts in
    if f.create
    then ([], some create_failed)
    else if f.chmod
    then fail f temp chmod_failed created
    else (created ∷ partial ++ later, e)

-- The whole function; `encoded` is what json.MarshalIndent gives.
unfoldable pub write_json : Faults → Bytes → Bytes → Option Bytes → Disk → Outcome
write_json f temp path encoded d = if f.mkdir then ([], some mkdir_failed) else elim encoded [
  | none ↦ ([], some encode_failed)
  | some text ↦ replace_file f temp path (text ++ (10 ∷ [])) d
]

-- The disk that is left behind.
abbrev pub last_disk : Disk → List Disk → Disk
last_disk d [] = d
last_disk d (e ∷ es) = last_disk e es

abbrev pub disk_after : Disk → Outcome → Disk
disk_after d o = last_disk d o.0

-- os.ReadFile: `broken` says that the file is there and cannot be read.
pub data ReadFile : Type 0 where
  missing unreadable : ReadFile
  content : Bytes → ReadFile

read_found : Bool → Option Bytes → ReadFile
read_found broken none = missing
read_found broken (some s) = if broken then unreadable else content s

unfoldable pub read_file : Bool → Bytes → Disk → ReadFile
unfolding read_found
read_file broken path d = read_found broken (lookup path d)

-- What encoding/json does with the values of a type.
pub record Codec (A : Type 0) : Type 0 where
  pub encode : A → Option Bytes
  pub decode : Bytes → Option A
