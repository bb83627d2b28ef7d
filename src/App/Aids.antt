-- ===== src/App/Aids.antt =====
-- main.go, prepareDevices: the search for a free accessory id.
pub mod Free
use mgl03_homekit_bridge.Common.{
  ℕ, zero, suc, ◌+◌, ◌||◌, List, contains, length, ltb, if◌then◌else◌,
}

abbrev pub last_id : ℕ
last_id = 0x7fffffff

-- `candidate++; if candidate > 0x7fffffff { candidate = 2 }`
unfoldable pub next_id : ℕ → ℕ
next_id c = if ltb last_id (c + 1) then 2 else c + 1

-- `for candidate < 2 || used[candidate]`, with fuel.
unfoldable pub free_loop : ℕ → ℕ → List ℕ → ℕ
free_loop zero c used = c
free_loop (suc fuel) c used =
    let later = free_loop fuel (next_id c) used in if ltb c 2 || contains c used then later else c

-- A round more than there are used ids finds a free one, if there is one at all.
unfoldable pub free_id : ℕ → List ℕ → ℕ
free_id c used = free_loop (suc (length used)) c used
