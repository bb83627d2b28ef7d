-- ===== src/Mqtt/Backoff.antt =====
-- client.go, Run: the wait between two connections.
pub mod Bounds
use mgl03_homekit_bridge.Common.{ℕ, ◌*◌, List, [], ◌∷◌, ltb, leb, if◌then◌else◌}

-- Nanoseconds.
abbrev pub second : ℕ
second = 1_000_000_000

-- After a connection that lasted `lasted`: how long the client waits now, and its next `backoff`.
unfoldable pub next_backoff : ℕ → ℕ → ℕ × ℕ
next_backoff backoff lasted =
    let wait = if leb (60 * second) lasted then second else backoff in
    (wait, if ltb wait (30 * second) then wait * 2 else wait)

-- The waits after a sequence of connections, each given by how long it lasted.
unfoldable pub waits : ℕ → List ℕ → List ℕ
waits backoff [] = []
waits backoff (lasted ∷ rest) =
    let (wait, backoff') = next_backoff backoff lasted in wait ∷ waits backoff' rest

-- Run starts with a second.
unfoldable pub run_waits : List ℕ → List ℕ
run_waits lasted = waits second lasted
