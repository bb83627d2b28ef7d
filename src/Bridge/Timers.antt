-- ===== src/Bridge/Timers.antt =====
-- time.AfterFunc and Timer.Stop as toothbrush.go uses them: a timer waits until it is stopped or
-- fires; once it has fired, its callback is in flight, and Stop no longer reaches it.
pub mod Live
use mgl03_homekit_bridge.Common.{
  ℕ, suc, ◌+◌, ◌≤◌, ◌<◌, ◌≡◌, refl, Bool, Option, none, some, List, [], ◌∷◌, ◌==◌, if◌then◌else◌,
  arith, All,
}
use mgl03_homekit_bridge.Common.Int.{ℤ}

-- A callback is known by the watchdog generation that it was armed with.
pub record Pending : Type 0 where
  pub id : ℕ
  pub after : ℤ
  pub generation : ℕ

pub record Timers : Type 0 where
  pub next_id : ℕ
  pub waiting : List Pending
  pub in_flight : List ℕ

-- The handle of the new timer is its number.
unfoldable pub after_func : ℤ → ℕ → Timers → Timers × ℕ
after_func after generation ts = (
  record ts {
    next_id = suc ts.next_id;
    waiting = record { id = ts.next_id; after = after; generation = generation } ∷ ts.waiting;
  },
  ts.next_id,
)

unfoldable pub without : ℕ → List Pending → List Pending
without i [] = []
without i (p ∷ ps) = if p.id == i then without i ps else p ∷ without i ps

-- `if t.timer != nil { t.timer.Stop() }`
unfoldable pub stop_timer : Option ℕ → Timers → Timers
stop_timer none ts = ts
stop_timer (some i) ts = record ts { waiting = without i ts.waiting }

-- How many callbacks of a generation are waiting, or in flight.
unfoldable pub count_waiting : ℕ → List Pending → ℕ
count_waiting g [] = 0
count_waiting g (p ∷ ps) =
    let rest = count_waiting g ps in if p.generation == g then suc rest else rest

unfoldable pub count_in_flight : ℕ → List ℕ → ℕ
count_in_flight g [] = 0
count_in_flight g (h ∷ hs) = let rest = count_in_flight g hs in if h == g then suc rest else rest

unfoldable pub live : ℕ → Timers → ℕ
live g ts = count_waiting g ts.waiting + count_in_flight g ts.in_flight

-- The environment: the first waiting timer with this number fires.
unfoldable pub fire_waiting : ℕ → List Pending → Option (Pending × List Pending)
fire_waiting i [] = none
fire_waiting i (p ∷ ps) =
    if p.id == i
    then some (p, ps)
    else elim (fire_waiting i ps) [ none ↦ none | some (q, qs) ↦ some (q, p ∷ qs) ]

unfoldable pub fire_timer : ℕ → Timers → Option Timers
fire_timer i ts = elim (fire_waiting i ts.waiting) [
  | none ↦ none
  | some (p, rest) ↦ some (record ts { waiting = rest; in_flight = p.generation ∷ ts.in_flight })
]

-- A callback in flight of generation `g` gets the lock.
unfoldable pub take_one : ℕ → List ℕ → Option (List ℕ)
take_one g [] = none
take_one g (h ∷ hs) =
    if h == g then some hs else elim (take_one g hs) [ none ↦ none | some rest ↦ some (h ∷ rest) ]

-- No callback is of a later generation than `g`.
abbrev pub IsBelow : ℕ → Timers → Type 0
IsBelow g ts = All (λ p. p.generation ≤ g) ts.waiting × All (λ h. h ≤ g) ts.in_flight
