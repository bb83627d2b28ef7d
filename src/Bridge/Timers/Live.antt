-- ===== src/Bridge/Timers/Live.antt =====
-- How stopping, arming and firing timers change the number of live callbacks of a generation.
use mgl03_homekit_bridge.Common.{
  ℕ, suc, ◌+◌, ◌≤◌, ◌<◌, ◌≡◌, refl, Option, none, some, List, [], ◌∷◌, ◌==◌, if◌then◌else◌, arith,
  All, inl, inr, Option-cases,
}
use mgl03_homekit_bridge.Common.Int.{ℤ}
use mgl03_homekit_bridge.Bridge.Timers.{
  Pending, Timers, after_func, without, stop_timer, count_waiting, count_in_flight, live,
  fire_waiting, fire_timer, take_one, IsBelow,
}

abbrev WaitingBelow : ℕ → List Pending → Type 0
WaitingBelow g = All (λ p. p.generation ≤ g)

abbrev FlightBelow : ℕ → List ℕ → Type 0
FlightBelow g = All (λ h. h ≤ g)

waiting_raise : (ps : List Pending) (g h : ℕ) → g ≤ h → WaitingBelow g ps → WaitingBelow h ps
waiting_raise [] g h le b = tt
waiting_raise (p ∷ ps) g h le (b, bs) = (omega arith, waiting_raise ps g h le bs)

flight_raise : (hs : List ℕ) (g h : ℕ) → g ≤ h → FlightBelow g hs → FlightBelow h hs
flight_raise [] g h le b = tt
flight_raise (x ∷ hs) g h le (b, bs) = (omega arith, flight_raise hs g h le bs)

without-WaitingBelow :
    (i : ℕ) (ps : List Pending) (g : ℕ) → WaitingBelow g ps → WaitingBelow g (without i ps)
unfolding without
without-WaitingBelow i [] g b = tt
without-WaitingBelow i (p ∷ ps) g (b, bs) = ground (arith, without-WaitingBelow i ps g bs)

count_waiting-above :
    (ps : List Pending) (g h : ℕ) → g < h → WaitingBelow g ps → count_waiting h ps ≡ 0
unfolding count_waiting
count_waiting-above [] g h lt b = refl
count_waiting-above (p ∷ ps) g h lt (b, bs) = ground (arith, count_waiting-above ps g h lt bs)

count_in_flight-above :
    (hs : List ℕ) (g h : ℕ) → g < h → FlightBelow g hs → count_in_flight h hs ≡ 0
unfolding count_in_flight
count_in_flight-above [] g h lt b = refl
count_in_flight-above (x ∷ hs) g h lt (b, bs) = ground (arith, count_in_flight-above hs g h lt bs)

pub IsBelow-raise : (g h : ℕ) (ts : Timers) → g ≤ h → IsBelow g ts → IsBelow h ts
IsBelow-raise g h ts le (w, f) =
    (waiting_raise ts.waiting g h le w, flight_raise ts.in_flight g h le f)

-- Above every generation in use nothing is live.
pub live-above : (g h : ℕ) (ts : Timers) → g < h → IsBelow g ts → live h ts ≡ 0
unfolding live
live-above g h ts lt (w, f) =
    omega
      (arith, count_waiting-above ts.waiting g h lt w, count_in_flight-above ts.in_flight g h lt f)

pub stop_timer-IsBelow :
    (o : Option ℕ) (ts : Timers) (g : ℕ) → IsBelow g ts → IsBelow g (stop_timer o ts)
unfolding stop_timer
stop_timer-IsBelow none ts g b = b
stop_timer-IsBelow (some i) ts g (w, f) = (without-WaitingBelow i ts.waiting g w, f)

pub after_func-IsBelow :
    (after : ℤ) (g : ℕ) (ts : Timers) → IsBelow g ts → IsBelow g (after_func after g ts).0
unfolding after_func
after_func-IsBelow after g ts (w, f) = ((omega arith, w), f)

-- A new timer adds one live callback to its generation.
pub live-after_func :
    (after : ℤ) (g : ℕ) (ts : Timers) → live g (after_func after g ts).0 ≡ suc (live g ts)
unfolding live after_func count_waiting
live-after_func after g ts = ground arith

fire_waiting_lem :
    (i g b : ℕ) (ps : List Pending) {p : Pending} {rest : List Pending}
    → fire_waiting i ps ≡ some (p, rest)
    → WaitingBelow b ps
    → (count_waiting g ps ≡ count_waiting g rest + (if p.generation == g then 1 else 0))
      × (p.generation ≤ b)
      × WaitingBelow b rest
unfolding fire_waiting count_waiting
fire_waiting_lem i g b [] h w = cc
fire_waiting_lem i g b (q ∷ ps) h w = elim (Option-cases (fire_waiting i ps)) [
  | inl e ↦ ground arith
  | inr ((r, qs), e) ↦ ground (arith, fire_waiting_lem i g b ps e w.1)
]

-- A timer that fires stays live: its callback is in flight.
pub live-fire_timer :
    (i g b : ℕ) (ts ts' : Timers)
    → fire_timer i ts ≡ some ts'
    → IsBelow b ts
    → (live g ts' ≡ live g ts) × IsBelow b ts'
unfolding fire_timer live count_in_flight
live-fire_timer i g b ts ts' h (w, f) = elim (Option-cases (fire_waiting i ts.waiting)) [
  | inl e ↦ ground arith
  | inr ((p, rest), e) ↦ ground (arith, fire_waiting_lem i g b ts.waiting e w)
]

-- Taking a callback of generation `g` takes one from the count of `g`, and from no other.
pub take_one_lem :
    (g k b : ℕ) (hs : List ℕ) {rest : List ℕ}
    → take_one g hs ≡ some rest
    → FlightBelow b hs
    → (count_in_flight k hs ≡ count_in_flight k rest + (if g == k then 1 else 0))
      × FlightBelow b rest
unfolding take_one count_in_flight
take_one_lem g k b [] h f = cc
take_one_lem g k b (x ∷ hs) h f = elim (Option-cases (take_one g hs)) [
  | inl e ↦ ground arith
  | inr (qs, e) ↦ ground (arith, take_one_lem g k b hs e f.1)
]
