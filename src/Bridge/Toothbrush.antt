-- ===== src/Bridge/Toothbrush.antt =====
-- toothbrush.go: the brushing session and its watchdog.
pub mod Window
pub mod System
pub mod Invariant
pub mod Watchdog
pub mod Trace
pub mod Session
pub mod Ends
use mgl03_homekit_bridge.Common.{
  ℕ, ◌+◌, ◌%◌, ◌^◌, Bool, true, false, not, ◌&&◌, ◌||◌, Option, none, some, List, [], ◌==◌,
  if◌then◌else◌,
}
use mgl03_homekit_bridge.Common.Int.{ℤ, pos, ltb_ℤ, leb_ℤ, sub64, neg64, seconds64, sub_time}
use mgl03_homekit_bridge.Openmiio.Types.{ToothbrushEvent, Update}
use mgl03_homekit_bridge.Bridge.Battery.{BatteryService, apply_battery}
use mgl03_homekit_bridge.Bridge.Timers.{Timers, after_func, stop_timer}

abbrev pub live_window : ℤ
live_window = pos 60_000_000_000

abbrev pub max_session : ℤ
max_session = pos 600_000_000_000

abbrev pub watchdog : ℤ
watchdog = pos 30_000_000_000

-- `last_activity` is `none` for the zero time.Time; `timer` is the handle of `t.timer`.
pub record Toothbrush : Type 0 where
  pub motion : Bool
  pub battery : BatteryService
  pub timers : Timers
  pub timer : Option ℕ
  pub generation : ℕ
  pub active : Bool
  pub session_start : ℤ
  pub last_activity : Option ℤ
  pub last_completed : ℤ
  pub last_score : Option ℕ
  pub last_duration : ℤ

-- The state of NewToothbrush, over the battery service that the HomeKit library makes.
unfoldable pub new_toothbrush : BatteryService → Toothbrush
new_toothbrush battery = record {
  motion = false;
  battery = battery;
  timers = record { next_id = 0; waiting = []; in_flight = [] };
  timer = none;
  generation = 0;
  active = false;
  session_start = pos 0;
  last_activity = none;
  last_completed = pos 0;
  last_score = none;
  last_duration = pos 0;
}

-- What `t.now()` answers during a call: the wall clock in seconds and the monotonic clock in
-- nanoseconds.
pub record Now : Type 0 where
  pub unix : ℤ
  pub nanos : ℤ

-- A time.Duration from seconds, with its overflow.
unfoldable pub duration_abs : ℤ → ℤ
duration_abs seconds = seconds64 (if ltb_ℤ seconds (pos 0) then neg64 seconds else seconds)

-- `uint64` generations wrap around.
unfoldable pub next_generation : ℕ → ℕ
next_generation g = (g + 1) % 2 ^ 64

-- armWatchdogLocked
unfoldable pub arm_watchdog : Toothbrush → Toothbrush
arm_watchdog t =
    let g = next_generation t.generation in
    let (ts, i) = after_func watchdog g (stop_timer t.timer t.timers) in
    record t { generation = g; timers = ts; timer = some i }

-- stopWatchdogLocked
unfoldable pub stop_watchdog : Toothbrush → Toothbrush
stop_watchdog t = record t {
  generation = next_generation t.generation;
  timers = stop_timer t.timer t.timers;
  timer = none;
}

unfoldable pub reference_time : Update → Now → ℤ
reference_time u now = if leb_ℤ u.gateway_time (pos 0) then now.unix else u.gateway_time

unfoldable pub raw_live : ToothbrushEvent → ℤ → Bool
raw_live event reference =
    ltb_ℤ (pos 0) event.timestamp
    && leb_ℤ (duration_abs (sub64 reference event.timestamp)) live_window

-- `time.Duration(at-t.sessionStart)*time.Second <= toothbrushMaxSession`, with its guards.
unfoldable pub in_session : Toothbrush → ℤ → Bool
in_session t at =
    t.active
    && (ltb_ℤ (pos 0) t.session_start
        && (leb_ℤ t.session_start at && leb_ℤ (seconds64 (sub64 at t.session_start)) max_session))

-- The branch of Apply for `event.Type == 0`.
unfoldable pub apply_start : ToothbrushEvent → ℤ → Now → Toothbrush → Toothbrush
apply_start event reference now t =
    if not (raw_live event reference)
    then t
    else (let begun = if in_session t event.timestamp then t else record t {
      session_start = if leb_ℤ event.timestamp (pos 0) then reference else event.timestamp;
      active = true;
    } in
        arm_watchdog (record begun { last_activity = some now.nanos; motion = true }))

-- `forcedStop`
unfoldable pub forced_stop : ToothbrushEvent → ℤ → Toothbrush → Bool
forced_stop event reference t = not (raw_live event reference) && in_session t reference

-- The reset of a live end, and the duration that it leaves behind.
unfoldable pub end_session : ℤ → Toothbrush → Toothbrush
end_session at t =
    let stopped = record (stop_watchdog t) {
      motion = false;
      active = false;
      session_start = pos 0;
      last_activity = none;
    } in
    if in_session t at
    then record stopped { last_duration = seconds64 (sub64 at t.session_start) }
    else stopped

abbrev newer_score : Option ℕ → Option ℕ → Option ℕ
newer_score (some s) old = some s
newer_score none old = old

unfoldable pub complete : ToothbrushEvent → ℤ → Toothbrush → Toothbrush
complete event at t =
    if ltb_ℤ t.last_completed at
    then record t { last_completed = at; last_score = newer_score event.score t.last_score }
    else t

-- The branch of Apply for any other type.
unfoldable pub apply_end : ToothbrushEvent → ℤ → Toothbrush → Toothbrush
apply_end event reference t =
    let forced = forced_stop event reference t in
    let at = if forced then reference else event.timestamp in
    complete event at (if raw_live event reference || forced then end_session at t else t)

unfoldable pub apply_event : Option ToothbrushEvent → ℤ → Now → Toothbrush → Toothbrush
apply_event none reference now t = t
apply_event (some event) reference now t =
    if event.type == 0 then apply_start event reference now t else apply_end event reference t

unfoldable pub apply_level : Option ℤ → Toothbrush → Toothbrush
apply_level none t = t
apply_level (some b) t = record t { battery = apply_battery b t.battery }

-- Toothbrush.Apply
unfoldable pub apply : Update → Now → Toothbrush → Toothbrush
apply update now t =
    apply_event update.toothbrush (reference_time update now) now (apply_level update.battery t)

-- Toothbrush.Close
unfoldable pub close : Toothbrush → Toothbrush
close t = stop_watchdog t

unfoldable pub expire_at : ℕ → ℤ → Toothbrush → Toothbrush
expire_at g elapsed t =
    if ltb_ℤ elapsed watchdog
    then (let rest = sub64 watchdog elapsed in
        let (ts, i) = after_func rest g t.timers in record t { timers = ts; timer = some i })
    else record t {
      timers = stop_timer t.timer t.timers;
      generation = next_generation t.generation;
      timer = none;
      active = false;
      session_start = pos 0;
      last_activity = none;
      motion = false;
    }

unfoldable pub expire_since : ℕ → ℤ → Option ℤ → Toothbrush → Toothbrush
expire_since g now none t = t
expire_since g now (some last) t = expire_at g (sub_time now last) t

-- expireWatchdog, at the reading `now` of the monotonic clock.
unfoldable pub expire_watchdog : ℕ → ℤ → Toothbrush → Toothbrush
expire_watchdog g now t =
    if not (g == t.generation) || not t.active then t else expire_since g now t.last_activity t
