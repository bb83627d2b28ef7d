-- ===== src/Bridge/Toothbrush/Watchdog.antt =====
-- expireWatchdog and Close, and the invariant over every run of the toothbrush's callers.
use mgl03_homekit_bridge.Common.{
  ℕ, suc, ◌+◌, ◌≡◌, refl, inl, inr, Bool, true, not, ◌||◌, Option, none, some, List, arith, is_some,
  Bool-cases, ◌==◌, if◌then◌else◌,
}
use mgl03_homekit_bridge.Common.Int.{ℤ, pos, ◌<ℤ◌, ltb_ℤ, sub64, sub_time}
use mgl03_homekit_bridge.Bridge.Timers.{live, IsBelow, stop_timer, take_one}
use mgl03_homekit_bridge.Bridge.Timers.Live.{
  IsBelow-raise, live-above, stop_timer-IsBelow, after_func-IsBelow, live-after_func,
  live-fire_timer, take_one_lem,
}
use mgl03_homekit_bridge.Bridge.Toothbrush.{
  Toothbrush, stop_watchdog, close, expire_at, expire_since, expire_watchdog, watchdog,
}
use mgl03_homekit_bridge.Bridge.Toothbrush.System.{
  System, with_in_flight, run_callback, Step, report, fire, expire, shut,
}
use mgl03_homekit_bridge.Bridge.Toothbrush.Invariant.{
  Inv, HasRoom, next_generation_lem, stop_watchdog_lem, apply-Inv,
}

pub close-Inv : (closed : Bool) (t : Toothbrush) → HasRoom t → Inv closed t → Inv true (close t)
unfolding close
close-Inv closed t room h =
    let (gen, below, none_live) = stop_watchdog_lem t room h.below in
    record {
      shown = unfold stop_watchdog in h.shown;
      started = unfold stop_watchdog in h.started;
      timed = unfold stop_watchdog in h.timed;
      below = rw gen below;
      single = rw gen (omega (arith, none_live));
      watched = λ e _. cc;
    }

live-with_in_flight :
    (g k : ℕ) (t : Toothbrush) (rest : List ℕ)
    → take_one g t.timers.in_flight ≡ some rest
    → IsBelow t.generation t.timers
    → (live k t.timers ≡ live k (with_in_flight rest t).timers + (if g == k then 1 else 0))
      × IsBelow t.generation (with_in_flight rest t).timers
unfolding live with_in_flight
live-with_in_flight g k t rest e (w, f) =
    let (count, below) = take_one_lem g k t.generation t.timers.in_flight e f in
    (omega (arith, count), (w, below))

-- A callback that finds another generation or no session changes nothing but the set in flight.
stale-Inv :
    (closed : Bool) (g : ℕ) (t : Toothbrush) (rest : List ℕ)
    → take_one g t.timers.in_flight ≡ some rest
    → (not (g == t.generation) || not t.active) ≡ true
    → Inv closed t
    → Inv closed (with_in_flight rest t)
stale-Inv closed g t rest e off h =
    let (count, below) = live-with_in_flight g t.generation t rest e h.below in
    record {
      shown = unfold with_in_flight in h.shown;
      started = unfold with_in_flight in h.started;
      timed = unfold with_in_flight in h.timed;
      below = unfold with_in_flight in below;
      single = unfold with_in_flight in ground (arith, count, h.single);
      watched = λ c a. unfold with_in_flight in ground (arith, count, h.watched c a, off);
    }

expired-Inv :
    (closed : Bool) (g : ℕ) (elapsed : ℤ) (t : Toothbrush)
    → HasRoom t
    → (g ≡ t.generation)
    → IsBelow t.generation t.timers
    → live t.generation t.timers ≡ 0
    → t.motion ≡ t.active
    → (t.active ≡ true → pos 0 <ℤ t.session_start)
    → (t.active ≡ true → is_some t.last_activity ≡ true)
    → Inv closed (expire_at g elapsed t)
unfolding expire_at
expired-Inv closed g elapsed t room current b free shown started timed =
    elim (Bool-cases (ltb_ℤ elapsed watchdog)) [
      | inl early ↦
          let rest = sub64 watchdog elapsed in
          let one = live-after_func rest t.generation t.timers in
          rw (early, current)
            (record {
              shown = shown;
              started = started;
              timed = timed;
              below = after_func-IsBelow rest t.generation t.timers b;
              single = omega (arith, one);
              watched = λ _ _. omega (arith, one);
            })
      | inr late ↦
          let h = stop_timer-IsBelow t.timer t.timers t.generation b in
          let gen = next_generation_lem t.generation room in
          let zero_live =
            live-above t.generation (suc t.generation) (stop_timer t.timer t.timers) (omega arith)
              h in
          rw late (record {
            shown = refl;
            started = λ e. cc;
            timed = λ e. cc;
            below = rw gen (
                IsBelow-raise t.generation (suc t.generation) (stop_timer t.timer t.timers)
                  (omega arith) h);
            single = rw gen (omega (arith, zero_live));
            watched = λ _ e. cc;
          })
    ]

current-Inv :
    (closed : Bool) (g : ℕ) (now : ℤ) (t : Toothbrush) (rest : List ℕ) (last : Option ℤ)
    → HasRoom t
    → take_one g t.timers.in_flight ≡ some rest
    → g ≡ t.generation
    → t.active ≡ true
    → is_some last ≡ true
    → Inv closed t
    → Inv closed (expire_since g now last (with_in_flight rest t))
unfolding expire_since
current-Inv closed g now t rest none room e same on some_last h = cc
current-Inv closed g now t rest (some last) room e same on some_last h =
    let (count, below) = live-with_in_flight g t.generation t rest e h.below in
    expired-Inv closed g (sub_time now last) (with_in_flight rest t) (unfold with_in_flight in room)
      (unfold with_in_flight in same) (unfold with_in_flight in below)
      (unfold with_in_flight in ground (arith, count, h.single)) (unfold with_in_flight in h.shown)
      (unfold with_in_flight in h.started) (unfold with_in_flight in h.timed)

-- A callback keeps the invariant, whenever it gets the lock and whatever the clock says.
pub run_callback-Inv :
    (closed : Bool) (g : ℕ) (now : ℤ) (t : Toothbrush) (rest : List ℕ)
    → HasRoom t
    → take_one g t.timers.in_flight ≡ some rest
    → Inv closed t
    → Inv closed (run_callback g now rest t)
unfolding run_callback expire_watchdog
run_callback-Inv closed g now t rest room e h =
    elim (Bool-cases (not (g == t.generation) || not t.active)) [
      | inl off ↦ unfold with_in_flight in rw off (stale-Inv closed g t rest e off h)
      | inr on ↦
          let same : g ≡ t.generation = ground arith in
          let busy : t.active ≡ true = ground arith in
          let live_now =
            current-Inv closed g now t rest t.last_activity room e same busy (h.timed busy) h in
          unfold with_in_flight in rw on live_now
    ]

-- Every step of the callers keeps the invariant, and starts at most one generation.
pub Step-Inv :
    {s t : System} → Step s t → HasRoom s.brush → Inv s.closed s.brush → Inv t.closed t.brush
Step-Inv (report s u now) room h = apply-Inv s.closed u now s.brush room h
Step-Inv (fire s i ts e) room h =
    let (same, below) =
      live-fire_timer i s.brush.generation s.brush.generation s.brush.timers ts e h.below in
    record {
      shown = h.shown;
      started = h.started;
      timed = h.timed;
      below = below;
      single = rw same h.single;
      watched = λ c a. rw same (h.watched c a);
    }
Step-Inv (expire s g now rest e) room h = run_callback-Inv s.closed g now s.brush rest room e h
Step-Inv (shut s) room h = close-Inv s.closed s.brush room h
