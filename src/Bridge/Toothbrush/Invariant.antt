-- ===== src/Bridge/Toothbrush/Invariant.antt =====
-- What holds of a toothbrush between two steps of its callers.
use mgl03_homekit_bridge.Common.{
  ℕ, suc, ◌+◌, ◌≤◌, ◌<◌, ◌^◌, ◌≡◌, refl, inl, inr, Bool, true, false, ◌||◌, Option, none, some,
  arith, is_some, Bool-cases, ◌==◌,
}
use mgl03_homekit_bridge.Common.Int.{ℤ, pos, ◌<ℤ◌, ltb_ℤ}
use mgl03_homekit_bridge.Openmiio.Types.{ToothbrushEvent, Update}
use mgl03_homekit_bridge.Bridge.Timers.{live, IsBelow, stop_timer}
use mgl03_homekit_bridge.Bridge.Timers.Live.{
  IsBelow-raise, live-above, stop_timer-IsBelow, after_func-IsBelow, live-after_func,
}
use mgl03_homekit_bridge.Bridge.Toothbrush.{
  Toothbrush, Now, next_generation, arm_watchdog, stop_watchdog, apply_start, apply_end,
  apply_event, apply_level, apply, end_session, complete, in_session, raw_live, forced_stop,
  reference_time, watchdog,
}

-- `closed` says whether Close has been called.
pub record Inv (closed : Bool) (t : Toothbrush) : Type 0 where
  -- HomeKit shows motion exactly during a session.
  pub shown : t.motion ≡ t.active
  pub started : t.active ≡ true → pos 0 <ℤ t.session_start
  pub timed : t.active ≡ true → is_some t.last_activity ≡ true
  -- No callback is newer than the current generation, and at most one is of it.
  pub below : IsBelow t.generation t.timers
  pub single : live t.generation t.timers ≤ 1
  -- A session always has its watchdog.
  pub watched : closed ≡ false → t.active ≡ true → live t.generation t.timers ≡ 1

-- Neither a generation nor a step of it wraps.
abbrev pub HasRoom : Toothbrush → Type 0
HasRoom t = t.generation + 1 < 2 ^ 64

pub next_generation_lem : (g : ℕ) → g + 1 < 2 ^ 64 → next_generation g ≡ suc g
unfolding next_generation
next_generation_lem g h = omega arith

-- Arming leaves exactly one live callback, whatever was live before.
pub arm_watchdog_lem :
    (t : Toothbrush)
    → HasRoom t
    → IsBelow t.generation t.timers
    → let t' = arm_watchdog t in
      (t'.generation ≡ suc t.generation)
      × IsBelow (suc t.generation) t'.timers
      × (live (suc t.generation) t'.timers ≡ 1)
unfolding arm_watchdog
arm_watchdog_lem t room b =
    let g = t.generation in
    let ts = stop_timer t.timer t.timers in
    let old = stop_timer-IsBelow t.timer t.timers g b in
    rw (next_generation_lem g room) (
      refl,
      after_func-IsBelow watchdog (suc g) ts (IsBelow-raise g (suc g) ts (omega arith) old),
      omega (arith, live-after_func watchdog (suc g) ts, live-above g (suc g) ts (omega arith) old),
    )

-- Stopping leaves no live callback.
pub stop_watchdog_lem :
    (t : Toothbrush)
    → HasRoom t
    → IsBelow t.generation t.timers
    → let t' = stop_watchdog t in
      (t'.generation ≡ suc t.generation)
      × IsBelow (suc t.generation) t'.timers
      × (live (suc t.generation) t'.timers ≡ 0)
unfolding stop_watchdog
stop_watchdog_lem t room b =
    let g = t.generation in
    let ts = stop_timer t.timer t.timers in
    let old = stop_timer-IsBelow t.timer t.timers g b in
    rw (next_generation_lem g room) (
      refl,
      IsBelow-raise g (suc g) ts (omega arith) old,
      live-above g (suc g) ts (omega arith) old,
    )

-- Arming re-establishes the invariant.
arm_watchdog-Inv :
    (closed : Bool) (t : Toothbrush)
    → HasRoom t
    → IsBelow t.generation t.timers
    → t.motion ≡ t.active
    → (t.active ≡ true → pos 0 <ℤ t.session_start)
    → (t.active ≡ true → is_some t.last_activity ≡ true)
    → Inv closed (arm_watchdog t)
arm_watchdog-Inv closed t room b shown started timed =
    let (gen, below, one) = arm_watchdog_lem t room b in
    record {
      shown = unfold arm_watchdog in shown;
      started = unfold arm_watchdog in started;
      timed = unfold arm_watchdog in timed;
      below = rw gen below;
      single = rw gen (omega (arith, one));
      watched = λ _ _. rw gen one;
    }

apply_start-Inv :
    (closed : Bool) (event : ToothbrushEvent) (r : ℤ) (now : Now) (t : Toothbrush)
    → HasRoom t
    → Inv closed t
    → Inv closed (apply_start event r now t)
unfolding apply_start
apply_start-Inv closed event r now t room h = elim (Bool-cases (raw_live event r)) [
  | inr off ↦ rw off h
  | inl on ↦ elim (Bool-cases (in_session t event.timestamp)) [
    | inl same ↦
        rw (on, same)
          (arm_watchdog-Inv closed (record t { last_activity = some now.nanos; motion = true }) room
            h.below (unfold in_session in ground arith) (h.started) (λ _. refl))
    | inr fresh ↦
        rw (on, fresh)
          (arm_watchdog-Inv closed _ room h.below refl (λ _. unfold raw_live in ground arith)
            (λ _. refl))
  ]
]

end_session-Inv :
    (closed : Bool) (at : ℤ) (t : Toothbrush)
    → HasRoom t
    → Inv closed t
    → Inv closed (end_session at t)
unfolding end_session
end_session-Inv closed at t room h =
    let (gen, below, none_live) = stop_watchdog_lem t room h.below in
    elim (Bool-cases (in_session t at)) [
      | inl on ↦ rw on (record {
        shown = refl;
        started = λ e. cc;
        timed = λ e. cc;
        below = rw gen below;
        single = rw gen (omega (arith, none_live));
        watched = λ _ e. cc;
      })
      | inr off ↦ rw off (record {
        shown = refl;
        started = λ e. cc;
        timed = λ e. cc;
        below = rw gen below;
        single = rw gen (omega (arith, none_live));
        watched = λ _ e. cc;
      })
    ]

complete-Inv :
    (closed : Bool) (event : ToothbrushEvent) (at : ℤ) (t : Toothbrush)
    → Inv closed t
    → Inv closed (complete event at t)
unfolding complete
complete-Inv closed event at t h = elim (Bool-cases (ltb_ℤ t.last_completed at)) [
  | inr off ↦ rw off h
  | inl on ↦ rw on (record {
    shown = h.shown;
    started = h.started;
    timed = h.timed;
    below = h.below;
    single = h.single;
    watched = h.watched;
  })
]

apply_end-Inv :
    (closed : Bool) (event : ToothbrushEvent) (r : ℤ) (t : Toothbrush)
    → HasRoom t
    → Inv closed t
    → Inv closed (apply_end event r t)
unfolding apply_end
apply_end-Inv closed event r t room h =
    complete-Inv closed event _ _ (elim (Bool-cases (raw_live event r || forced_stop event r t)) [
      | inl on ↦ rw on (end_session-Inv closed _ t room h)
      | inr off ↦ rw off h
    ])

-- A report keeps the invariant, whatever it says and whatever the clocks say.
pub apply-Inv :
    (closed : Bool) (u : Update) (now : Now) (t : Toothbrush)
    → HasRoom t
    → Inv closed t
    → Inv closed (apply u now t)
unfolding apply
apply-Inv closed u now t room h =
    event_case u.toothbrush (apply_level u.battery t) (level_case u.battery)
  where
    level_case : (b : Option ℤ) → HasRoom (apply_level b t) × Inv closed (apply_level b t)
    level_case none = unfold apply_level in (room, h)
    level_case (some b) =
        unfold apply_level in
        (
          room,
          record {
            shown = h.shown;
            started = h.started;
            timed = h.timed;
            below = h.below;
            single = h.single;
            watched = h.watched;
          },
        )

    event_case :
        (o : Option ToothbrushEvent) (s : Toothbrush)
        → HasRoom s × Inv closed s
        → Inv closed (apply_event o (reference_time u now) now s)
    event_case none s (r, i) = unfold apply_event in i
    event_case (some e) s (r, i) =
        unfold apply_event in
        elim (Bool-cases (e.type == 0)) [
          | inl on ↦ rw on (apply_start-Inv closed e _ now s r i)
          | inr off ↦ rw off (apply_end-Inv closed e _ s r i)
        ]
