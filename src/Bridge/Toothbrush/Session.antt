-- ===== src/Bridge/Toothbrush/Session.antt =====
-- What a brushing session looks like from outside: its start, its refresh, its end and its loss.
use mgl03_homekit_bridge.Common.{
  ℕ, ◌+◌, ◌-◌, ◌*◌, ◌≤◌, ◌<◌, ◌^◌, ◌≡◌, ◌⊎◌, refl, ◌∙◌, true, false, none, some, arith,
  if◌then◌else◌, Bool-cases, inl, inr,
}
use mgl03_homekit_bridge.Common.Int.{ℤ, pos, ◌≤ℤ◌, ltb_ℤ, sub_time, sub64, seconds64}
use mgl03_homekit_bridge.Openmiio.Types.{ToothbrushEvent, Update}
use mgl03_homekit_bridge.Bridge.Timers.{after_func}
use mgl03_homekit_bridge.Bridge.Toothbrush.{
  Toothbrush, Now, arm_watchdog, stop_watchdog, apply_start, apply_end, apply_event, apply_level,
  apply, expire_at, expire_since, expire_watchdog, end_session, complete, raw_live, in_session,
  forced_stop,
}

sub_time_pos : (n l : ℕ) → n < 2 ^ 63 → l ≤ n → sub_time (pos n) (pos l) ≡ pos (n - l)
unfolding sub_time
sub_time_pos n l h k = ground arith

expire_since_lem :
    (t : Toothbrush) (n : ℤ) (last : ℤ)
    → t.active ≡ true
    → t.last_activity ≡ some last
    → expire_watchdog t.generation n t ≡ expire_at t.generation (sub_time n last) t
unfolding expire_watchdog expire_since
expire_since_lem t n last on e = ground arith

-- The current callback of a session, before its last activity is 30 seconds old, only waits for
-- exactly the time that is left.
pub expire_watchdog-early :
    (t : Toothbrush) (l n : ℕ)
    → t.active ≡ true
    → t.last_activity ≡ some (pos l)
    → l ≤ n
    → n < 2 ^ 63
    → n < l + 30000000000
    → expire_watchdog t.generation (pos n) t ≡ record t {
      timers = (after_func (pos (l + 30000000000 - n)) t.generation t.timers).0;
      timer = some t.timers.next_id;
    }
unfolding expire_at after_func sub64
expire_watchdog-early t l n on last le lt early =
    rw (expire_since_lem t (pos n) (pos l) on last, sub_time_pos n l lt le) (ground arith)

-- A callback of the current generation that runs 30 seconds or more after the last activity of a session
-- ends it, forgets its times and clears the motion.
pub expire_watchdog-late :
    (t : Toothbrush) (l n : ℕ)
    → t.active ≡ true
    → t.last_activity ≡ some (pos l)
    → l + 30000000000 ≤ n
    → n < 2 ^ 63
    → let t' = expire_watchdog t.generation (pos n) t in
      (t'.active ≡ false)
      × (t'.motion ≡ false)
      × (t'.session_start ≡ pos 0)
      × (t'.last_activity ≡ none)
unfolding expire_at
expire_watchdog-late t l n on last late lt =
    rw (expire_since_lem t (pos n) (pos l) on last, sub_time_pos n l lt (omega arith))
      (ground arith)

seconds64_of_diff :
    (a b : ℕ)
    → a ≤ b
    → b ≤ a + 600
    → b < 2 ^ 63
    → seconds64 (sub64 (pos b) (pos a)) ≡ pos ((b - a) * 1000000000)
unfolding seconds64 sub64
seconds64_of_diff a b le h lt = ground arith

in_session_lem :
    (t : Toothbrush) (a b : ℕ)
    → t.active ≡ true
    → t.session_start ≡ pos a
    → 0 < a
    → a ≤ b
    → b ≤ a + 600
    → b < 2 ^ 63
    → in_session t (pos b) ≡ true
unfolding in_session
in_session_lem t a b on start pa le h lt = ground (arith, seconds64_of_diff a b le h lt)

-- A live start during a session that it does not precede, and that is no older than ten minutes, keeps
-- the session's start and arms a new watchdog.
pub apply_start-refresh :
    (t : Toothbrush) (event : ToothbrushEvent) (reference : ℤ) (now : Now) (a b : ℕ)
    → t.active ≡ true
    → t.session_start ≡ pos a
    → event.timestamp ≡ pos b
    → 0 < a
    → a ≤ b
    → b ≤ a + 600
    → b < 2 ^ 63
    → raw_live event reference ≡ true
    → let t' = apply_start event reference now t in
      (t'.session_start ≡ pos a)
      × (t'.active ≡ true)
      × (t'.motion ≡ true)
      × (t'.last_activity ≡ some now.nanos)
unfolding apply_start arm_watchdog
apply_start-refresh t event reference now a b on start at pa le h lt live =
    let same : in_session t event.timestamp ≡ true =
      rw at (in_session_lem t a b on start pa le h lt) in
    rw (live, same) (start, on, refl, refl)

end_session_lem :
    (t : Toothbrush) (a b : ℕ)
    → t.active ≡ true
    → t.session_start ≡ pos a
    → 0 < a
    → a ≤ b
    → b ≤ a + 600
    → b < 2 ^ 63
    → let t' = end_session (pos b) t in
      (t'.active ≡ false)
      × (t'.motion ≡ false)
      × (t'.session_start ≡ pos 0)
      × (t'.last_duration ≡ pos ((b - a) * 1000000000))
unfolding end_session
end_session_lem t a b on start pa le h lt =
    rw (in_session_lem t a b on start pa le h lt, start, seconds64_of_diff a b le h lt)
      (refl, refl, refl, refl)

complete_lem :
    (event : ToothbrushEvent) (at : ℤ) (t : Toothbrush)
    → let t' = complete event at t in
      (t'.active ≡ t.active)
      × (t'.motion ≡ t.motion)
      × (t'.session_start ≡ t.session_start)
      × (t'.last_duration ≡ t.last_duration)
      × (at ≤ℤ t'.last_completed)
unfolding complete
complete_lem event at t = ground arith

apply_end-end_session :
    (t : Toothbrush) (event : ToothbrushEvent) (a b r : ℕ)
    → t.active ≡ true
    → t.session_start ≡ pos a
    → event.timestamp ≡ pos b
    → 0 < a
    → let at = if raw_live event (pos r) then b else r in
      a ≤ at
      → at ≤ a + 600
      → at < 2 ^ 63
      → apply_end event (pos r) t ≡ complete event (pos at) (end_session (pos at) t)
unfolding apply_end forced_stop
apply_end-end_session t event a b r on start stamp pa le h lt =
    elim (Bool-cases (raw_live event (pos r))) [
      | inl live ↦ rw (live, stamp)
      | inr stale ↦
          let room : r ≤ a + 600 = rw stale at h in
          let after : a ≤ r = rw stale at le in
          let small : r < 2 ^ 63 = rw stale at lt in
          rw (stale, in_session_lem t a r on start pa after room small)
    ]

-- An end event closes a session of at most ten minutes, and the duration that it leaves behind runs
-- from the session's start to the event's own time if that is live, and to the reference time, that of
-- the gateway, if the event carries a stale time.
pub apply_end-duration :
    (t : Toothbrush) (event : ToothbrushEvent) (a b r : ℕ)
    → t.active ≡ true
    → t.session_start ≡ pos a
    → event.timestamp ≡ pos b
    → 0 < a
    → let at = if raw_live event (pos r) then b else r in
      a ≤ at
      → at ≤ a + 600
      → at < 2 ^ 63
      → let t' = apply_end event (pos r) t in
        (t'.active ≡ false)
        × (t'.motion ≡ false)
        × (t'.session_start ≡ pos 0)
        × (t'.last_duration ≡ pos ((at - a) * 1000000000))
        × (pos at ≤ℤ t'.last_completed)
apply_end-duration t event a b r on start stamp pa le h lt =
    let at = if raw_live event (pos r) then b else r in
    let (off, still, cleared, lasted) = end_session_lem t a at on start pa le h lt in
    let (same, shown, started, kept, done) = complete_lem event (pos at) (end_session (pos at) t) in
    rw (apply_end-end_session t event a b r on start stamp pa le h lt)
      (same ∙ off, shown ∙ still, started ∙ cleared, kept ∙ lasted, done)

-- No report takes the time of the last completed session back, and the last score changes only with
-- it.
pub apply_last_completed :
    (u : Update) (now : Now) (t : Toothbrush)
    → (t.last_completed ≤ℤ (apply u now t).last_completed)
      × (((apply u now t).last_score ≡ t.last_score)
          ⊎ (ltb_ℤ t.last_completed (apply u now t).last_completed ≡ true))
unfolding apply apply_event apply_level apply_start arm_watchdog apply_end complete end_session
    stop_watchdog
apply_last_completed u now t = ground arith
