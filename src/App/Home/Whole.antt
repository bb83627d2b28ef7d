-- ===== src/App/Home/Whole.antt =====
-- What holds while everything runs side by side.
use mgl03_homekit_bridge.Common.{
  ℕ, suc, ◌+◌, ◌^◌, ◌≤◌, ◌<◌, ◌≡◌, refl, ap, ◌∙◌, inl, inr, Bool, List, ◌++◌, append_nil, sym, [],
  ◌∷◌, Bytes, arith,
}
use mgl03_homekit_bridge.Common.Int.{ℤ}
use mgl03_homekit_bridge.Openmiio.Types.{FloatOps, Update}
use mgl03_homekit_bridge.Openmiio.Dedup.{classify}
use mgl03_homekit_bridge.Bridge.Battery.{BatteryService}
use mgl03_homekit_bridge.Bridge.Toothbrush.{Now}
use mgl03_homekit_bridge.Bridge.Toothbrush.System.{System}
use mgl03_homekit_bridge.Bridge.Toothbrush.System as Brush
use mgl03_homekit_bridge.Bridge.Toothbrush.Invariant.{Inv}
use mgl03_homekit_bridge.Bridge.Toothbrush.Trace.{initial, Reach-Inv}
use mgl03_homekit_bridge.App.Updates.{
  Effect, match_accessory, process_update, process_updates, Runtime,
}
use mgl03_homekit_bridge.App.Updates.Rules.{
  applied, applied-append, recipients, applied-process_update,
}
use mgl03_homekit_bridge.App.Live.{Live, serve_one}
use mgl03_homekit_bridge.App.Live as Live
use mgl03_homekit_bridge.App.Live.Refines.{updates_of, Reach-IsServing}
use mgl03_homekit_bridge.App.Home.{
  Home, apply_at, serve_home, arrive, serve, own, Reach, here, next,
}
use mgl03_homekit_bridge.App.Home.Calls.{
  apply_each, apply_at-applied, at_position, at_position-append, recipients-IsOneCall, reported,
}

-- What the loop has done to the arrivals, and the way of the accessory with the reports from there.
pub record IsFollowing (numbered : Bytes → ℕ → Bytes) (fl : FloatOps) (auto : Bool) (i : ℕ)
    (arrivals : List (ℤ × ℤ × Update)) (g h : Home) : Type 0 where
  pub steps : ℕ
  pub path : Brush.Reach g.system steps h.system
  pub done :
      process_updates numbered fl auto arrivals g.live.runtime ≡ (h.live.runtime, h.live.effects)
  pub same :
      reported path
      ≡ at_position i (applied (process_updates numbered fl auto arrivals g.live.runtime).1)

module _ (numbered : Bytes → ℕ → Bytes) (fl : FloatOps) (auto : Bool) (i : ℕ) where
  -- The accessory on its own: it makes at most one step for each step of the whole, and its reports are
  -- those that the effects have for its position.
  pub record Follows (s : System) (n : ℕ) (es : List Effect) (t : System) : Type 0 where
    pub steps : ℕ
    pub few : steps ≤ n
    pub path : Brush.Reach s steps t
    pub same : reported path ≡ at_position i (applied es)

  serve-Follows :
      (h : Home) (now unix : ℤ) (clock : Now) (u : Update) (rest : List Update) {s : System} {n : ℕ}
      → Follows s n h.live.effects h.system
      → let after = serve_home numbered fl auto i now unix clock u rest h in
        Follows s (suc n) after.live.effects after.system
  unfolding serve_home serve_one
  serve-Follows h now unix clock u rest f =
      let brush = h.system.brush in
      let effects = (process_update numbered fl auto now unix u h.live.runtime).1 in
      let to =
        recipients (classify h.live.runtime.deduplicator now u).1 (match_accessory h.live.runtime u)
          u in
      let goes = (applied-process_update numbered fl auto now unix u h.live.runtime).0 in
      let calls : apply_at i clock effects brush ≡ apply_each i clock to brush =
        apply_at-applied i clock effects brush
        ∙ ap (λ (us : List (ℕ × Update)). apply_each i clock us brush) goes in
      let all : at_position i (applied (h.live.effects ++ effects))
          ≡ at_position i (applied h.live.effects) ++ at_position i to =
        ap (at_position i) (applied-append h.live.effects effects)
        ∙ at_position-append i (applied h.live.effects) (applied effects)
        ∙ rw goes refl in
      elim (recipients-IsOneCall i clock (classify h.live.runtime.deduplicator now u).1
        (match_accessory h.live.runtime u) u brush) [
          | inl (kept, none_here) ↦
              rw (calls, kept)
                (record {
                  steps = f.steps;
                  few = omega (arith, f.few);
                  path = f.path;
                  same =
                      f.same
                      ∙ sym (
                          all ∙ rw none_here (append_nil (at_position i (applied h.live.effects))));
                })
          | inr (called, one_here) ↦
              rw (calls, called)
                (record {
                  steps = suc f.steps;
                  few = omega (arith, f.few);
                  path = Brush.next f.path (Brush.report h.system u clock);
                  same =
                      ap (λ (us : List Update). us ++ (u ∷ [])) f.same
                      ∙ sym (all ∙ rw one_here refl);
                })
        ]

  Reach-Follows :
      {g h : Home} {n : ℕ}
      → g.live.effects ≡ []
      → Reach numbered fl auto i g n h
      → Follows g.system n h.live.effects h.system
  Reach-Follows clean here = record {
    steps = 0;
    few = omega arith;
    path = Brush.here;
    same = rw clean refl;
  }
  Reach-Follows clean (next r (arrive h now u)) =
      let f = Reach-Follows clean r in
      record { steps = f.steps; few = omega (arith, f.few); path = f.path; same = f.same }
  Reach-Follows clean (next r (serve h now unix clock u rest e)) =
      serve-Follows h now unix clock u rest (Reach-Follows clean r)
  Reach-Follows clean (next r (own h s st quiet)) =
      let f = Reach-Follows clean r in
      record {
        steps = suc f.steps;
        few = omega (arith, f.few);
        path = Brush.next f.path st;
        same = rw quiet (append_nil (reported f.path)) ∙ f.same;
      }

  -- The handler and the loop on their own.
  Reach-live :
      {g h : Home} {n : ℕ}
      → Reach numbered fl auto i g n h
      → Live.Reach numbered fl auto g.live h.live
  unfolding serve_home
  Reach-live here = Live.here
  Reach-live (next r (arrive h now u)) = Live.next (Reach-live r) (Live.arrive h.live now u)
  Reach-live (next r (serve h now unix clock u rest e)) =
      Live.next (Reach-live r) (Live.serve h.live now unix u rest e)
  Reach-live (next r (own h s st quiet)) = Reach-live r

  Reach-trans :
      {s t u : System} {m n : ℕ}
      → Brush.Reach s m t
      → Brush.Reach t n u
      → (k : ℕ) × (k ≡ m + n) × Brush.Reach s k u
  Reach-trans {m = m} p Brush.here = (m, omega arith, p)
  Reach-trans p (Brush.next q st) =
      let (k, e, r) = Reach-trans p q in (suc k, omega (arith, e), Brush.next r st)

  -- A toothbrush accessory has come so far in `m` steps since it was new, and the loop has done nothing
  -- yet. Reports then arrive, the loop goes round, timers fire, callbacks run and the accessory is closed,
  -- in any order and in `n` steps, with m + n below 2^64 - 1. There are arrivals, namely the reports that
  -- the loop has received, in their order, for which processUpdates does what the loop has done; the
  -- accessory on its own goes from its old state to the new one by steps whose reports are exactly those
  -- that processUpdates hands to its position for these arrivals, in the same order; and there its motion
  -- is shown exactly during a session, at most one of its callbacks is current, and exactly one is while
  -- there is a session and Close was not called.
  pub Reach-Home :
      (b : BatteryService) {g h : Home} {m n : ℕ}
      → Brush.Reach (initial b) m g.system
      → g.live.effects ≡ []
      → Reach numbered fl auto i g n h
      → m + n + 1 < 2 ^ 64
      → (arrivals : List (ℤ × ℤ × Update)) × (h.live.history.taken
          ≡ g.live.history.taken ++ updates_of arrivals)
        × IsFollowing numbered fl auto i arrivals g h
        × Inv h.system.closed h.system.brush
  Reach-Home b {g = g} {h = h} before clean r room =
      let f = Reach-Follows clean r in
      let served = Reach-IsServing numbered fl auto clean (Reach-live r) in
      let (k, e, whole) = Reach-trans before f.path in
      let did : (process_updates numbered fl auto served.arrivals g.live.runtime).1
          ≡ h.live.effects =
        ap (λ (x : Runtime × List Effect). x.1) served.did in
      (
        served.arrivals,
        served.took,
        record { steps = f.steps; path = f.path; done = served.did; same = f.same ∙ rw did refl },
        Reach-Inv b whole (omega (arith, f.few, e, room)),
      )
