-- ===== src/App/Home.antt =====
-- main.go and toothbrush.go: the handler, the loop of processUpdates, and a toothbrush accessory with its
-- timers, all side by side.
pub mod Calls
pub mod Whole
use mgl03_homekit_bridge.Common.{ℕ, suc, ◌≡◌, Bool, List, [], ◌∷◌, Bytes, ◌==◌, if◌then◌else◌}
use mgl03_homekit_bridge.Common.Int.{ℤ}
use mgl03_homekit_bridge.Openmiio.Types.{FloatOps, Update}
use mgl03_homekit_bridge.Bridge.Toothbrush.{Toothbrush, Now, apply}
use mgl03_homekit_bridge.Bridge.Toothbrush.System.{System}
use mgl03_homekit_bridge.Bridge.Toothbrush.System as Brush
use mgl03_homekit_bridge.App.Updates.{
  Effect, apply_to, save_measurements, save_registry, process_update,
}
use mgl03_homekit_bridge.App.Live.{Live, with_offered, serve_one}

pub record Home : Type 0 where
  pub live : Live
  pub system : System

-- The calls of Apply of the accessory at the position `i`.
unfoldable pub apply_at : ℕ → Now → List Effect → Toothbrush → Toothbrush
apply_at i now [] t = t
apply_at i now (apply_to j u ∷ es) t = apply_at i now es (if j == i then apply u now t else t)
apply_at i now (save_measurements ms ∷ es) t = apply_at i now es t
apply_at i now (save_registry ds ∷ es) t = apply_at i now es t

-- The report that a step of the accessory is, if it is one.
abbrev pub told : {s t : System} → Brush.Step s t → List Update
told (Brush.report s u now) = u ∷ []
told (Brush.fire s j ts e) = []
told (Brush.expire s g now rest e) = []
told (Brush.shut s) = []

-- The toothbrush is the accessory at the position `i`.
module _ (numbered : Bytes → ℕ → Bytes) (fl : FloatOps) (auto : Bool) (i : ℕ) where
  -- One round of the loop on the report `u`, with its call of Apply; `clock` is what Apply reads.
  unfoldable pub serve_home : ℤ → ℤ → Now → Update → List Update → Home → Home
  serve_home now unix clock u rest h =
      let effects = (process_update numbered fl auto now unix u h.live.runtime).1 in
      record {
        live = serve_one numbered fl auto now unix u rest h.live;
        system = record (h.system) { brush = apply_at i clock effects h.system.brush };
      }

  -- The handler offers an update, the loop goes round once, or the accessory makes a step of its own: a
  -- timer fires, a callback runs, or it is closed. Reports reach it from the loop alone.
  pub data Step : Home → Home → Type 0 where
    arrive :
        (h : Home) (now : ℤ) (u : Update)
        → Step h
            (record h { live = record (h.live) { history = with_offered now u h.live.history } })
    serve :
        (h : Home) (now unix : ℤ) (clock : Now) (u : Update) (rest : List Update)
        → h.live.history.queue.waiting ≡ u ∷ rest
        → Step h (serve_home now unix clock u rest h)
    own :
        (h : Home) (s : System) (st : Brush.Step h.system s)
        → told st ≡ []
        → Step h (record h { system = s })

  -- Reached from `s` in a number of steps.
  pub data Reach (s : Home) : ℕ → Home → Type 0 where
    here : Reach s 0 s
    next : {n : ℕ} {t u : Home} → Reach s n t → Step t u → Reach s (suc n) u
