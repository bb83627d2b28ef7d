-- ===== src/App/Live.antt =====
-- main.go: the MQTT handler and processUpdates run side by side, with the channel between them.
pub mod Refines
pub mod Delivered
use mgl03_homekit_bridge.Common.{ℕ, ◌≡◌, Bool, List, [], ◌∷◌, ◌++◌, Bytes}
use mgl03_homekit_bridge.Common.Int.{ℤ}
use mgl03_homekit_bridge.Openmiio.Types.{FloatOps, Update}
use mgl03_homekit_bridge.App.Queue.{Queue, offer, History}
use mgl03_homekit_bridge.App.Updates.{Runtime, Effect, process_update}

-- The channel, the variables of processUpdates, and what it has done.
pub record Live : Type 0 where
  pub history : History
  pub runtime : Runtime
  pub effects : List Effect

abbrev pub with_offered : ℤ → Update → History → History
with_offered now u h = record h { queue = offer now u h.queue; offered = h.offered ++ (u ∷ []) }

abbrev pub with_taken : Update → List Update → History → History
with_taken u rest h = record h {
  queue = record (h.queue) { waiting = rest };
  taken = h.taken ++ (u ∷ []);
}

module _ (numbered : Bytes → ℕ → Bytes) (fl : FloatOps) (auto : Bool) where
  -- The loop receives `u` and goes round once.
  unfoldable pub serve_one : ℤ → ℤ → Update → List Update → Live → Live
  serve_one now unix u rest l =
      let (rt, effects) = process_update numbered fl auto now unix u l.runtime in
      record { history = with_taken u rest l.history; runtime = rt; effects = l.effects ++ effects }

  -- The handler offers an update, or the loop receives the first one that waits.
  pub data Step : Live → Live → Type 0 where
    arrive :
        (l : Live) (now : ℤ) (u : Update)
        → Step l (record l { history = with_offered now u l.history })
    serve :
        (l : Live) (now unix : ℤ) (u : Update) (rest : List Update)
        → l.history.queue.waiting ≡ u ∷ rest
        → Step l (serve_one now unix u rest l)

  pub data Reach (s : Live) : Live → Type 0 where
    here : Reach s s
    next : {t u : Live} → Reach s t → Step t u → Reach s u
