-- ===== src/App/Live/Delivered.antt =====
-- From the packets of many sessions to what the loop does.
use mgl03_homekit_bridge.Common.{
  ℕ, ◌+◌, ◌≤◌, ◌≡◌, refl, ap, sym, ◌∙◌, Bool, List, [], ◌∷◌, ◌++◌, Bytes, length, length-append,
  arith,
}
use mathlib.Core.List.{append_assoc}
use mgl03_homekit_bridge.Common.Int.{ℤ}
use mgl03_homekit_bridge.Openmiio.Types.{FloatOps, Update}
use mgl03_homekit_bridge.Openmiio.Parser.{Json}
use mgl03_homekit_bridge.Openmiio.Miot.{parse}
use mgl03_homekit_bridge.Mqtt.Serve.{Client}
use mgl03_homekit_bridge.Mqtt.Run.{Attempt, run}
use mgl03_homekit_bridge.Mqtt.Run.Messages.{messages_of, heard_messages, messages_of-run}
use mgl03_homekit_bridge.App.Queue.{History, new_queue}
use mgl03_homekit_bridge.App.Queue as Queue
use mgl03_homekit_bridge.App.Queue.Fifo.{Keeps, nothing, keep, leave, Reach-IsFifo}
use mgl03_homekit_bridge.App.Updates.{process_updates}
use mgl03_homekit_bridge.App.Live.{Live, Reach}
use mgl03_homekit_bridge.App.Live.Refines.{updates_of, Reach-history, Reach-IsServing}

-- The reports of the messages, in their order.
abbrev pub reports_of : FloatOps → Json → List Bytes → List Update
reports_of fl json [] = []
reports_of fl json (m ∷ ms) = (parse fl json m).0 ++ reports_of fl json ms

Keeps-length : {xs ys : List Update} → Keeps xs ys → length xs ≤ length ys
Keeps-length nothing = omega arith
Keeps-length (keep u k) = omega (arith, Keeps-length k)
Keeps-length (leave u k) = omega (arith, Keeps-length k)

-- Nothing is left out of a list of the same length.
Keeps-same : {xs ys : List Update} → Keeps xs ys → length xs ≡ length ys → xs ≡ ys
Keeps-same nothing e = refl
Keeps-same (keep u k) e = ap (λ (us : List Update). u ∷ us) (Keeps-same k (omega (arith, e)))
Keeps-same (leave u k) e = absurd (omega (arith, e, Keeps-length k))

Reach-trans : {f g h : History} → Queue.Reach f g → Queue.Reach g h → Queue.Reach f h
Reach-trans r Queue.here = r
Reach-trans r (Queue.next s e) = Queue.next (Reach-trans r s) e

abbrev pub no_history : History
no_history = record { queue = new_queue; offered = []; taken = [] }

-- Where no update was dropped, those taken and waiting are those offered.
offered_lem :
    (h : History)
    → Queue.Reach no_history h
    → h.queue.reported + h.queue.dropped ≡ 0
    → h.taken ++ h.queue.waiting ≡ h.offered
offered_lem h r e =
    let f = Reach-IsFifo r in
    Keeps-same f.ordered (omega (arith, f.counted, e, length-append h.taken h.queue.waiting))

module _ (numbered : Bytes → ℕ → Bytes) (fl : FloatOps) (json : Json) (auto : Bool) where
  -- The client runs for any number of sessions, its handler offers the reports of the messages while
  -- the loop of processUpdates runs, and no report was dropped. Then the reports that were taken before the
  -- loop began, those that the loop has worked through one after the other, and those that still wait are
  -- together the reports of the messages that the broker published on the subscribed topics while the
  -- client was listening, in their order.
  pub run-process_updates :
      (c : Client) (attempts : List Attempt) (g l : Live)
      → Queue.Reach no_history g.history
      → g.effects ≡ []
      → Reach numbered fl auto g l
      → l.history.offered ≡ reports_of fl json (messages_of (run c attempts))
      → l.history.queue.reported + l.history.queue.dropped ≡ 0
      → (arrivals : List (ℤ × ℤ × Update)) × (process_updates numbered fl auto arrivals g.runtime
          ≡ (l.runtime, l.effects))
        × (g.history.taken ++ (updates_of arrivals ++ l.history.queue.waiting)
            ≡ reports_of fl json (heard_messages c attempts))
  run-process_updates c attempts g l before clean r offers none_lost =
      let h = Reach-IsServing numbered fl auto clean r in
      let all =
        offered_lem l.history (Reach-trans before (Reach-history numbered fl auto r)) none_lost in
      (
        h.arrivals,
        h.did,
        sym (append_assoc g.history.taken (updates_of h.arrivals) l.history.queue.waiting)
            ∙ ap (λ (us : List Update). us ++ l.history.queue.waiting) (sym h.took)
            ∙ all
            ∙ offers
            ∙ ap (λ (ms : List Bytes). reports_of fl json ms) (messages_of-run c attempts),
      )
