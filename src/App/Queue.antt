-- ===== src/App/Queue.antt =====
-- main.go, run: the channel between the MQTT client and the consumers, and the handler that fills it.
pub mod Fifo
use mgl03_homekit_bridge.Common.{
  ℕ, suc, ◌+◌, ◌≡◌, Bool, true, ◌||◌, Option, none, some, List, [], ◌∷◌, ◌++◌, length, ltb, Bytes,
  if◌then◌else◌,
}
use mgl03_homekit_bridge.Common.Int.{ℤ, pos, leb_ℤ, sub_time}
use mgl03_homekit_bridge.Openmiio.Types.{FloatOps, Update}
use mgl03_homekit_bridge.Openmiio.Parser.{Json}
use mgl03_homekit_bridge.Openmiio.Miot.{parse}

-- `make(chan openmiio.Update, 128)`
abbrev pub capacity : ℕ
capacity = 128

-- The channel, with the variables of the handler. `reported` adds up what the log has said.
pub record Queue : Type 0 where
  pub waiting : List Update
  pub dropped : ℕ
  pub last_drop_log : Option ℤ
  pub reported : ℕ

abbrev pub new_queue : Queue
new_queue = record { waiting = []; dropped = 0; last_drop_log = none; reported = 0 }

-- `lastDropLog.IsZero() || time.Since(lastDropLog) >= time.Minute`
unfoldable pub log_is_due : ℤ → Option ℤ → Bool
log_is_due now none = true
log_is_due now (some last) = leb_ℤ (pos 60_000_000_000) (sub_time now last)

unfoldable pub drop_update : ℤ → Queue → Queue
drop_update now q =
    if log_is_due now q.last_drop_log
    then record q { dropped = 0; last_drop_log = some now; reported = q.reported + suc q.dropped }
    else record q { dropped = suc q.dropped }

-- The select statement for one update of a message, before the context is cancelled.
unfoldable pub offer : ℤ → Update → Queue → Queue
offer now u q =
    if ltb (length q.waiting) capacity
    then record q { waiting = q.waiting ++ (u ∷ []) }
    else drop_update now q

-- The loop over the updates of a message; `clock i` is the time at the update with the number `i`.
unfoldable pub offer_all : (ℕ → ℤ) → List Update → Queue → Queue
offer_all clock [] q = q
offer_all clock (u ∷ us) q = offer_all (λ i. clock (suc i)) us (offer (clock 0) u q)

-- The handler that the MQTT client calls with each message.
unfoldable pub on_message : FloatOps → Json → (ℕ → ℤ) → Bytes → Queue → Queue
on_message fl json clock payload q = offer_all clock (parse fl json payload).0 q

-- The queue with all that was offered and all that was taken.
pub record History : Type 0 where
  pub queue : Queue
  pub offered : List Update
  pub taken : List Update

-- The handler offers the next update of a message, or a consumer takes the first one that waits.
pub data Step : History → History → Type 0 where
  arrive :
      (h : History) (now : ℤ) (u : Update)
      → Step h (record h { queue = offer now u h.queue; offered = h.offered ++ (u ∷ []) })
  take :
      (h : History) (u : Update) (rest : List Update)
      → h.queue.waiting ≡ u ∷ rest
      → Step h
          (record h { queue = record (h.queue) { waiting = rest }; taken = h.taken ++ (u ∷ []) })

pub data Reach (s : History) : History → Type 0 where
  here : Reach s s
  next : {t u : History} → Reach s t → Step t u → Reach s u
