-- ===== src/App/Queue/Fifo.antt =====
-- The channel keeps the order, and counts what it loses.
use mgl03_homekit_bridge.Common.{
  ℕ, suc, ◌+◌, ◌≤◌, ◌≡◌, refl, ap, inl, inr, List, [], ◌∷◌, ◌++◌, Bytes, length, length-append,
  append_nil, append_one, ltb, arith, Bool-cases,
}
use mgl03_homekit_bridge.Common.Int.{ℤ}
use mgl03_homekit_bridge.Openmiio.Types.{FloatOps, Update}
use mgl03_homekit_bridge.Openmiio.Parser.{Json}
use mgl03_homekit_bridge.Openmiio.Miot.{parse}
use mgl03_homekit_bridge.App.Queue.{
  Queue, capacity, new_queue, drop_update, offer, offer_all, on_message, History, arrive, take,
  Reach, here, next,
}

-- The first list is the second with some elements left out.
pub data Keeps : List Update → List Update → Type 0 where
  nothing : Keeps [] []
  keep : (u : Update) {xs ys : List Update} → Keeps xs ys → Keeps (u ∷ xs) (u ∷ ys)
  leave : (u : Update) {xs ys : List Update} → Keeps xs ys → Keeps xs (u ∷ ys)

Keeps-keep_last :
    {xs ys : List Update} (u : Update) → Keeps xs ys → Keeps (xs ++ (u ∷ [])) (ys ++ (u ∷ []))
Keeps-keep_last u nothing = keep u nothing
Keeps-keep_last u (keep v k) = keep v (Keeps-keep_last u k)
Keeps-keep_last u (leave v k) = leave v (Keeps-keep_last u k)

Keeps-leave_last : {xs ys : List Update} (u : Update) → Keeps xs ys → Keeps xs (ys ++ (u ∷ []))
Keeps-leave_last u nothing = leave u nothing
Keeps-leave_last u (keep v k) = keep v (Keeps-leave_last u k)
Keeps-leave_last u (leave v k) = leave v (Keeps-leave_last u k)

-- What holds of the channel at any time.
pub record IsFifo (h : History) : Type 0 where
  pub bounded : length h.queue.waiting ≤ capacity
  pub ordered : Keeps (h.taken ++ h.queue.waiting) h.offered
  pub counted :
      length h.offered
      ≡ length h.taken + length h.queue.waiting + (h.queue.reported + h.queue.dropped)

append_last : (xs ys : List Update) (u : Update) → xs ++ (ys ++ (u ∷ [])) ≡ (xs ++ ys) ++ (u ∷ [])
append_last [] ys u = refl
append_last (x ∷ xs) ys u = ap (λ (t : List Update). x ∷ t) (append_last xs ys u)

drop_update_lem :
    (now : ℤ) (q : Queue)
    → let q' = drop_update now q in
      (q'.waiting ≡ q.waiting) × (q'.reported + q'.dropped ≡ suc (q.reported + q.dropped))
unfolding drop_update
drop_update_lem now q = ground arith

arrive-IsFifo :
    (h : History) (now : ℤ) (u : Update)
    → IsFifo h
    → IsFifo (record h { queue = offer now u h.queue; offered = h.offered ++ (u ∷ []) })
unfolding offer
arrive-IsFifo h now u f = elim (Bool-cases (ltb (length h.queue.waiting) capacity)) [
  | inl room ↦ rw room (record {
    bounded = ground (arith, length-append h.queue.waiting (u ∷ []));
    ordered = rw (append_last h.taken h.queue.waiting u) (Keeps-keep_last u f.ordered);
    counted = omega (
      arith,
      length-append h.queue.waiting (u ∷ []),
      length-append h.offered (u ∷ []),
      f.counted,
    );
  })
  | inr full ↦
      let (same, more) = drop_update_lem now h.queue in
      rw full (record {
        bounded = rw same f.bounded;
        ordered = rw same (Keeps-leave_last u f.ordered);
        counted =
            omega (arith, ap (length {0}) same, more, length-append h.offered (u ∷ []), f.counted);
      })
]

take-IsFifo :
    (h : History) (u : Update) (rest : List Update)
    → h.queue.waiting ≡ u ∷ rest
    → IsFifo h
    → IsFifo (record h { queue = record (h.queue) { waiting = rest }; taken = h.taken ++ (u ∷ []) })
take-IsFifo h u rest e f =
    let size : length h.queue.waiting ≡ suc (length rest) = rw e refl in
    let order : Keeps (h.taken ++ (u ∷ rest)) h.offered = rw (← e) f.ordered in
    record {
      bounded = omega (arith, f.bounded, size);
      ordered = rw (append_one h.taken rest u) order;
      counted = omega (arith, f.counted, size, length-append h.taken (u ∷ []));
    }

-- In every state of the channel, whatever the order in which reports arrive and are taken: at most 128
-- wait; those taken and waiting are those offered in their order, with some left out; and as many are
-- left out as the handler has counted, in its log and since.
pub Reach-IsFifo :
    {h : History} → Reach (record { queue = new_queue; offered = []; taken = [] }) h → IsFifo h
Reach-IsFifo here = record { bounded = omega arith; ordered = nothing; counted = omega arith }
Reach-IsFifo (next {t = t} r (arrive h now u)) = arrive-IsFifo h now u (Reach-IsFifo r)
Reach-IsFifo (next {t = t} r (take h u rest e)) = take-IsFifo h u rest e (Reach-IsFifo r)

-- Offering many updates is so many arrivals.
offer_all-Reach :
    {s : History} (clock : ℕ → ℤ) (us : List Update) (h : History)
    → Reach s h
    → Reach s (record h { queue = offer_all clock us h.queue; offered = h.offered ++ us })
unfolding offer_all
offer_all-Reach clock [] h r = rw (append_nil h.offered) r
offer_all-Reach clock (u ∷ us) h r =
    let now = clock 0 in
    let one = record h { queue = offer now u h.queue; offered = h.offered ++ (u ∷ []) } in
    rw (← append_one h.offered us u)
      (offer_all-Reach (λ i. clock (suc i)) us one (next r (arrive h now u)))

-- A message of any kind, in any state of the channel: its updates are offered in their order, and the
-- channel stays bounded, in order and counted.
pub on_message-IsFifo :
    {h : History} (fl : FloatOps) (json : Json) (clock : ℕ → ℤ) (payload : Bytes)
    → Reach (record { queue = new_queue; offered = []; taken = [] }) h
    → IsFifo (record h {
      queue = on_message fl json clock payload h.queue;
      offered = h.offered ++ (parse fl json payload).0;
    })
unfolding on_message
on_message-IsFifo {h = h} fl json clock payload r =
    Reach-IsFifo (offer_all-Reach clock (parse fl json payload).0 h r)
