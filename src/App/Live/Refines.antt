-- ===== src/App/Live/Refines.antt =====
-- However the handler and the loop take turns, the loop has worked through reports one by one.
use mgl03_homekit_bridge.Common.{
  ℕ, ◌≡◌, refl, ap, sym, ◌∙◌, Bool, List, [], ◌∷◌, ◌++◌, Bytes, append_nil,
}
use mathlib.Core.List.{append_assoc}
use mgl03_homekit_bridge.Common.Int.{ℤ}
use mgl03_homekit_bridge.Openmiio.Types.{FloatOps, Update}
use mgl03_homekit_bridge.App.Queue.{History, new_queue}
use mgl03_homekit_bridge.App.Queue as Queue
use mgl03_homekit_bridge.App.Updates.{Runtime, Effect, process_update, process_updates}
use mgl03_homekit_bridge.App.Live.{Live, serve_one, arrive, serve, Reach, here, next}

-- The reports among the arrivals.
abbrev pub updates_of : List (ℤ × ℤ × Update) → List Update
updates_of [] = []
updates_of ((now, unix, u) ∷ rest) = u ∷ updates_of rest

pub updates_of-append :
    (xs ys : List (ℤ × ℤ × Update)) → updates_of (xs ++ ys) ≡ updates_of xs ++ updates_of ys
updates_of-append [] ys = refl
updates_of-append ((now, unix, u) ∷ xs) ys =
    ap (λ (us : List Update). u ∷ us) (updates_of-append xs ys)

module _ (numbered : Bytes → ℕ → Bytes) (fl : FloatOps) (auto : Bool) where
  -- One more report after the others.
  process_updates-append :
      (xs : List (ℤ × ℤ × Update)) (now unix : ℤ) (u : Update) (rt : Runtime)
      → let before = process_updates numbered fl auto xs rt in
        let last = process_update numbered fl auto now unix u before.0 in
        process_updates numbered fl auto (xs ++ ((now, unix, u) ∷ [])) rt
        ≡ (last.0, before.1 ++ last.1)
  unfolding process_updates
  process_updates-append [] now unix u rt =
      ap (λ (es : List Effect). ((process_update numbered fl auto now unix u rt).0, es))
        (append_nil (process_update numbered fl auto now unix u rt).1)
  process_updates-append ((a, b, v) ∷ xs) now unix u rt =
      let first = process_update numbered fl auto a b v rt in
      let before = process_updates numbered fl auto xs first.0 in
      let last = process_update numbered fl auto now unix u before.0 in
      ap (λ (r : Runtime × List Effect). (r.0, first.1 ++ r.1))
        (process_updates-append xs now unix u first.0)
      ∙ ap (λ (es : List Effect). (last.0, es)) (sym (append_assoc first.1 before.1 last.1))

  -- The channel on its own.
  pub Reach-history : {g l : Live} → Reach numbered fl auto g l → Queue.Reach g.history l.history
  unfolding serve_one
  Reach-history here = Queue.here
  Reach-history (next {t = t} r (arrive l now u)) =
      Queue.next (Reach-history r) (Queue.arrive l.history now u)
  Reach-history (next {t = t} r (serve l now unix u rest e)) =
      Queue.next (Reach-history r) (Queue.take l.history u rest e)

  -- What the loop has done when the bridge is in the state `l`, from the state `g` on.
  pub record IsServing (g l : Live) : Type 0 where
    pub arrivals : List (ℤ × ℤ × Update)
    pub took : l.history.taken ≡ g.history.taken ++ updates_of arrivals
    pub did : process_updates numbered fl auto arrivals g.runtime ≡ (l.runtime, l.effects)

  -- From any state in which the loop has done nothing yet, and however its rounds and the arrivals of
  -- reports alternate: the loop has done exactly what it does to the reports that it has received, one
  -- after the other, in the order in which it received them.
  pub Reach-IsServing : {g l : Live} → g.effects ≡ [] → Reach numbered fl auto g l → IsServing g l
  unfolding serve_one
  Reach-IsServing {g = g} e here = record {
    arrivals = [];
    took = sym (append_nil g.history.taken);
    did = unfold process_updates in ap (λ (es : List Effect). (g.runtime, es)) (sym e);
  }
  Reach-IsServing e (next {t = t} r (arrive l now u)) =
      let h = Reach-IsServing e r in record { arrivals = h.arrivals; took = h.took; did = h.did }
  Reach-IsServing {g = g} e (next {t = t} r (serve l now unix u rest w)) =
      let h = Reach-IsServing e r in
      record {
        arrivals = h.arrivals ++ ((now, unix, u) ∷ []);
        took =
            ap (λ (us : List Update). us ++ (u ∷ [])) h.took
            ∙ append_assoc g.history.taken (updates_of h.arrivals) (u ∷ [])
            ∙ ap (λ (us : List Update). g.history.taken ++ us)
                (sym (updates_of-append h.arrivals ((now, unix, u) ∷ [])));
        did = process_updates-append h.arrivals now unix u g.runtime ∙ rw (h.did) refl;
      }
