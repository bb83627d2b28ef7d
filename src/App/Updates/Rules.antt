-- ===== src/App/Updates/Rules.antt =====
-- Which reports reach an accessory, the caches and the registry.
use mgl03_homekit_bridge.Common.{
  ℕ, zero, suc, ◌≡◌, ◌≢◌, ◌==◌, refl, ap, ap₂, ◌∙◌, Bool, true, false, Option, none, some, List, [],
  ◌∷◌, ◌++◌, Bytes, if◌then◌else◌, arith,
}
use mgl03_homekit_bridge.Common.Int.{ℤ}
use mgl03_homekit_bridge.Openmiio.Types.{FloatOps, Update, ToothbrushEvent}
use mgl03_homekit_bridge.Openmiio.Dedup.{
  Deduplicator, FrameDisposition, accepted, duplicate, stale, classify,
}
use mgl03_homekit_bridge.Openmiio.Dedup.Order.{classify_rejected_unchanged}
use mgl03_homekit_bridge.App.Merge.Owner.{IsTarget, find_device-IsTarget}
use mgl03_homekit_bridge.App.Updates.{
  Runtime, Effect, apply_to, save_measurements, save_registry, is_start, match_accessory,
  apply_matched, process_unmatched, persist, process_accepted, process_classified, process_update,
}

-- The reports that are handed to an accessory, with its position.
abbrev pub applied : List Effect → List (ℕ × Update)
applied [] = []
applied (apply_to i u ∷ es) = (i, u) ∷ applied es
applied (save_measurements ms ∷ es) = applied es
applied (save_registry ds ∷ es) = applied es

abbrev handed : Option ℕ → Update → List (ℕ × Update)
handed none u = []
handed (some i) u = (i, u) ∷ []

-- A state event of type 0 starts a brushing session.
is_zero : ℕ → Bool
is_zero zero = true
is_zero (suc n) = false

pub starts_session : Option ToothbrushEvent → Bool
starts_session none = false
starts_session (some e) = is_zero e.type

is_start-starts_session : (e : Option ToothbrushEvent) → is_start e ≡ starts_session e
unfolding is_start starts_session is_zero
is_start-starts_session none = refl
is_start-starts_session (some e) = is_zero_lem e.type
  where
    is_zero_lem : (n : ℕ) → n == 0 ≡ is_zero n
    is_zero_lem zero = refl
    is_zero_lem (suc n) = ground arith

-- To whom a report goes: to its own accessory if its frame is accepted, or if it repeats the start of a
-- brushing session; and to nobody otherwise.
abbrev pub recipients : FrameDisposition → Option ℕ → Update → List (ℕ × Update)
recipients accepted target u = handed target u
recipients duplicate target u = if starts_session u.toothbrush then handed target u else []
recipients stale target u = []

pub applied-append : (xs ys : List Effect) → applied (xs ++ ys) ≡ applied xs ++ applied ys
applied-append [] ys = refl
applied-append (apply_to i u ∷ xs) ys = ap (λ r. (i, u) ∷ r) (applied-append xs ys)
applied-append (save_measurements ms ∷ xs) ys = applied-append xs ys
applied-append (save_registry ds ∷ xs) ys = applied-append xs ys

module _ (numbered : Bytes → ℕ → Bytes) (fl : FloatOps) where
  pub applied-persist :
      (u : Update) (unix : ℤ) (rt : Runtime) → applied (persist numbered fl u unix rt).1 ≡ []
  unfolding persist
  applied-persist u unix rt = ground arith

  applied-process_unmatched :
      (auto : Bool) (u : Update) (rt : Runtime)
      → applied (process_unmatched numbered auto u rt).1 ≡ []
  unfolding process_unmatched
  applied-process_unmatched auto u rt = ground arith

  applied-process_accepted :
      (auto : Bool) (u : Update) (unix : ℤ) (target : Option ℕ) (rt : Runtime)
      → applied (process_accepted numbered fl auto u unix target rt).1 ≡ handed target u
  unfolding process_accepted
  applied-process_accepted auto u unix (some i) rt =
      applied-append (persist numbered fl u unix rt).1 (apply_to i u ∷ [])
      ∙ ap (λ r. r ++ ((i, u) ∷ [])) (applied-persist u unix rt)
  applied-process_accepted auto u unix none rt =
      let rt' = (persist numbered fl u unix rt).0 in
      applied-append (persist numbered fl u unix rt).1 (process_unmatched numbered auto u rt').1
      ∙ ap₂ ◌++◌ (applied-persist u unix rt) (applied-process_unmatched auto u rt')

  applied-process_classified :
      (auto : Bool) (u : Update) (unix : ℤ) (target : Option ℕ) (x : FrameDisposition)
      (rt : Runtime)
      → applied (process_classified numbered fl auto u unix target x rt).1 ≡ recipients x target u
  unfolding process_classified
  applied-process_classified auto u unix target accepted rt =
      applied-process_accepted auto u unix target rt
  applied-process_classified auto u unix none duplicate rt =
      rw (is_start-starts_session u.toothbrush) (unfold apply_matched in ground arith)
  applied-process_classified auto u unix (some i) duplicate rt =
      rw (is_start-starts_session u.toothbrush) (unfold apply_matched in ground arith)
  applied-process_classified auto u unix target stale rt = refl

  -- A report is handed over, once, if its frame is accepted, or if it is a duplicate with a state event of
  -- type 0, the start of a session; in every other case it is not. This depends on neither the state of
  -- the accessory nor on whether it has a session. It is handed to the first accessory whose device has the
  -- same MAC, up to the case of its letters, or the same DID as the report, and to none if there is none.
  pub applied-process_update :
      (auto : Bool) (now unix : ℤ) (u : Update) (rt : Runtime)
      → (applied (process_update numbered fl auto now unix u rt).1
          ≡ recipients (classify rt.deduplicator now u).1 (match_accessory rt u) u)
        × IsTarget rt.exposed u (match_accessory rt u)
  unfolding process_update match_accessory
  applied-process_update auto now unix u rt = (
    applied-process_classified auto u unix (match_accessory rt u) (classify rt.deduplicator now u).1
        (record rt { deduplicator = (classify rt.deduplicator now u).0 }),
    find_device-IsTarget rt.exposed u,
  )

  -- What a rejected frame leaves behind: neither a change nor a write.
  classified_rejected :
      (auto : Bool) (u : Update) (unix : ℤ) (target : Option ℕ) (x : FrameDisposition)
      (rt : Runtime)
      → x ≢ accepted
      → (process_classified numbered fl auto u unix target x rt).0 ≡ rt
  unfolding process_classified
  classified_rejected auto u unix target accepted rt h = absurd (h refl)
  classified_rejected auto u unix target duplicate rt h = refl
  classified_rejected auto u unix target stale rt h = refl

  -- A frame that is not accepted changes nothing: neither the filter, nor the measurements, nor the
  -- registry, nor the set of unknown devices.
  pub process_update_rejected :
      (auto : Bool) (now unix : ℤ) (u : Update) (rt : Runtime)
      → (classify rt.deduplicator now u).1 ≢ accepted
      → (process_update numbered fl auto now unix u rt).0 ≡ rt
  unfolding process_update
  process_update_rejected auto now unix u rt h =
      classified_rejected auto u unix (match_accessory rt u) (classify rt.deduplicator now u).1 _ h
      ∙ ap (λ (d : Deduplicator). record rt { deduplicator = d })
          (classify_rejected_unchanged rt.deduplicator now u h)
