-- ===== src/Openmiio/Miot/Answer.antt =====
-- What parseMIoTProperties makes of a list of properties.
use mgl03_homekit_bridge.Common.{
  ◌≡◌, refl, ap, sym, ◌∙◌, inl, inr, true, false, ◌&&◌, none, some, List, [], ◌∷◌, Bytes, ok, err,
  trim_space, arith, All, Bool-cases, Option-cases,
}
use mgl03_homekit_bridge.Common.Table.{lookup}
use mgl03_homekit_bridge.Openmiio.Types.{FloatOps, Update}
use mgl03_homekit_bridge.Openmiio.Decoders.Ranges.{IsInRange}
use mgl03_homekit_bridge.Openmiio.Parser.{Property, ParseError, Parsed, bad_number, out_of_range}
use mgl03_homekit_bridge.Openmiio.Miot.{
  MeasurementKind, Collected, entry, raw_number, collect_kind, collect, in_order,
  parse_miot_properties,
}
use mgl03_homekit_bridge.Openmiio.Miot.Values.{
  is_in, documented, kind_of-documented, dids, dids_after, with_did, number_fits, all_good, IsEntry,
  NotNegative, is_measured, is_measured-has_measurements, set_measurement-fits,
  set_measurement-misfits,
}
use mgl03_homekit_bridge.Openmiio.Miot.Collects.{
  Held, IsCollected, with_update, with_update-IsCollected, open_update, open_update-IsOpen,
  after_entry,
}

module _ (fl : FloatOps) where
  -- One round with a number that fits fl, and one with none or one that does not.
  collect_kind_good :
      (p : Property) (k : MeasurementKind) (c : Collected)
      → IsCollected fl c
      → number_fits fl k (fl.parse (trim_space p.value)) ≡ true
      → (u : Update) × (collect_kind fl p (some k) c ≡ ok (with_update fl p.did u c))
        × IsEntry fl p.did u
  unfolding collect_kind raw_number
  collect_kind_good p k c h good = elim (Option-cases (fl.parse (trim_space p.value))) [
    | inl e ↦ absurd (cc (rw e at good))
    | inr (v, e) ↦
        let o = lookup p.did c.by_did in
        let (u, set, hu) =
          set_measurement-fits fl k v p.did (open_update fl p.did o) (rw e at good)
            (open_update-IsOpen fl p.did c h) in
        (u, rw e (after_entry fl p.did k v c u o (sym (h.only p.did)) set), hu)
  ]

  collect_kind_bad :
      (p : Property) (k : MeasurementKind) (c : Collected)
      → number_fits fl k (fl.parse (trim_space p.value)) ≡ false
      → (e : ParseError) × (collect_kind fl p (some k) c ≡ err e)
  unfolding collect_kind raw_number
  collect_kind_bad p k c bad = elim (Option-cases (fl.parse (trim_space p.value))) [
    | inl e ↦ (bad_number p.did, rw e refl)
    | inr (v, e) ↦
        let o = lookup p.did c.by_did in
        (
          out_of_range p.did,
          rw (e, set_measurement-misfits fl k v p.did (entry p.did o c).0 (rw e at bad)) refl,
        )
  ]

  collect_kind_other : (p : Property) (c : Collected) → collect_kind fl p none c ≡ ok c
  unfolding collect_kind
  collect_kind_other p c = refl

  with_update-order :
      (did : Bytes) (k : MeasurementKind) (u : Update) (c : Collected)
      → (with_update fl did u c).order ≡ with_did (some k) did c.order
  unfolding with_update
  with_update-order did k u c = refl

  -- The loop goes through if every number fits fl, and stops with an error otherwise.
  collect_good :
      (ps : List Property) (c : Collected)
      → IsCollected fl c
      → all_good fl ps ≡ true
      → (c' : Collected) × (collect fl ps c ≡ ok c')
        × IsCollected fl c'
        × (c'.order ≡ dids_after c.order ps)
  unfolding collect all_good dids_after
  collect_good [] c h good = (c, refl, h, refl)
  collect_good (p ∷ ps) c h good = elim (Option-cases (documented p)) [
    | inl e ↦
        let (c', done, kept, order) = collect_good ps c h (rw e at good) in
        (c', rw (kind_of-documented p, e, collect_kind_other p c) done, kept, rw e order)
    | inr (k, e) ↦
        let good' : number_fits fl k (fl.parse (trim_space p.value)) && all_good fl ps ≡ true =
          rw e at good in
        let fine : number_fits fl k (fl.parse (trim_space p.value)) ≡ true = ground arith in
        let (u, step, hu) = collect_kind_good p k c h fine in
        let (c', done, kept, order) =
          collect_good ps (with_update fl p.did u c) (with_update-IsCollected fl p.did u c h hu)
            (ground arith) in
        (
          c',
          rw (kind_of-documented p, e, step) done,
          kept,
          rw e (order ∙ ap (λ o. dids_after o ps) (with_update-order p.did k u c)),
        )
  ]

  collect_bad :
      (ps : List Property) (c : Collected)
      → IsCollected fl c
      → all_good fl ps ≡ false
      → (e : ParseError) × (collect fl ps c ≡ err e)
  unfolding collect all_good
  collect_bad [] c h bad = cc
  collect_bad (p ∷ ps) c h bad = elim (Option-cases (documented p)) [
    | inl e ↦
        let (x, stopped) = collect_bad ps c h (rw e at bad) in
        (x, rw (kind_of-documented p, e, collect_kind_other p c) stopped)
    | inr (k, e) ↦ elim (Bool-cases (number_fits fl k (fl.parse (trim_space p.value)))) [
      | inr misfit ↦
          let (x, stopped) = collect_kind_bad p k c misfit in
          (x, rw (kind_of-documented p, e, stopped) refl)
      | inl fine ↦
          let bad' : number_fits fl k (fl.parse (trim_space p.value)) && all_good fl ps ≡ false =
            rw e at bad in
          let (u, step, hu) = collect_kind_good p k c h fine in
          let (x, stopped) =
            collect_bad ps (with_update fl p.did u c) (with_update-IsCollected fl p.did u c h hu)
              (ground arith) in
          (x, rw (kind_of-documented p, e, step) stopped)
    ]
  ]

  abbrev pub IsReading : Update → Type 0
  IsReading u = IsInRange fl u × NotNegative fl u.humidity × (is_measured fl u ≡ true)

  -- The last loop gives the update of each DID of the order.
  in_order_lem :
      (order : List Bytes) (by_did : List (Bytes × Update))
      → All (Held fl by_did) order
      → (dids (in_order fl order by_did) ≡ order) × All IsReading (in_order fl order by_did)
  unfolding in_order dids
  in_order_lem [] by_did h = (refl, tt)
  in_order_lem (did ∷ order) by_did ((u, found, hu), hs) =
      let (same, all) = in_order_lem order by_did hs in
      rw (found, is_measured-has_measurements fl u hu.measured)
        (rw (hu.own, same) refl, ((hu.in_range, hu.not_negative, hu.measured), all))

  -- Without an error the updates are those of the DIDs, with an error there is none.
  abbrev pub IsAnswer : List Property → Parsed → Type 0
  IsAnswer props (us, none) =
      (all_good fl props ≡ true) × (dids us ≡ dids_after [] props) × All IsReading us
  IsAnswer props (us, some e) = (all_good fl props ≡ false) × (us ≡ [])

  -- A property is a measurement if it is 3/1001, a temperature, 3/1002, a humidity, or 2/1003, a battery.
  -- A list of MIoT properties is parsed without an error exactly if every measurement among them is a
  -- number in its range after rounding: -100 to 150 degrees, or 0 to 100 percent. It then gives one update
  -- for each DID that has a measurement, in the order of their first ones, each with a measurement and all
  -- values in these ranges; with an error it gives no update.
  pub parse_miot_properties-IsAnswer :
      (props : List Property) → IsAnswer props (parse_miot_properties fl (some props))
  unfolding parse_miot_properties
  parse_miot_properties-IsAnswer props =
      let start : Collected = record { by_did = []; order = [] } in
      let fresh : IsCollected fl start = record {
        held = tt;
        only = λ did. unfold lookup is_in in refl;
      } in
      elim (Bool-cases (all_good fl props)) [
        | inl good ↦
            let (c, done, kept, order) = collect_good props start fresh good in
            let (same, all) = in_order_lem c.order c.by_did kept.held in
            rw done (good, same ∙ order, all)
        | inr bad ↦ let (e, stopped) = collect_bad props start fresh bad in rw stopped (bad, refl)
      ]
