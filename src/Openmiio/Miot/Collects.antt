-- ===== src/Openmiio/Miot/Collects.antt =====
-- What the loop of parseMIoTProperties has collected.
use mgl03_homekit_bridge.Common.{
  ◌≡◌, refl, sym, ◌∙◌, inl, inr, true, ◌||◌, Option, none, some, List, [], ◌∷◌, ◌++◌, Bytes, ok,
  ◌>>=◌, eq_bytes, eq_bytes_iff, is_some, if◌then◌else◌, arith, All, All-map, All-append,
  Bool-cases, Option-cases,
}
use mgl03_homekit_bridge.Common.Table.{
  lookup, insert, insert_twice, lookup-insert, lookup-insert_self,
}
use mgl03_homekit_bridge.Openmiio.Types.{Float64, FloatOps, Update}
use mgl03_homekit_bridge.Openmiio.Miot.{
  MeasurementKind, Collected, new_update, entry, set_measurement,
}
use mgl03_homekit_bridge.Openmiio.Miot.Values.{is_in, IsEntry, IsOpen}

module _ (fl : FloatOps) where
  -- What the map holds for a DID of the order.
  abbrev pub Held : List (Bytes × Update) → Bytes → Type 0
  Held by_did did = (u : Update) × (lookup did by_did ≡ some u) × IsEntry fl did u

  pub record IsCollected (c : Collected) : Type 0 where
    pub held : All (Held c.by_did) c.order
    pub only : (did : Bytes) → is_some (lookup did c.by_did) ≡ is_in did c.order

  pub is_in-append :
      (did : Bytes) (xs ys : List Bytes) → is_in did (xs ++ ys) ≡ is_in did xs || is_in did ys
  unfolding is_in
  is_in-append did [] ys = refl
  is_in-append did (x ∷ xs) ys = ground (arith, is_in-append did xs ys)

  pub Held-is_in :
      (by_did : List (Bytes × Update)) (did : Bytes) (order : List Bytes)
      → All (Held by_did) order
      → is_in did order ≡ true
      → Held by_did did
  unfolding is_in
  Held-is_in by_did did [] h e = cc
  Held-is_in by_did did (x ∷ order) (h, hs) e = elim (Bool-cases (eq_bytes x did)) [
    | inl same ↦ let s = (eq_bytes_iff x did).0 same in rw (← s) h
    | inr other ↦ Held-is_in by_did did order hs (rw other at e)
  ]

  pub Held-insert :
      (by_did : List (Bytes × Update)) (did : Bytes) (u : Update) (d : Bytes)
      → IsEntry fl did u
      → Held by_did d
      → Held (insert did u by_did) d
  Held-insert by_did did u d h (v, found, hv) = elim (Bool-cases (eq_bytes did d)) [
    | inl same ↦
        let s = (eq_bytes_iff did d).0 same in
        (u, lookup-insert d did u by_did ∙ rw same refl, rw (← s) h)
    | inr other ↦ (v, lookup-insert d did u by_did ∙ rw other found, hv)
  ]

  -- The update that a property is written to: the one of its DID, or a new one.
  pub open_update : Bytes → Option Update → Update
  open_update did none = new_update did
  open_update did (some u) = u

  pub open_update-IsOpen :
      (did : Bytes) (c : Collected)
      → IsCollected c
      → IsOpen fl did (open_update did (lookup did c.by_did))
  unfolding open_update
  open_update-IsOpen did c h = elim (Option-cases (lookup did c.by_did)) [
    | inl e ↦ rw e (unfold new_update in (refl, ground arith, tt))
    | inr (u, e) ↦
        let (v, found, hv) =
          Held-is_in c.by_did did c.order h.held (sym (h.only did) ∙ rw e refl) in
        let same : v ≡ u = cc in rw e (rw (← same) (hv.own, hv.in_range, hv.not_negative))
  ]

  -- The state after a property whose number fits fl: its update is set, and its DID is noted.
  unfoldable pub with_update : Bytes → Update → Collected → Collected
  with_update did u c = record {
    by_did = insert did u c.by_did;
    order = if is_in did c.order then c.order else c.order ++ (did ∷ []);
  }

  pub with_update-IsCollected :
      (did : Bytes) (u : Update) (c : Collected)
      → IsCollected c
      → IsEntry fl did u
      → IsCollected (with_update did u c)
  unfolding with_update
  with_update-IsCollected did u c h hu =
      let kept = All-map (λ d held. Held-insert c.by_did did u d hu held) c.order h.held in
      let found = lookup-insert_self did u c.by_did in
      elim (Bool-cases (is_in did c.order)) [
        | inl old ↦ rw old (record {
          held = kept;
          only = λ d. rw (lookup-insert d did u c.by_did) (elim (Bool-cases (eq_bytes did d)) [
            | inl same ↦ let s = (eq_bytes_iff did d).0 same in rw same (sym (rw (← s) old))
            | inr other ↦ rw other (h.only d)
          ]);
        })
        | inr new ↦ rw new (record {
          held =
              All-append (Held (insert did u c.by_did)) c.order (did ∷ []) kept
                ((u, found, hu), tt);
          only = λ d.
              rw (lookup-insert d did u c.by_did, is_in-append d c.order (did ∷ []))
                (unfold is_in in
                  elim (Bool-cases (eq_bytes did d)) [
                    | inl same ↦ rw same (ground arith)
                    | inr other ↦ rw other (h.only d ∙ ground arith)
                  ]);
        })
      ]

  pub after_entry :
      (did : Bytes) (k : MeasurementKind) (v : Float64) (c : Collected) (u : Update)
      (o : Option Update)
      → is_in did c.order ≡ is_some o
      → set_measurement fl k v did (open_update did o) ≡ ok u
      → (set_measurement fl k v did (entry did o c).0 >>= λ u'.
          ok (record ((entry did o c).1) { by_did = insert did u' (entry did o c).1.by_did }))
        ≡ ok (with_update did u c)
  unfolding open_update entry with_update
  after_entry did k v c u none new set =
      rw (set, new) (ground (arith, insert_twice did (new_update did) u c.by_did))
  after_entry did k v c u (some w) old set = rw (set, old) refl
