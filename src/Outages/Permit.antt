-- ===== src/Outages/Permit.antt =====
-- When the work permit F-TR-02 may be filled: `permit_blocker` of backend/app/outages/service.py.
use mathlib.Core.List.{Memᴰ}
use campo_sig.Common.{
  ℕ, String, Option, Bool-cases, false≢true, str_eq, eq_iff, truthy, ◌≡◌, ◌≢◌, ◌↔◌, sym, ◌∙◌, ap,
  refl, arith, none, some, true, ◌⊎◌, inl, inr, Option-cases, ◌==◌, ==_iff, ==_refl, first,
  first-some,
}
use campo_sig.Common.Members.{first-mem, first-none-mem}
use campo_sig.WorkOrders.Store.{WorkOrder}
use campo_sig.Outages.Rows.{
  request_id, OutageRequest, OutageState, requested, approved, rejected, expired, returned, Desk,
}
use campo_sig.Outages.Reading.{
  is_in_force, outage_of, request_at, blocker_of, permit_blocker, permit_form,
}
use campo_sig.Common.Keyed.{IsKeyed}

-- The order is linked to a stored request that has a number and is in force.
pub record Permit (order : WorkOrder) (desk : Desk) : Type 0 where
  pub request : OutageRequest
  pub stored : Memᴰ request desk.requests
  pub linked : order.outage_request_id ≡ some request.id
  pub numbered : (n : String) × (request.number ≡ some n) × (n ≢ "")
  pub in_force : (request.state ≡ approved) ⊎ (request.state ≡ returned)

in_force-inv : (s : OutageState) → is_in_force s ≡ true → (s ≡ approved) ⊎ (s ≡ returned)
in_force-inv approved h = inl refl
in_force-inv returned h = inr refl
in_force-inv requested h = cc
in_force-inv rejected h = cc
in_force-inv expired h = cc

in_force-intro : (s : OutageState) → (s ≡ approved) ⊎ (s ≡ returned) → is_in_force s ≡ true
in_force-intro s (inl e) = rw e refl
in_force-intro s (inr e) = rw e refl

no_request : blocker_of none ≢ none
unfolding blocker_of
no_request h = cc

blocker_of_iff :
    (r : OutageRequest)
    → (blocker_of (some r) ≡ none) ↔ ((truthy r.number ≡ true) × (is_in_force r.state ≡ true))
unfolding blocker_of
blocker_of_iff r = ground arith

-- A column of text that is neither missing nor empty.
truthy_iff :
    (text : Option String) → (truthy text ≡ true) ↔ ((n : String) × (text ≡ some n) × (n ≢ ""))
unfolding truthy
truthy_iff none = ((λ h. cc), (λ (n, e, _). cc))
truthy_iff (some s) = elim (Bool-cases (str_eq s "")) [
  | inl t ↦ (
    (λ h. absurd (false≢true (rw t at h))),
    λ (n, e, other). let same : s ≡ n = cc in absurd (other (sym same ∙ (eq_iff s "").0 t)),
  )
  | inr f ↦ ((λ h. (s, refl, λ e. false≢true (sym f ∙ (eq_iff s "").1 e))), (λ p. rw f refl))
]

module _ (order : WorkOrder) (desk : Desk) (next_id : ℕ)
    (table : IsKeyed request_id desk.requests next_id) where
  -- `session.get` finds the row with the identifier.
  request_at-stored :
      (r : OutageRequest) → Memᴰ r desk.requests → request_at (some r.id) desk ≡ some r
  unfolding request_at
  request_at-stored r m =
      let p = λ (x : OutageRequest). x.id == r.id in
      elim (Option-cases (first p desk.requests)) [
        | inl e ↦ absurd (cc (first-none-mem p desk.requests r e m, ==_refl r.id))
        | inr (x, e) ↦
            let same = (==_iff x.id r.id).0 (first-some p desk.requests x e) in
            e ∙ ap some (table.keyed x r (first-mem p desk.requests x e) m same)
      ]

  -- The blocker is that of the request that the order is linked to.
  permit_blocker-stored :
      (r : OutageRequest)
      → Memᴰ r desk.requests
      → order.outage_request_id ≡ some r.id
      → permit_blocker order permit_form desk ≡ blocker_of (some r)
  unfolding permit_blocker outage_of
  permit_blocker-stored r m linked =
      ap blocker_of (ap (λ id. request_at id desk) linked ∙ request_at-stored r m)

  -- A request that lets the form open is stored, with a number and in force.
  found_request :
      permit_blocker order permit_form desk ≡ none
      → (r : OutageRequest) × Memᴰ r desk.requests
        × (order.outage_request_id ≡ some r.id)
        × (blocker_of (some r) ≡ none)
  unfolding permit_blocker outage_of request_at
  found_request free = elim (Option-cases order.outage_request_id) [
    | inl e ↦ let h : blocker_of none ≡ none = rw e at free in absurd (no_request h)
    | inr (id, e) ↦
        let p = λ (x : OutageRequest). x.id == id in
        elim (Option-cases (first p desk.requests)) [
          | inl f ↦ let h : blocker_of none ≡ none = rw (e, f) at free in absurd (no_request h)
          | inr (r, f) ↦
              let same = (==_iff r.id id).0 (first-some p desk.requests r f) in
              (r, first-mem p desk.requests r f, e ∙ ap some (sym same), (rw (e, f) at free))
        ]
  ]

  -- Where the requests have one row for an identifier: the permit form of any order, under any
  -- state of its request, opens exactly if the order is linked to a stored request that has a number
  -- that is not empty and is approved or handed back.
  pub permit_blocker_iff : permit_blocker order permit_form desk ≡ none ↔ Permit order desk
  permit_blocker_iff = (
    λ free.
        let (r, m, linked, clear) = found_request free in
        let (numbered, in_force) = (blocker_of_iff r).0 clear in
        record {
          request = r;
          stored = m;
          linked = linked;
          numbered = (truthy_iff r.number).0 numbered;
          in_force = in_force-inv r.state in_force;
        },
    λ p.
        permit_blocker-stored p.request p.stored p.linked
        ∙ (blocker_of_iff p.request).1
            ((truthy_iff p.request.number).1 p.numbered, in_force-intro p.request.state p.in_force),
  )
