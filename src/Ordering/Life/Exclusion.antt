-- ===== src/Ordering/Life/Exclusion.antt =====
-- The invariant of the payments and cancellations of one order, on the order's status and the waiting
-- requests, and what keeps it.
use go_order_management_syst.Prelude.{
  ℕ, ◌+◌, ◌≤◌, ◌<◌, ◌≡◌, sym, subst, ◌⊎◌, inl, inr, Bool, true, false, Option, some, suc, arith,
}
use go_order_management_syst.Ordering.Store.{
  OrderStatus, pending, paying, paid, finished, cancelling, cancelled, reconciliation_required,
}
use go_order_management_syst.Ordering.Life.Statements.{Either}
use go_order_management_syst.Ordering.Life.Steps.{Finished}

-- The states of an order whose reservation was confirmed, and of one whose reservation was released.
abbrev pub is_confirmed_state : Option OrderStatus → Bool
is_confirmed_state (some paying) = true
is_confirmed_state (some paid) = true
is_confirmed_state (some finished) = true
is_confirmed_state (some reconciliation_required) = true
is_confirmed_state _ = false

abbrev pub is_released_state : Option OrderStatus → Bool
is_released_state (some cancelling) = true
is_released_state (some cancelled) = true
is_released_state (some reconciliation_required) = true
is_released_state _ = false

-- The invariant, on the status of the order and the rest of the world.
pub record Exclusive (s : Option OrderStatus) (payments cancellations : ℕ)
    (confirmed released : Bool) : Type 0 where
  pub alone : payments + cancellations ≤ 1
  pub pays : 0 < payments → s ≡ some paying
  pub cancels : 0 < cancellations → s ≡ some cancelling
  pub confirms :
      confirmed ≡ true
      → (payments ≡ 0) × (cancellations ≡ 0) × (released ≡ false) × (is_confirmed_state s ≡ true)
  pub releases :
      released ≡ true
      → (payments ≡ 0) × (cancellations ≡ 0) × (confirmed ≡ false) × (is_released_state s ≡ true)

pub claims_payment :
    (s s' : Option OrderStatus) (p c : ℕ) (confirmed released : Bool)
    → Exclusive s p c confirmed released
    → s ≡ some pending
    → s' ≡ some paying
    → Exclusive s' (p + 1) c confirmed released
claims_payment s s' p c confirmed released h before after = record {
  alone = ground (arith, h.pays, h.cancels, h.alone);
  pays = λ _. after;
  cancels = ground (arith, h.cancels);
  confirms = ground (arith, h.confirms);
  releases = ground (arith, h.releases);
}

pub claims_cancellation :
    (s s' : Option OrderStatus) (p c : ℕ) (confirmed released : Bool)
    → Exclusive s p c confirmed released
    → s ≡ some pending
    → s' ≡ some cancelling
    → Exclusive s' p (c + 1) confirmed released
claims_cancellation s s' p c confirmed released h before after = record {
  alone = ground (arith, h.pays, h.cancels, h.alone);
  pays = ground (arith, h.pays);
  cancels = λ _. after;
  confirms = ground (arith, h.confirms);
  releases = ground (arith, h.releases);
}

-- The status does not change, and nothing else.
pub stays :
    (s s' : Option OrderStatus) (p c : ℕ) (confirmed released : Bool)
    → Exclusive s p c confirmed released
    → s' ≡ s
    → Exclusive s' p c confirmed released
stays s s' p c confirmed released h same =
    subst (λ x. Exclusive x p c confirmed released) (sym same) h

-- A payment ends: the answer of the inventory service decides what may follow.
pub confirms_now :
    (s s' : Option OrderStatus) (p c : ℕ) (confirmed released : Bool)
    → Exclusive s (suc p) c confirmed released
    → (s' ≡ some paid) ⊎ Either reconciliation_required paying s'
    → Exclusive s' p c true released
confirms_now s s' p c confirmed released h after = record {
  alone = ground (arith, h.alone);
  pays = ground (arith, h.alone);
  cancels = ground (arith, h.alone);
  confirms = ground (arith, h.alone, h.confirms, h.releases);
  releases = ground (arith, h.releases);
}

pub refuses_payment :
    (s s' : Option OrderStatus) (p c : ℕ) (confirmed released : Bool)
    → Exclusive s (suc p) c confirmed released
    → Either pending paying s'
    → Exclusive s' p c confirmed released
refuses_payment s s' p c confirmed released h after = record {
  alone = ground (arith, h.alone);
  pays = ground (arith, h.alone);
  cancels = ground (arith, h.alone);
  confirms = ground (arith, h.confirms);
  releases = ground (arith, h.releases);
}

pub releases_now :
    (s s' : Option OrderStatus) (p c : ℕ) (confirmed released : Bool)
    → Exclusive s p (suc c) confirmed released
    → (s' ≡ some cancelled) ⊎ Either reconciliation_required cancelling s'
    → Exclusive s' p c confirmed true
releases_now s s' p c confirmed released h after = record {
  alone = ground (arith, h.alone);
  pays = ground (arith, h.alone);
  cancels = ground (arith, h.alone);
  confirms = ground (arith, h.confirms);
  releases = ground (arith, h.alone, h.confirms, h.releases);
}

pub refuses_cancellation :
    (s s' : Option OrderStatus) (p c : ℕ) (confirmed released : Bool)
    → Exclusive s p (suc c) confirmed released
    → Either pending cancelling s'
    → Exclusive s' p c confirmed released
refuses_cancellation s s' p c confirmed released h after = record {
  alone = ground (arith, h.alone);
  pays = ground (arith, h.alone);
  cancels = ground (arith, h.alone);
  confirms = ground (arith, h.confirms);
  releases = ground (arith, h.releases);
}

pub finishes_now :
    (s s' : Option OrderStatus) (p c : ℕ) (confirmed released : Bool)
    → Exclusive s p c confirmed released
    → Finished s s'
    → Exclusive s' p c confirmed released
finishes_now s s' p c confirmed released h (inl same) = stays s s' p c confirmed released h same
finishes_now s s' p c confirmed released h (inr (before, after)) = record {
  alone = h.alone;
  pays = ground (arith, h.pays);
  cancels = ground (arith, h.cancels);
  confirms = ground (arith, h.confirms);
  releases = ground (arith, h.releases);
}

pub stops-Exclusive :
    (s : Option OrderStatus) (p c : ℕ) (confirmed released : Bool)
    → Exclusive s p c confirmed released
    → Exclusive s 0 0 confirmed released
stops-Exclusive s p c confirmed released h = record {
  alone = omega arith;
  pays = ground arith;
  cancels = ground arith;
  confirms = ground (arith, h.confirms);
  releases = ground (arith, h.releases);
}
