-- ===== src/Billing/Devices.antt =====
-- The devices that billing calls: the payment terminal and the cash drawer. An adapter is installed
-- at run time (backend/integrations/paymentTerminal.ts, backend/hardware/cashDrawer.ts), so it is a
-- parameter; `simulator` is the adapter that the program installs by default.
use restaurant_pos.Base.{ℕ, Option, some}
use restaurant_pos.Billing.Types.{PaymentMethod, SplitLabel, Reference}

-- `PaymentTerminalContext` with its amount; `payment` is the fresh id in the idempotency key.
pub record Request : Type 0 where
  pub amount : ℕ
  pub method : PaymentMethod
  pub session : ℕ
  pub label : SplitLabel
  pub bill : ℕ
  pub actor : ℕ
  pub payment : ℕ

-- What a device answers: an id, and the time that it reports.
pub record Answer : Type 0 where
  pub id : ℕ
  pub at : ℕ

-- Each call answers `none` when it is declined, fails or throws; an authorization has no time.
pub record Devices : Type 0 where
  pub authorize : Request → Option ℕ
  pub capture : Request → ℕ → Option Answer
  pub refund : Request → ℕ → Option Answer
  pub void_payment : Request → Option ℕ → Option Answer
  pub open_drawer : Request → Option Answer

abbrev answer_at : ℕ → Request → Answer
answer_at now r = record { id = r.payment; at = now }

-- `SimulatorPaymentTerminalAdapter` and the simulated drawer: every call succeeds, under an id made
-- from the idempotency key and at the time of the clock.
abbrev pub simulator : ℕ → Devices
simulator now = record {
  authorize = λ r. some r.payment;
  capture = λ r a. some (answer_at now r);
  refund = λ r c. some (answer_at now r);
  void_payment = λ r c. some (answer_at now r);
  open_drawer = λ r. some (answer_at now r);
}

-- A payment that was taken or given back: the reference of an external one, and its time.
pub record Taken : Type 0 where
  pub reference : Option Reference
  pub at : ℕ
