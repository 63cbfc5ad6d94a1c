-- ===== src/Store.antt =====
-- The shared state of the services, an operation on it, and `withOperationalWrite` of
-- backend/db/operationalWrite.ts. The in-memory repositories are modelled: each is a field here. An
-- operation that throws keeps what it wrote so far, until `operational_write` puts back the
-- repositories. Every write runs alone, since `withOperationalWrite` serializes the callbacks.
pub mod Kept
use restaurant_pos.Base.{ℕ, Option, List, ◌≡◌, refl}
use restaurant_pos.Base.Table.{Table}
use restaurant_pos.Base.Result.{Error, Result, ok, err}
use restaurant_pos.Billing.Types.{Bill, DebtEntry}
use restaurant_pos.Orders.Types.{Order}
use restaurant_pos.Tables.Types.{DiningTable, TableSession}
use restaurant_pos.Kds.Types.{ItemState, HistoryRow}
use restaurant_pos.Inventory.Types.{Stock}

-- The actions of the billing audit and of the audit log that the modelled operations record.
pub data AuditAction : Type 0 where
  bill_generated bill_tax_mode_changed bill_promotions_applied bill_split_items_updated :
      AuditAction
  bill_splits_merged bill_voided cash_drawer_opened split_payment_recorded : AuditAction
  split_payment_refunded split_payment_voided debt_settlement_recorded tax_toggled : AuditAction
  discount_applied debt_created payment_refunded payment_voided debt_settled : AuditAction
  order_edited order_cancelled item_removed stock_adjusted table_transferred : AuditAction
  menu_bulk_import : AuditAction

-- An entry names the action, the actor, the session, order or item it is about, and the amount.
pub record AuditEntry : Type 0 where
  pub action : AuditAction
  pub actor : Option ℕ
  pub subject : ℕ
  pub amount : ℕ
  pub at : ℕ

pub record Store : Type 0 where
  pub bills : Table Bill
  pub debts : List DebtEntry
  pub billing_audit : List AuditEntry
  pub audit : List AuditEntry
  pub orders : Table Order
  pub tables : Table DiningTable
  pub sessions : Table TableSession
  pub kds_items : List ItemState
  pub kds_history : List HistoryRow
  pub stock : Stock

abbrev pub M : Type 0 → Type 0
M A = Store → Result A × Store

module _ {A : Type 0} where
  abbrev pub pure : A → M A
  pure a s = (ok a, s)

  abbrev pub throw : Error → M A
  throw e s = (err e, s)

  abbrev pub gets : (Store → A) → M A
  gets f s = (ok (f s), s)

  abbrev pub lift : Result A → M A
  lift r s = (r, s)

infixl 5 ◌>>=◌ ◌>>◌
abbrev pub ◌>>=◌ : {A B : Type 0} → M A → (A → M B) → M B
◌>>=◌ m f s = let (r, s') = m s in elim r [ ok a ↦ f a s' | err e ↦ (err e, s') ]

abbrev pub ◌>>◌ : {A B : Type 0} → M A → M B → M B
m >> k = m >>= λ _. k

abbrev pub modify : (Store → Store) → M (Unit {0})
modify f s = (ok tt, f s)

-- What `rollback` does to the repositories when the callback throws.
abbrev after {ℓ} : {A : Type ℓ} → Store → Result A × Store → Result A × Store
after before (ok a, s) = (ok a, s)
after before (err e, s) = (err e, before)

unfoldable pub operational_write : {A : Type 0} → M A → M A
operational_write m s = after s (m s)

-- Inversion of a successful bind.
pub >>=-eq-ok :
    {A B : Type 0} (m : M A) (f : A → M B) (s s' : Store) (b : B)
    → (m >>= f) s ≡ (ok b, s')
    → (a : A) × (t : Store) × (m s ≡ (ok a, t)) × (f a t ≡ (ok b, s'))
>>=-eq-ok {A} {B} m f s s' b h = go (m s) refl h
  where
    go :
        (r : Result A × Store)
        → m s ≡ r
        → (elim r.0 [ ok a ↦ f a r.1 | err e ↦ (err e, r.1) ]) ≡ (ok b, s')
        → (a : A) × (t : Store) × (m s ≡ (ok a, t)) × (f a t ≡ (ok b, s'))
    go (ok a, t) e k = (a, t, e, k)
    go (err x, t) e k = cc

-- A step that succeeds goes on, one that fails stops there.
pub >>-ok :
    {A B : Type 0} (m : M A) (k : M B) (s : Store) (a : A) → (m s).0 ≡ ok a → (m >> k) s ≡ k (m s).1
>>-ok m k s a e = cc

pub >>-err :
    {A B : Type 0} (m : M A) (k : M B) (s : Store) (x : Error)
    → (m s).0 ≡ err x
    → (m >> k) s ≡ (err x, (m s).1)
>>-err m k s x e = cc
