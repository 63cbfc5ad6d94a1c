-- ===== src/Lib.antt =====
-- The point-of-sale backend of RestaurantPOS: bills and their payments, orders, tables, the menu, the
-- kitchen display, stock, settings, users and access control, the replay of requests and the merge of
-- menu versions, with the properties that make them correct.
--
-- How the parts interact. A waiter opens a session on a table (Tables) and takes orders (Orders), whose
-- items are built from the menu (Menu); they appear on the kitchen's board (Kds) and draw on the stock
-- when they move on (Inventory). A bill (Billing) is made from the session's items, dealt to three
-- splits A, B and C; its promotions, tax and service charge are computed once for the whole bill and
-- allocated to the splits; payments, refunds, voids and debts are entries of a split. A session moves
-- to another table with its orders and its bill, and closes when its orders are final and its bill is
-- paid, void or in debt. Every operation checks the user's permissions (Auth); users and their
-- passwords are kept by Users, whose changes revoke login sessions. The menu is edited at the till,
-- by a bulk import, which also adds preparation stations to the settings (Settings), and by the cloud
-- (Sync). Bills, orders, tables, board and stock share one state, `Store`, and run in the monad `M` of
-- functions on it that may fail. All is called through the server, which answers a repeated request
-- from a record (Http).
--
-- Files and code:
--   Base        numbers, lists, maps, texts and errors that the other files share
--   Money       backend/billing/service.ts: round2, capDiscount, allocateAmount
--   Billing     backend/billing/service.ts and repository.ts: Lines (calculateLineItem), Pricing
--               (normalizePricing, computePromotionDiscount), Splits (applyBillLevelPricing), Update
--               (updateBillStateAndBreakdown, mergeBreakdowns, assertBillEditable), Access
--               (assertSessionItemAssignments), Payments (recordSplitPayment, refundSplitPayment,
--               voidSplitPayment, settleDebt; Effect: what each leaves in the bill), Editing
--               (generateBillFromSessionItems, setBillTaxMode, applyBillPromotions, setBillCharges,
--               updateBillSplitItems, mergeBillSplits, voidBill, removeVoidedBillItem,
--               transferUnpaidBill), Devices (the terminal and the drawer)
--   Orders      backend/orders: Update (updateOrderWithVersionCheck), Build (buildOrderItemFromMenu),
--               Create (createOrderDraft), Edit (editOrderBeforePayment), Transition
--               (transitionOrderStatus), Deduct (deductInventoryForOrder), Cancel (cancelOrder,
--               voidOrderItem), Prices/Runs (runs of these operations)
--   Tables      backend/tables: Sessions (openTableSession, closeTableSession, removeTable), Transfer
--               (transferTableSession), Floor (createTable, updateTable, listTableFloor)
--   Menu        backend/menu: Price (assertValidPrice), Repository, Admin and Items (the admin
--               operations on categories and items), Operations (runs of them), Bulk (bulkImport:
--               validateBulkUploadRows, previewBulkImport, confirmBulkImport, importRows)
--   Kds         backend/kds: Board (syncOrderIntoKds, updateKdsItemProgress), Snapshot
--               (getKdsSnapshot)
--   Inventory   backend/inventory: Ledger (appendStockMovement, getCurrentBalance, recipes, policies),
--               Master (createInventoryMasterItem, listInventoryWithBalances, listLowStockAlerts)
--   Settings    backend/config/posSettings.ts: Slug (slugifyStationId), Normalize (normalizePrinter,
--               normalizeTax, normalizeServiceCharge), Inherited (the names that a plain object has
--               from its prototype), Stations (normalizePrepStations, normalizePrinters,
--               normalizePrinterAssignments, updatePosOperationalSettings)
--   Users       backend/users and backend/auth/service.ts: Password (hashPassword, verifyPassword),
--               Repository (saveUser, getUserRecordByLogin), Service (createStaffProfile,
--               updateStaffProfile, deactivateUser, activateUser, loginWithPassword)
--   Auth        backend/auth: permissions.ts, policies.ts, middleware.ts, sessionRepository.ts
--   Sync        backend/sync/service.ts: compareMenuVersions, applyMenuVersion
--   Http        backend/server.ts: send, with backend/network-idempotency.ts
--   Store       the in-memory repositories, and withOperationalWrite of backend/db/operationalWrite.ts
--   Tests       runs at concrete inputs
--
-- Numbers. The program computes in floating point and rounds at each step; the model is exact. Money
-- is in cents, a raw amount before `round2` in tenths of a cent, a quantity in thousandths, a rate in
-- hundredths of a percent, a service charge rate in thousandths of a percent, a stock movement in
-- millionths of a unit. Amounts that may be negative are integers, and a subtraction that the code
-- keeps at zero or more is the truncated one of the natural numbers. A `??` is an Option. The one test
-- whose result hangs on the rounding of doubles, that of two decimal places of a price, is modelled on
-- doubles (Menu/Price): a product is rounded to 53 bits, ties to even.
--
-- Loops are structural recursions. `hand_out` of Money/Allocate recurs on the number of cents that
-- remain, as the loop of the source counts them. `doublings` and `halvings` of Menu/Price scale a number
-- into the 53 bits by at most 63 and 7 steps; Menu/Doubles shows that these are enough for every price
-- up to the maximum, which is checked before.
--
-- Identifiers, times and texts that are only compared or stored are numbers; a text whose characters
-- count is a list of them. A fresh id and the current time are arguments, and a device reports its own
-- time. Parameters are the devices (`Devices`), the hash functions of Node (`Hashes`, `Crypto`),
-- `toLowerCase` where texts are compared by it, the text of an id, the printers that the environment
-- configures and the order of `localeCompare` (`Locale`), and the handler that a request runs.
-- Repositories are the in-memory ones; a write under `withOperationalWrite` runs alone, as do
-- requests under one key.
--
-- Not modelled: the SQL repositories, HTTP parsing and routing, the frontend, hardware protocols,
-- translations and the localization of settings, the printed text of receipts, the outbox and the
-- batches of cloud synchronization, reports, the spreadsheet parser and the figures of an import
-- preview; of the kitchen display its performance metrics.
pub mod Base
pub mod Money
pub mod Auth
pub mod Billing
pub mod Orders
pub mod Tables
pub mod Kds
pub mod Inventory
pub mod Store
pub mod Menu
pub mod Settings
pub mod Users
pub mod Sync
pub mod Http
pub mod Tests
