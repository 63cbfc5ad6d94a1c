-- ===== src/Auth/Policy.antt =====
-- backend/auth/permissions.ts and policies.ts: the permission matrix and `can`.
pub mod Laws
use restaurant_pos.Base.{ℕ, Bool, false, true, ◌&&◌, List, [], ◌∷◌, Option, ◌==◌, some_of}

pub data UserStatus : Type 0 where
  active inactive : UserStatus

-- `Actions`
pub data Action : Type 0 where
  create_order edit_order void_prepared_items adjust_stock mark_debt view_bill close_bill : Action
  view_reports view_financial_reports view_employee_performance_reports view_void_reports : Action
  view_inventory_cost_reports view_sales_history view_audit manage_menu manage_staff : Action
  manage_system transition_order_status : Action

pub data Role : Type 0 where
  superadmin cashier waitstaff kitchen bar shift_lead inventory_clerk financial_analyst : Role
  operations_analyst loss_prevention inventory_accountant manager admin : Role
  other : ℕ → Role

-- `Object.values(Actions)`
abbrev pub all_actions : List Action
all_actions =
    create_order ∷ edit_order ∷ void_prepared_items ∷ adjust_stock ∷ mark_debt ∷ view_bill
    ∷ close_bill ∷ view_reports ∷ view_financial_reports ∷ view_employee_performance_reports
    ∷ view_void_reports ∷ view_inventory_cost_reports ∷ view_sales_history ∷ view_audit
    ∷ manage_menu ∷ manage_staff ∷ manage_system ∷ transition_order_status ∷ []

-- `RolePermissions[role] ?? []`
unfoldable pub role_permissions : Role → List Action
role_permissions superadmin = all_actions
role_permissions cashier =
    create_order ∷ edit_order ∷ view_bill ∷ mark_debt ∷ close_bill ∷ view_sales_history
    ∷ transition_order_status ∷ []
role_permissions waitstaff = create_order ∷ edit_order ∷ view_bill ∷ transition_order_status ∷ []
role_permissions kitchen = transition_order_status ∷ []
role_permissions bar = transition_order_status ∷ []
role_permissions shift_lead =
    create_order ∷ edit_order ∷ adjust_stock ∷ view_bill ∷ mark_debt ∷ close_bill
    ∷ transition_order_status ∷ []
role_permissions inventory_clerk = adjust_stock ∷ []
role_permissions financial_analyst = view_financial_reports ∷ []
role_permissions operations_analyst = view_employee_performance_reports ∷ []
role_permissions loss_prevention = view_void_reports ∷ []
role_permissions inventory_accountant = view_inventory_cost_reports ∷ []
role_permissions manager =
    void_prepared_items ∷ create_order ∷ edit_order ∷ adjust_stock ∷ view_bill ∷ mark_debt
    ∷ close_bill ∷ view_reports ∷ view_financial_reports ∷ view_employee_performance_reports
    ∷ view_void_reports ∷ view_inventory_cost_reports ∷ view_sales_history ∷ view_audit
    ∷ manage_menu ∷ manage_staff ∷ transition_order_status ∷ []
role_permissions admin =
    create_order ∷ edit_order ∷ adjust_stock ∷ view_bill ∷ mark_debt ∷ close_bill ∷ view_reports
    ∷ view_financial_reports ∷ view_employee_performance_reports ∷ view_void_reports
    ∷ view_inventory_cost_reports ∷ view_sales_history ∷ view_audit ∷ manage_menu ∷ manage_staff
    ∷ transition_order_status ∷ []
role_permissions (other _) = []

-- `role` is one string or a list of them: one string is the list of it.
pub record User : Type 0 where
  pub id : ℕ
  pub branch : Option ℕ
  pub roles : List Role
  pub status : UserStatus

abbrev action_number : Action → ℕ
action_number create_order = 0
action_number edit_order = 1
action_number void_prepared_items = 2
action_number adjust_stock = 3
action_number mark_debt = 4
action_number view_bill = 5
action_number close_bill = 6
action_number view_reports = 7
action_number view_financial_reports = 8
action_number view_employee_performance_reports = 9
action_number view_void_reports = 10
action_number view_inventory_cost_reports = 11
action_number view_sales_history = 12
action_number view_audit = 13
action_number manage_menu = 14
action_number manage_staff = 15
action_number manage_system = 16
action_number transition_order_status = 17

abbrev pub is_active : UserStatus → Bool
is_active active = true
is_active inactive = false

-- `isUserActive`, on a user that is there
unfoldable pub is_user_active : User → Bool
is_user_active u = is_active u.status

-- `permissions.includes(action)`
unfoldable pub grants : Role → Action → Bool
unfolding role_permissions
grants r a = some_of (λ b. action_number b == action_number a) (role_permissions r)

unfoldable pub has_permission : User → Action → Bool
has_permission u a = some_of (λ r. grants r a) u.roles

unfoldable pub can : User → Action → Bool
unfolding is_user_active has_permission
can u a = is_user_active u && has_permission u a
