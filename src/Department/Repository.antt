-- ===== src/Department/Repository.antt =====
-- DepartmentRepository (src/modules/department/repositories/department.repository.ts).
-- `ilike` is PostgreSQL's operator of that name, a parameter.
use mathlib.Core.Option
use text.Mathlib.Text.{◌==◌ as str_eq}
use hr_saas_platform.Shared.{
  ℕ, String, ◌==◌, ◌=?=◌, if◌then◌else◌, Bool, false, not, ◌&&◌, Option, none, some, List,
}
use hr_saas_platform.Shared.Table.{
  find_first, exists_where, select, update_where, count_where, insert,
}
use hr_saas_platform.Exceptions.{unique_violation}
use hr_saas_platform.Database.{Department}
use hr_saas_platform.Service.{ok, err, Action, modify}

-- WHERE id = … AND tenant_id = …
abbrev pub has_id : ℕ → ℕ → Department → Bool
has_id id tenant d = d.id == id && d.tenant_id == tenant

abbrev pub in_tenant : ℕ → Department → Bool
in_tenant tenant d = d.tenant_id == tenant

unfoldable pub find_by_id : ℕ → ℕ → List Department → Option Department
find_by_id id tenant = find_first (has_id id tenant)

-- `ne(departments.id, excludeId)`, if there is an `excludeId`
abbrev pub is_excluded : Option ℕ → Department → Bool
is_excluded none d = false
is_excluded (some id) d = d.id == id

unfoldable pub find_by_name :
    (String → String → Bool) → String → ℕ → Option ℕ → List Department → Option Department
find_by_name ilike name tenant exclude =
    find_first (λ d. in_tenant tenant d && (ilike d.name name && not (is_excluded exclude d)))

-- The order by name is left out.
unfoldable pub find_all_for_tenant : ℕ → List Department → List Department
find_all_for_tenant tenant = select (in_tenant tenant)

abbrev pub is_child_of : ℕ → ℕ → Department → Bool
is_child_of parent tenant d = in_tenant tenant d && d.parent_id =?= some parent

unfoldable pub find_children : ℕ → ℕ → List Department → List Department
find_children parent tenant = select (is_child_of parent tenant)

abbrev pub is_active_child_of : ℕ → ℕ → Department → Bool
is_active_child_of parent tenant d = is_child_of parent tenant d && d.is_active

unfoldable pub count_active_children : ℕ → ℕ → List Department → ℕ
count_active_children parent tenant = count_where (is_active_child_of parent tenant)

-- The unique index on (tenant_id, name).
abbrev pub name_taken : ℕ → String → List Department → Bool
name_taken tenant name = exists_where (λ d. d.tenant_id == tenant && str_eq d.name name)

unfoldable pub create : Department → Action Department
create row db =
    if name_taken row.tenant_id row.name db.departments
    then (err unique_violation, db)
    else (ok row, record db { departments = insert row db.departments })

-- Partial<Omit<NewDepartment, 'id' | 'tenantId'>>: the columns to set.
pub record Patch : Type 0 where
  pub name : Option String
  pub parent_id : Option (Option ℕ)
  pub manager_employee_id : Option (Option ℕ)
  pub is_active : Option Bool

abbrev pub no_change : Patch
no_change = record { name = none; parent_id = none; manager_employee_id = none; is_active = none }

abbrev pub set_or : {A : Type 0} → Option A → A → A
set_or none old = old
set_or (some new) old = new

unfoldable pub apply_patch : ℕ → Patch → Department → Department
apply_patch now p d = record d {
  name = set_or p.name d.name;
  parent_id = set_or p.parent_id d.parent_id;
  manager_employee_id = set_or p.manager_employee_id d.manager_employee_id;
  is_active = set_or p.is_active d.is_active;
  updated_at = now;
}

-- The unique index on (tenant_id, name), where another row has the name that is set.
abbrev pub rename_taken : ℕ → ℕ → Option String → List Department → Bool
rename_taken id tenant none rows = false
rename_taken id tenant (some name) rows =
    exists_where (λ d. not (d.id == id) && (d.tenant_id == tenant && str_eq d.name name)) rows

unfoldable pub update : ℕ → ℕ → ℕ → Patch → Action (Option Department)
unfolding find_by_id
update now id tenant patch db =
    if rename_taken id tenant patch.name db.departments then (err unique_violation, db) else (
      ok (Option.map (apply_patch now patch) (find_by_id id tenant db.departments)),
      record db {
        departments = update_where (has_id id tenant) (apply_patch now patch) db.departments;
      },
    )

-- WHERE tenant_id = … AND manager_employee_id = …
abbrev pub is_managed_by : ℕ → ℕ → Department → Bool
is_managed_by employee tenant d = in_tenant tenant d && d.manager_employee_id =?= some employee

unfoldable pub clear_manager : ℕ → ℕ → ℕ → Action (Unit {0})
clear_manager now employee tenant = modify λ db. record db {
  departments =
      update_where (is_managed_by employee tenant)
        (apply_patch now (record no_change { manager_employee_id = some none })) db.departments;
}
