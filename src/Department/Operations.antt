-- ===== src/Department/Operations.antt =====
-- DepartmentService (src/modules/department/services/department.service.ts). A response DTO is the
-- row that it is copied from; log lines are left out. `ilike` is PostgreSQL's operator.
pub mod Steps
pub mod Safety
pub mod Create
pub mod Update
pub mod Isolated
pub mod Moves
pub mod Deactivation
use mathlib.Core.Option
use mathlib.Core.List
use text.Mathlib.Text.{◌==◌ as str_eq}
use hr_saas_platform.Shared.{
  ℕ, ltb, String, ◌==◌, ◌=?=◌, if◌then◌else◌, Bool, true, false, not, ◌&&◌, Option, none, some,
  List, [], ◌∷◌, ◌++◌, UuidText, rendered, same_text, column_is, ◌≡◌,
}
use hr_saas_platform.Exceptions.{
  resource_not_found, resource_already_exists, operation_not_permitted,
  department_circular_reference, department_has_active_children, department_has_active_employees,
}
use hr_saas_platform.Events.{
  FieldChange, Payload, department_created, department_updated, department_deactivated, by,
}
use hr_saas_platform.Database.{Department}
use hr_saas_platform.Service.{
  Action, pure, gets, found_or, returned, throw_if, ◌>>=◌, ◌>>◌, Context, current_tenant_id,
  new_event, emit_async,
}
use hr_saas_platform.Department.Repository.{
  find_by_id, find_by_name, find_children, count_active_children, create, Patch, no_change, update,
}
use hr_saas_platform.Department.Subtree.{find_subtree_ids}

-- CreateDepartmentDto
pub record CreateDepartmentDto : Type 0 where
  pub name : String
  pub parent_id : Option ℕ

-- UpdateDepartmentDto: an outer `none` is a field that was not sent.
pub record UpdateDepartmentDto : Type 0 where
  pub name : Option String
  pub parent_id : Option (Option UuidText)

-- The parent that an update sends is written as the database renders it.
abbrev pub IsRenderedParent : Option (Option UuidText) → Type 0
IsRenderedParent (some (some parent)) = parent.spelling ≡ 0
IsRenderedParent _ = Unit

abbrev pub is_some : {A : Type 0} → Option A → Bool
is_some none = false
is_some (some a) = true

-- `ids.includes(id)`
abbrev pub includes : UuidText → List UuidText → Bool
includes id [] = false
includes id (x ∷ ids) = if same_text x id then true else includes id ids

unfoldable pub emit : Context → ℕ → ℕ → Payload → Action (Unit {0})
emit ctx tenant actor payload = emit_async ctx (new_event ctx (some tenant) (by actor) payload)

-- `findById`, or the exception where there is no row.
unfoldable pub require : ℕ → ℕ → Action Department
require id tenant = do
  found ← gets (λ db. find_by_id id tenant db.departments)
  found_or found (resource_not_found "Department" id)

-- `update`, or the exception where no row is returned.
unfoldable pub update_or_throw : Context → ℕ → ℕ → Patch → Action Department
update_or_throw ctx id tenant patch = do
  updated ← update ctx.now id tenant patch
  found_or updated (resource_not_found "Department" id)

pub validate_parent_department : ℕ → ℕ → Action (Unit {0})
validate_parent_department parent tenant = do
  found ← gets (λ db. find_by_id parent tenant db.departments)
  row ← found_or found (resource_not_found "Department (parent)" parent)
  throw_if (not row.is_active) (operation_not_permitted "set_parent_department")

abbrev pub validate_optional_parent : Option ℕ → ℕ → Action (Unit {0})
validate_optional_parent none tenant = pure tt
validate_optional_parent (some parent) tenant = validate_parent_department parent tenant

pub create_department :
    (String → String → Bool) → Context → CreateDepartmentDto → ℕ → Action Department
create_department ilike ctx dto created_by = do
  tenant ← current_tenant_id ctx
  existing ← gets (λ db. find_by_name ilike dto.name tenant none db.departments)
  throw_if (is_some existing) (resource_already_exists "Department" "name")
  validate_optional_parent dto.parent_id tenant
  row ← create (record {
    id = ctx.uuid 0;
    tenant_id = tenant;
    name = dto.name;
    parent_id = dto.parent_id;
    manager_employee_id = none;
    is_active = true;
    created_at = ctx.now;
    updated_at = ctx.now;
  })
  emit ctx tenant created_by (department_created row.id row.name row.parent_id)
  pure row

pub get_department_by_id : Context → ℕ → Action Department
get_department_by_id ctx id = do tenant ← current_tenant_id ctx; require id tenant

pub get_children : Context → ℕ → Action (List Department)
get_children ctx parent = do
  tenant ← current_tenant_id ctx
  require parent tenant
  gets (λ db. find_children parent tenant db.departments)

-- The name to set, if a new one was sent.
pub checked_name :
    (String → String → Bool) → ℕ → ℕ → Department → Option String → Action (Option String)
checked_name ilike id tenant dept none = pure none
checked_name ilike id tenant dept (some name) = if str_eq name dept.name then pure none else (do
  conflict ← gets (λ db. find_by_name ilike name tenant (some id) db.departments)
  throw_if (is_some conflict) (resource_already_exists "Department" "name")
  pure (some name))

-- `findSubtreeIds` of the department in the route. Its map of children has the ids as rendered, so
-- that it has no key of another spelling, and then the loop ends with the text itself.
unfoldable pub subtree_texts : UuidText → ℕ → List Department → Option (List UuidText)
subtree_texts id tenant rows =
    if id.spelling == 0
    then Option.map (List.map rendered) (find_subtree_ids id.uuid tenant rows)
    else some (id ∷ [])

-- A new parent that is not null: it must be valid, and its text no descendant's.
pub validate_new_parent : UuidText → UuidText → ℕ → Action (Unit {0})
validate_new_parent id new_parent tenant = do
  validate_parent_department new_parent.uuid tenant
  throw_if (same_text new_parent id) (department_circular_reference id.uuid new_parent.uuid)
  walk ← gets (λ db. subtree_texts id tenant db.departments)
  subtree_ids ← returned walk
  throw_if (includes new_parent subtree_ids) (department_circular_reference id.uuid new_parent.uuid)

-- The parent to set, if another one was sent. The database reads the UUID of its text.
pub checked_parent :
    UuidText → ℕ → Department → Option (Option UuidText) → Action (Option (Option ℕ))
checked_parent id tenant dept none = pure none
checked_parent id tenant dept (some none) =
    if dept.parent_id =?= none then pure none else pure (some none)
checked_parent id tenant dept (some (some new_parent)) =
    if column_is dept.parent_id new_parent
    then pure none
    else (do validate_new_parent id new_parent tenant; pure (some (some new_parent.uuid)))

abbrev name_change : Department → Option String → List FieldChange
name_change dept none = []
name_change dept (some name) = FieldChange.text "name" (some dept.name) (some name) ∷ []

abbrev parent_change : Department → Option (Option ℕ) → List FieldChange
parent_change dept none = []
parent_change dept (some parent) = FieldChange.key "parentId" dept.parent_id parent ∷ []

-- The event keeps the UUIDs, not their texts.
pub update_department :
    (String → String → Bool) → Context → UuidText → UpdateDepartmentDto → ℕ → Action Department
update_department ilike ctx id dto updated_by = do
  tenant ← current_tenant_id ctx
  dept ← require id.uuid tenant
  name ← checked_name ilike id.uuid tenant dept dto.name
  parent ← checked_parent id tenant dept dto.parent_id
  if not (is_some name) && not (is_some parent) then pure dept else do
    updated ←
        update_or_throw ctx id.uuid tenant (record no_change { name = name; parent_id = parent })
    emit ctx tenant updated_by
        (department_updated id.uuid (name_change dept name ++ parent_change dept parent))
    pure updated

pub assign_manager : Context → ℕ → ℕ → ℕ → Action Department
assign_manager ctx id employee updated_by = do
  tenant ← current_tenant_id ctx
  dept ← require id tenant
  throw_if (not dept.is_active) (operation_not_permitted "assign_manager")
  updated ←
      update_or_throw ctx id tenant
        (record no_change { manager_employee_id = some (some employee) })
  emit ctx tenant updated_by (
      department_updated id
        (FieldChange.key "managerEmployeeId" dept.manager_employee_id (some employee) ∷ []))
  pure updated

pub remove_manager : Context → ℕ → ℕ → Action Department
remove_manager ctx id updated_by = do
  tenant ← current_tenant_id ctx
  dept ← require id tenant
  if not (is_some dept.manager_employee_id) then pure dept else do
    updated ← update_or_throw ctx id tenant (record no_change { manager_employee_id = some none })
    emit ctx tenant updated_by (
        department_updated id
          (FieldChange.key "managerEmployeeId" dept.manager_employee_id none ∷ []))
    pure updated

unfoldable pub deactivate_department : Context → ℕ → ℕ → ℕ → Action Department
deactivate_department ctx id updated_by active_employee_count = do
  tenant ← current_tenant_id ctx
  dept ← require id tenant
  throw_if (not dept.is_active) (operation_not_permitted "deactivate_department")
  active_child_count ← gets (λ db. count_active_children id tenant db.departments)
  throw_if (ltb 0 active_child_count) (department_has_active_children id active_child_count)
  throw_if (ltb 0 active_employee_count) (department_has_active_employees id active_employee_count)
  updated ←
      update_or_throw ctx id tenant
        (record no_change { is_active = some false; manager_employee_id = some none })
  emit ctx tenant updated_by (department_deactivated id dept.name)
  pure updated

abbrev pub is_active_row : Option Department → Bool
is_active_row none = false
is_active_row (some d) = d.is_active

-- `if (dept.parentId)`: the parent must be there and active.
pub check_parent_active : Option ℕ → ℕ → Action (Unit {0})
check_parent_active none tenant = pure tt
check_parent_active (some parent) tenant = do
  found ← gets (λ db. find_by_id parent tenant db.departments)
  throw_if (not (is_active_row found)) (operation_not_permitted "reactivate_department")

pub reactivate_department : Context → ℕ → ℕ → Action Department
reactivate_department ctx id updated_by = do
  tenant ← current_tenant_id ctx
  dept ← require id tenant
  throw_if dept.is_active (operation_not_permitted "reactivate_department")
  check_parent_active dept.parent_id tenant
  updated ← update_or_throw ctx id tenant (record no_change { is_active = some true })
  emit ctx tenant updated_by (department_updated id (FieldChange.flag "isActive" false true ∷ []))
  pure updated
