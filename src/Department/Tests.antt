-- ===== src/Department/Tests.antt =====
-- A tenant with three departments, and another with one: requests on them, and the theorems there.
use text.Mathlib.Text.{◌==◌ as str_eq}
use hr_saas_platform.Shared.{
  rendered, suc, ℕ, String, Bool, true, false, ◌≤◌, ◌<◌, ◌≡◌, ◌≢◌, refl, Option, none, some, List,
  [], ◌∷◌, Memᴰ, arith, ◌↔◌, All, All-Memᴰ,
}
use hr_saas_platform.Shared.Table.{count_where, select, find_first}
use hr_saas_platform.Exceptions.{department_circular_reference}
use hr_saas_platform.Database.{Database, Department, empty}
use hr_saas_platform.Service.{ok, err, hang, Context, current_tenant_id, emit_async, ◌>>=◌}
use hr_saas_platform.Department.Repository.{
  apply_patch, count_active_children, find_by_id, find_all_for_tenant, update,
}
use hr_saas_platform.Department.Hierarchy.{Descends, self, child, IsForest}
use hr_saas_platform.Department.Consistency.{IsConsistent, HasParent}
use hr_saas_platform.Department.Subtree.{find_subtree_ids, traverse, children_map}
use hr_saas_platform.Department.Subtree.Walk.{count}
use hr_saas_platform.Department.Subtree.Correct.{find_subtree_ids_correct}
use hr_saas_platform.Department.Subtree.Cycle.{find_subtree_ids_cycle}
use hr_saas_platform.Department.Operations.{
  deactivate_department, emit, require, update_department, update_or_throw,
}
use hr_saas_platform.Department.Operations.Moves.{
  update_department-below, update_department-other_spelling,
}
use hr_saas_platform.Department.Requests.{
  Request, create, deactivate, deactivate_counted, handle, IsRequest, start, step,
}
use hr_saas_platform.Department.Requests.Deactivation.{handle-deactivate}
use hr_saas_platform.Employee.Facade.{count_active_in_department}
use hr_saas_platform.Department.Requests.Invariant.{handle-IsConsistent, Reaches-IsConsistent}
use hr_saas_platform.Department.Requests.Isolation.{handle-find_all_others}

abbrev department : ℕ → ℕ → String → Option ℕ → Bool → Department
department id tenant name parent active = record {
  id = id;
  tenant_id = tenant;
  name = name;
  parent_id = parent;
  manager_employee_id = none;
  is_active = active;
  created_at = 0;
  updated_at = 0;
}

abbrev engineering : Department
engineering = department 10 1 "Engineering" none true

abbrev platform : Department
platform = department 11 1 "Platform" (some 10) true

abbrev archive : Department
archive = department 12 1 "Archive" (some 11) false

abbrev sales : Department
sales = department 20 2 "Sales" none true

abbrev rows : List Department
rows = engineering ∷ platform ∷ archive ∷ sales ∷ []

abbrev closed : Department
closed = record platform { is_active = false; updated_at = 5 }

abbrev db : Database
db = record empty { departments = rows }

abbrev ctx : Context
ctx = record { tenant_id = some 1; now = 5; uuid = λ n. n }

rows-IsForest : IsForest (find_all_for_tenant 1 rows)
unfolding find_all_for_tenant select count_where
rows-IsForest = record {
  unique = λ x. ground arith;
  rank = λ x. x;
  ranked = (λ p e. absurd (cc e), (λ p e. ground arith, (λ p e. ground arith, tt)));
}

abbrev Holds : Department → Type 0
Holds d =
    d.tenant_id ≡ 1 → HasParent 1 rows d × (d.is_active ≡ false → d.manager_employee_id ≡ none)

rows-Holds : All Holds rows
unfolding find_by_id find_first
rows-Holds = (
  λ here. (λ p up. absurd (cc up), λ idle. refl),
  (
    λ here.
        (λ p up. let same : p ≡ 10 = cc up in (engineering, rw same refl, λ _. refl), λ idle. refl),
    (
      λ here.
          (λ p up. let same : p ≡ 11 = cc up in (platform, rw same refl, λ _. refl), λ idle. refl),
      (λ here. absurd (ground arith), tt),
    ),
  ),
)

rows-IsConsistent : IsConsistent 1 rows
rows-IsConsistent = record {
  forest = rows-IsForest;
  parents = λ d m here. (All-Memᴰ Holds rows rows-Holds m here).0;
  managers = λ d m here. (All-Memᴰ Holds rows rows-Holds m here).1;
}

abbrev security : Request
security = create (record { name = "Security"; parent_id = some 10 })

db-IsRequest : IsRequest str_eq 1 ctx db security
unfolding find_by_id find_first
db-IsRequest = record { as_rendered = tt; of_tenant = refl; fresh = refl }

handle-IsConsistent_example :
    ((handle str_eq ctx 7 security db).0 ≢ hang)
    × IsConsistent 1 (handle str_eq ctx 7 security db).1.departments
handle-IsConsistent_example =
    handle-IsConsistent str_eq 1 7 ctx security db rows-IsConsistent db-IsRequest

Reaches-IsConsistent_example : IsConsistent 1 (handle str_eq ctx 7 security db).1.departments
Reaches-IsConsistent_example =
    Reaches-IsConsistent str_eq 1 {before = db} rows-IsConsistent
      (step {db = db} ctx 7 security start db-IsRequest)

handle-find_all_others_example :
    find_all_for_tenant 2 (handle str_eq ctx 7 security db).1.departments
    ≡ find_all_for_tenant 2 rows
handle-find_all_others_example =
    handle-find_all_others str_eq 1 2 7 ctx security db (λ e. absurd (ground arith)) refl

find_subtree_ids_correct_example :
    (ids : List ℕ) × (find_subtree_ids 10 1 rows ≡ some ids)
    × ((x : ℕ) → (0 < count x ids) ↔ Descends (find_all_for_tenant 1 rows) 10 x)
    × ((x : ℕ) → count x ids ≤ 1)
find_subtree_ids_correct_example = find_subtree_ids_correct 10 1 rows rows-IsForest

below : Descends (find_all_for_tenant 1 rows) 10 11
unfolding find_all_for_tenant select
below = child platform self (Memᴰ.tail (Memᴰ.head refl)) refl refl

update_department-below_example :
    update_department str_eq ctx
      (rendered 10)
      (record { name = none; parent_id = some (some (rendered 11)) })
      7
      db
    ≡ (err (department_circular_reference 10 11), db)
unfolding find_by_id find_first
update_department-below_example =
    update_department-below str_eq ctx 1 10 11 7 {dept = engineering} db refl rows-IsConsistent refl
      (platform, refl, refl) below

-- Two departments that are each other's parent.
abbrev looped : List Department
looped = department 1 1 "A" (some 2) true ∷ department 2 1 "B" (some 1) true ∷ []

find_subtree_ids_cycle_example :
    (find_subtree_ids 1 1 looped ≡ none)
    × ((fuel : ℕ) → traverse fuel (children_map (find_all_for_tenant 1 looped)) (1 ∷ []) [] ≡ none)
unfolding find_all_for_tenant select
find_subtree_ids_cycle_example =
    find_subtree_ids_cycle 1 1 looped (department 2 1 "B" (some 1) true)
      (Memᴰ.tail (Memᴰ.head refl)) refl
      (child (department 1 1 "A" (some 2) true) self (Memᴰ.head refl) refl refl)

-- Platform has no active child and no employee.
deactivation_runs : (handle str_eq ctx 7 (deactivate 11) db).0 ≡ ok closed
unfolding handle deactivate_counted deactivate_department require update_or_throw emit update
    find_by_id find_first count_active_children count_active_in_department count_where apply_patch
    current_tenant_id emit_async ◌>>=◌
deactivation_runs = refl

handle-deactivate_example :
    (count_active_children 11 1 rows ≡ 0) × (count_active_in_department 11 1 [] ≡ 0)
handle-deactivate_example =
    handle-deactivate str_eq ctx 1 11 7 db {row = closed} refl deactivation_runs

update_department-other_spelling_example :
    let out =
      update_department str_eq ctx
        (rendered 10)
        (record { name = none; parent_id = some (some (record { uuid = 11; spelling = suc 0 })) })
        7
        db in
    (row : Department) × (out.0 ≡ ok row)
    × (row.id ≡ 10)
    × (row.parent_id ≡ some 11)
    × (find_by_id 10 1 out.1.departments ≡ some row)
    × Descends (find_all_for_tenant 1 out.1.departments) 10 11
unfolding find_by_id find_first
update_department-other_spelling_example =
    update_department-other_spelling str_eq ctx 1 10 11 0 7 {dept = engineering} db refl
      rows-IsConsistent refl (platform, refl, refl) below
