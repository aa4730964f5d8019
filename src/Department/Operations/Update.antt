-- ===== src/Department/Operations/Update.antt =====
-- `updateDepartment` keeps the invariant: a department moves under active departments of its tenant
-- that are not below it.
use mathlib.Core.List
use hr_saas_platform.Shared.{
  rendered, ℕ, String, Bool, false, not, ◌&&◌, ◌≡◌, refl, ap, ◌∙◌, Option, none, some, List, [],
  ◌∷◌, arith, inl, inr,
}
use hr_saas_platform.Shared.Table.{update_where}
use hr_saas_platform.Database.{Department}
use hr_saas_platform.Service.{Context}
use hr_saas_platform.Service.Ensures.{
  Ensures, Ensures-pure, Ensures-if, Ensures-bind, Ensures-weaken, Ensures-tenant,
}
use hr_saas_platform.Department.Repository.{
  has_id, find_by_id, find_all_for_tenant, Patch, no_change, apply_patch,
}
use hr_saas_platform.Department.Subtree.Walk.{count}
use hr_saas_platform.Department.Subtree.Correct.{find_subtree_ids_correct}
use hr_saas_platform.Department.Hierarchy.{IsForest}
use hr_saas_platform.Department.Forest.{update-IsForest, move-IsForest}
use hr_saas_platform.Department.Consistency.{
  IsConsistent, HasParent, Memᴰ_of_find_all, change-IsConsistent,
}
use hr_saas_platform.Department.Operations.{
  UpdateDepartmentDto, IsRenderedParent, includes, is_some, update_department,
}
use hr_saas_platform.Department.Operations.Steps.{
  Consistent, IsChecked, Ensures-require, Ensures-checked_name, Ensures-checked_parent,
}
use hr_saas_platform.Department.Operations.Safety.{
  own_parent, active_above, idle_row, Ensures-write,
}

-- An id that the array does not include does not occur in it.
count-includes :
    (x : ℕ) (ids : List ℕ) → includes (rendered x) (List.map rendered ids) ≡ false → count x ids ≡ 0
unfolding count
count-includes x [] out = refl
count-includes x (y ∷ ids) out = ground (arith, count-includes x ids)

module _ {tenant : ℕ} {rows : List Department} (h : IsConsistent tenant rows) (id : ℕ)
    {dept : Department} (found : find_by_id id tenant rows ≡ some dept) (now : ℕ)
    (name : Option String) where
  abbrev patch : Option (Option ℕ) → Patch
  patch parent = record no_change { name = name; parent_id = parent }

  moved_IsForest :
      (parent : Option (Option ℕ))
      → IsChecked id tenant rows parent
      → IsForest (
          update_where
            (has_id id tenant)
            (apply_patch now (patch parent))
            (find_all_for_tenant tenant rows))
  unfolding apply_patch
  moved_IsForest none checked =
      update-IsForest h.forest (has_id id tenant) (apply_patch now (patch none)) (λ d. refl)
        (λ d. inl refl)
  moved_IsForest (some none) checked =
      update-IsForest h.forest (has_id id tenant) (apply_patch now (patch (some none))) (λ d. refl)
        (λ d. inr refl)
  moved_IsForest (some (some parent)) (_, (ids, walked, out)) =
      let (ids', walked', members, _) = find_subtree_ids_correct id tenant rows h.forest in
      let same : ids' ≡ ids = cc (walked, walked') in
      move-IsForest h.forest (has_id id tenant) (apply_patch now (patch (some (some parent))))
        (λ d. refl) id parent ids' members (ap (count parent) same ∙ count-includes parent ids out)
        (λ d. refl)
        (λ d m.
          let (n, t) = Memᴰ_of_find_all tenant rows m in (λ hit. ground arith, λ e. ground arith))

  new_parent :
      (parent : Option (Option ℕ))
      → IsChecked id tenant rows parent
      → HasParent tenant rows (apply_patch now (patch parent) dept)
  unfolding apply_patch
  new_parent none checked p up = own_parent h id found p up
  new_parent (some none) checked p up = absurd (cc up)
  new_parent (some (some parent)) ((e, e_found, active), _) p up =
      (e, ap (λ x. find_by_id x tenant rows) (cc up) ∙ e_found, λ _. active)

  moved-IsConsistent :
      (parent : Option (Option ℕ))
      → IsChecked id tenant rows parent
      → IsConsistent tenant (update_where (has_id id tenant) (apply_patch now (patch parent)) rows)
  unfolding apply_patch
  moved-IsConsistent parent checked =
      change-IsConsistent id tenant rows h found (apply_patch now (patch parent)) (λ d. refl)
        (λ d. refl) (moved_IsForest parent checked) (new_parent parent checked)
        (active_above h id found) (idle_row h id found)

module _ (tenant : ℕ) (ctx : Context) (here : ctx.tenant_id ≡ some tenant) where
  pub update_department-Ensures :
      (ilike : String → String → Bool) (id : ℕ) (dto : UpdateDepartmentDto) (actor : ℕ)
      → IsRenderedParent dto.parent_id
      → Ensures
          (Consistent tenant)
          (λ _. Unit {0})
          (update_department ilike ctx (rendered id) dto actor)
          (λ _ _. Unit {0})
  unfolding update_department
  update_department-Ensures ilike id dto actor lower = Ensures-tenant ctx _ here (
      Ensures-bind _ _ (Ensures-require tenant id) λ dept.
        Ensures-bind _ _ (Ensures-checked_name tenant ilike id dept dto.name) λ name.
          Ensures-bind _ _ (Ensures-checked_parent tenant id dept dto.parent_id lower) λ parent.
            Ensures-if (not (is_some name) && not (is_some parent)) _ _
              (λ _. Ensures-weaken (Ensures-pure dept) (λ db p. p) (λ _ db _. tt))
              λ _.
                Ensures-write tenant ctx here id actor _ _
                  λ db i p. moved-IsConsistent i id p.0.1 ctx.now name parent p.1)
