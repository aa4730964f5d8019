-- ===== src/Employee/Final.antt =====
-- A terminated employee stays as it is, whatever changes of status are asked for.
use mathlib.Core.Option
use hr_saas_platform.Shared.{
  ℕ, String, Bool, true, false, not, ◌≡◌, refl, sym, ap, ◌∙◌, Option, some, List, arith, inl, inr,
  Bool-cases,
}
use hr_saas_platform.Shared.Table.{find_first-update_where, find_first-Memᴰ}
use hr_saas_platform.Events.{Event}
use hr_saas_platform.Database.{Database, Employee, EmployeeStatus}
use hr_saas_platform.Database.EmployeeStatus.{terminated}
use hr_saas_platform.Service.{Result, ok, err, hang, ◌>>=◌, Context, emit_async}
use hr_saas_platform.Service.Ensures.{
  Outcome, Ensures, Ensures-pure, Ensures-gets, Ensures-found_or, Ensures-throw_if,
  Ensures-current_tenant_id, Ensures-bind, Ensures-weaken,
}
use hr_saas_platform.Department.Repository.{clear_manager}
use hr_saas_platform.Device.{deactivate_all_for_employee}
use hr_saas_platform.Device.Repository.{deactivate_all}
use hr_saas_platform.Employee.{
  valid_transitions, is_valid_transition, has_id, find_by_id, set_status, update,
  ChangeEmployeeStatusDto, find_or_fail, clear_if, revoke_if, change_status,
}
use hr_saas_platform.Employee.Effects.{set_status-status}

module _ (id tenant : ℕ) (e : Employee) (ended : e.status ≡ terminated) where
  abbrev Stays : Database → Type 0
  Stays db = find_by_id id tenant db.employees ≡ some e

  module _ {P : Database → Type 0} where
    Ensures-find_or_fail :
        (id' t : ℕ)
        → Ensures Stays P
            (find_or_fail id' t)
            (λ d db. P db × (find_by_id id' t db.employees ≡ some d))
    unfolding find_or_fail
    Ensures-find_or_fail id' t = Ensures-bind _ _ (Ensures-gets _) λ found.
        Ensures-weaken (Ensures-found_or found _) (λ db p. p) (λ d db (p, h). (p.0, sym p.1 ∙ h))

    Ensures-emit :
        (ctx : Context) (event : Event) → Ensures Stays P (emit_async ctx event) (λ _ _. Unit {0})
    unfolding emit_async
    Ensures-emit ctx event = record { at = λ db i p. (i, tt) }

    Ensures-clear_if :
        (b : Bool) (now id' t : ℕ) → Ensures Stays P (clear_if b now id' t) (λ _ _. Unit {0})
    unfolding clear_manager ◌>>=◌
    Ensures-clear_if true now id' t = record { at = λ db i p. (i, tt) }
    Ensures-clear_if false now id' t = Ensures-weaken (Ensures-pure tt) (λ db p. p) (λ _ db _. tt)

    Ensures-deactivate_all : (id' t : ℕ) → Ensures Stays P (deactivate_all id' t) (λ _ _. Unit {0})
    unfolding deactivate_all
    Ensures-deactivate_all id' t = record { at = λ db i p. (i, tt) }

  module _ {P : Database → Type 0} where
    Ensures-revoke_if :
        (b : Bool) (ctx : Context) (id' : ℕ)
        → Ensures Stays P (revoke_if b ctx id') (λ _ _. Unit {0})
    unfolding deactivate_all_for_employee
    Ensures-revoke_if true ctx id' = Ensures-bind _ _ (Ensures-current_tenant_id ctx) λ t.
        Ensures-bind _ _ (Ensures-deactivate_all id' t)
          λ _. Ensures-weaken (Ensures-pure tt) (λ db p. p) (λ _ db _. tt)
    Ensures-revoke_if false ctx id' = Ensures-weaken (Ensures-pure tt) (λ db p. p) (λ _ db _. tt)

  -- A change that is valid for the row that is found is of another employee.
  other_employee :
      (id' t : ℕ) (rows : List Employee) {d : Employee} (next : EmployeeStatus)
      → find_by_id id tenant rows ≡ some e
      → find_by_id id' t rows ≡ some d
      → is_valid_transition d.status next ≡ true
      → has_id id' t e ≡ false
  unfolding is_valid_transition valid_transitions find_by_id
  other_employee id' t rows {d} next stays found valid = elim (Bool-cases (has_id id' t e)) [
    | inl hit ↦
        let (_, mine) = find_first-Memᴰ (has_id id tenant) rows {r = e} stays in
        let same_id : id' ≡ id = ground arith in
        let same_tenant : t ≡ tenant = ground arith in
        let one : d ≡ e = cc (stays, found, same_id, same_tenant) in
        absurd (cc (rw (ap (λ (r : Employee). r.status) one ∙ ended) at valid))
    | inr miss ↦ miss
  ]

  Ensures-update :
      (now id' t : ℕ) (next : EmployeeStatus) (date : Option String) (d : Employee)
      → Ensures Stays
          (λ db.
            (find_by_id id' t db.employees ≡ some d) × (is_valid_transition d.status next ≡ true))
          (update now id' t next date)
          (λ _ _. Unit {0})
  unfolding update find_by_id
  Ensures-update now id' t next date d = record {
    at = λ db i p.
        let miss = other_employee id' t db.employees {d = d} next i p.0 p.1 in
        (
          find_first-update_where (has_id id tenant) (has_id id' t) (set_status now next date)
                db.employees
                (λ r. let (_, same, here) = set_status-status now next date r in cc (same, here))
              ∙ (ap (Option.map _) i ∙ rw miss refl),
          tt,
        );
  }

  change_status-Ensures :
      (today : ℕ → String) (ctx : Context) (id' : ℕ) (dto : ChangeEmployeeStatusDto) (actor : ℕ)
      → Ensures Stays (λ _. Unit {0}) (change_status today ctx id' dto actor) (λ _ _. Unit {0})
  unfolding change_status
  change_status-Ensures today ctx id' dto actor =
      Ensures-bind _ _ (Ensures-current_tenant_id ctx) λ t.
        Ensures-bind _ _ (Ensures-find_or_fail id' t) λ d.
          Ensures-bind _ _ (Ensures-throw_if (not (is_valid_transition d.status dto.status)) _) λ _.
            Ensures-bind _ _
              (Ensures-weaken (Ensures-update ctx.now id' t dto.status _ d)
                (λ db p. (p.0.1, ground arith)) (λ _ _ q. q))
              λ row. Ensures-bind _ _ (Ensures-found_or row _) λ updated.
                Ensures-bind _ _ (Ensures-clear_if _ ctx.now id' t) λ _.
                  Ensures-bind _ _ (Ensures-revoke_if _ ctx id') λ _.
                    Ensures-bind _ _ (Ensures-emit ctx _)
                      λ _. Ensures-weaken (Ensures-pure updated) (λ db p. p) (λ _ db _. tt)

answered :
    {A : Type 0} (I : Database → Type 0) (out : Result A × Database)
    → Outcome I (λ _ _. Unit {0}) out
    → I out.1
answered I (ok a, db) (i, q) = i
answered I (err e, db) i = i
answered I (hang, db) h = absurd h

module _ (today : ℕ → String) where
  -- Requests to change a status, of any tenants and employees, one after the other.
  pub data Changes (before : Database) : Database → Type 0 where
    start : Changes before before
    step :
        {db : Database} (ctx : Context) (id : ℕ) (dto : ChangeEmployeeStatusDto) (actor : ℕ)
        → Changes before db
        → Changes before (change_status today ctx id dto actor db).1

-- Terminated is final: after any changes of status that are asked for, by anybody and of anybody,
-- the row of a terminated employee is found as it was.
pub Changes-terminated :
    (today : ℕ → String) (id tenant : ℕ) (e : Employee) {before db : Database}
    → e.status ≡ terminated
    → find_by_id id tenant before.employees ≡ some e
    → Changes today before db
    → find_by_id id tenant db.employees ≡ some e
Changes-terminated today id tenant e ended found start = found
Changes-terminated today id tenant e ended found (step {db} ctx id' dto actor earlier) =
    answered (Stays id tenant e ended) _ (
      (change_status-Ensures id tenant e ended today ctx id' dto actor).at db
        (Changes-terminated today id tenant e ended found earlier) tt)
