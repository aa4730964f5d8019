-- ===== src/Employee/Status.antt =====
-- The state machine of an employee's status, and that a terminated employee stays as it is.
use hr_saas_platform.Shared.{true, false, ◌≡◌, ◌↔◌, refl}
use hr_saas_platform.Database.{EmployeeStatus}
use hr_saas_platform.Database.EmployeeStatus.{active, on_probation, on_leave, suspended, terminated}
use hr_saas_platform.Employee.{is_status, valid_transitions, is_valid_transition}

-- The lifecycle as the comment on EmployeeStatusEnum draws it.
pub data Lifecycle : EmployeeStatus → EmployeeStatus → Type 0 where
  probation : Lifecycle active on_probation
  passed : Lifecycle on_probation active
  leave : Lifecycle active on_leave
  returned : Lifecycle on_leave active
  suspension : Lifecycle active suspended
  lifted : Lifecycle suspended active
  termination : {s : EmployeeStatus} → is_status s terminated ≡ false → Lifecycle s terminated

-- The table of valid transitions allows exactly the steps of the lifecycle that its comment draws:
-- every status but terminated leads to terminated, and nothing leads out of it.
pub is_valid_transition-Lifecycle :
    (current next : EmployeeStatus)
    → (is_valid_transition current next ≡ true) ↔ Lifecycle current next
unfolding is_valid_transition valid_transitions
is_valid_transition-Lifecycle current next = (to current next, from)
  where
    to : (c n : EmployeeStatus) → is_valid_transition c n ≡ true → Lifecycle c n
    to active active h = absurd (cc h)
    to active on_probation h = probation
    to active on_leave h = leave
    to active suspended h = suspension
    to active terminated h = termination refl
    to on_probation active h = passed
    to on_probation on_probation h = absurd (cc h)
    to on_probation on_leave h = absurd (cc h)
    to on_probation suspended h = absurd (cc h)
    to on_probation terminated h = termination refl
    to on_leave active h = returned
    to on_leave on_probation h = absurd (cc h)
    to on_leave on_leave h = absurd (cc h)
    to on_leave suspended h = absurd (cc h)
    to on_leave terminated h = termination refl
    to suspended active h = lifted
    to suspended on_probation h = absurd (cc h)
    to suspended on_leave h = absurd (cc h)
    to suspended suspended h = absurd (cc h)
    to suspended terminated h = termination refl
    to terminated n h = absurd (cc h)

    ends :
        (s : EmployeeStatus)
        → is_status s terminated ≡ false
        → is_valid_transition s terminated ≡ true
    ends active h = refl
    ends on_probation h = refl
    ends on_leave h = refl
    ends suspended h = refl
    ends terminated h = absurd (cc h)

    from : {c n : EmployeeStatus} → Lifecycle c n → is_valid_transition c n ≡ true
    from probation = refl
    from passed = refl
    from leave = refl
    from returned = refl
    from suspension = refl
    from lifted = refl
    from (termination {s} h) = ends s h
