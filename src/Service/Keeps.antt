-- ===== src/Service/Keeps.antt =====
-- Invariants of actions, one rule for each way to build an action.
use hr_saas_platform.Shared.{ℕ, ◌≡◌, Bool, true, false, Option, none, some, if◌then◌else◌}
use hr_saas_platform.Exceptions.{Exception}
use hr_saas_platform.Database.{Database}
use hr_saas_platform.Service.{
  Result, ok, err, hang, Action, pure, throw, gets, found_or, returned, throw_if, continue, ◌>>=◌,
  Context, current_tenant_id,
}

-- `m` keeps `P`, whether it returns or throws.
pub record Keeps {A : Type 0} (P : Database → Type 0) (m : Action A) : Type 0 where
  pub at : (db : Database) → P db → P (m db).1

module _ {P : Database → Type 0} {A : Type 0} where
  pub Keeps-pure : (a : A) → Keeps P (pure a)
  unfolding pure
  Keeps-pure a = record { at = λ db h. h }

  pub Keeps-throw : (e : Exception) → Keeps P (throw {A = A} e)
  unfolding throw
  Keeps-throw e = record { at = λ db h. h }

  pub Keeps-gets : (f : Database → A) → Keeps P (gets f)
  unfolding gets
  Keeps-gets f = record { at = λ db h. h }

  pub Keeps-found_or : (o : Option A) (e : Exception) → Keeps P (found_or o e)
  unfolding found_or
  Keeps-found_or none e = record { at = λ db h. h }
  Keeps-found_or (some a) e = record { at = λ db h. h }

  pub Keeps-returned : (o : Option A) → Keeps P (returned o)
  unfolding returned
  Keeps-returned none = record { at = λ db h. h }
  Keeps-returned (some a) = record { at = λ db h. h }

  pub Keeps-if : (b : Bool) (m n : Action A) → Keeps P m → Keeps P n → Keeps P (if b then m else n)
  Keeps-if true m n km kn = km
  Keeps-if false m n km kn = kn

module _ {P : Database → Type 0} where
  pub Keeps-throw_if : (b : Bool) (e : Exception) → Keeps P (throw_if b e)
  unfolding throw_if
  Keeps-throw_if true e = record { at = λ db h. h }
  Keeps-throw_if false e = record { at = λ db h. h }

  pub Keeps-current_tenant_id : (ctx : Context) → Keeps P (current_tenant_id ctx)
  unfolding current_tenant_id
  Keeps-current_tenant_id ctx = Keeps-found_or _ _

module _ {P : Database → Type 0} {A B : Type 0} where
  pub Keeps-bind :
      (m : Action A) (f : A → Action B) → Keeps P m → ((a : A) → Keeps P (f a)) → Keeps P (m >>= f)
  unfolding ◌>>=◌
  Keeps-bind m f km kf = record { at = λ db h. let (r, db') = m db in go r db' (km.at db h) }
    where
      go : (r : Result A) (db' : Database) → P db' → P (continue r f db').1
      go (ok a) db' h = (kf a).at db' h
      go (err e) db' h = h
      go hang db' h = h

module _ {P : Database → Type 0} {B : Type 0} where
  -- A method that starts by reading the tenant of a request that has one.
  pub Keeps-tenant :
      {tenant : ℕ} (ctx : Context) (f : ℕ → Action B)
      → ctx.tenant_id ≡ some tenant
      → Keeps P (f tenant)
      → Keeps P (current_tenant_id ctx >>= f)
  unfolding ◌>>=◌ current_tenant_id
  Keeps-tenant ctx f here kf = record { at = λ db h. rw here (kf.at db h) }

pub ruleset keeps_rules = (
  Keeps-pure, Keeps-throw, Keeps-gets, Keeps-found_or, Keeps-returned, Keeps-if, Keeps-throw_if,
  Keeps-current_tenant_id, Keeps-bind,
)
