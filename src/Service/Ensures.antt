-- ===== src/Service/Ensures.antt =====
-- What an action ensures from a state that satisfies an invariant and a precondition: it returns or
-- throws, keeps the invariant, and what it returns satisfies the postcondition.
use hr_saas_platform.Shared.{ℕ, ◌≡◌, refl, Bool, true, false, Option, none, some, if◌then◌else◌}
use hr_saas_platform.Exceptions.{Exception}
use hr_saas_platform.Database.{Database}
use hr_saas_platform.Service.{
  Result, ok, err, hang, Action, pure, gets, found_or, returned, throw_if, continue, ◌>>=◌, Context,
  current_tenant_id,
}

abbrev pub Outcome :
    {A : Type 0} → (Database → Type 0) → (A → Database → Type 0) → Result A × Database → Type 0
Outcome I Q (ok a, db) = I db × Q a db
Outcome I Q (err e, db) = I db
Outcome I Q (hang, db) = ⊥

pub record Ensures {A : Type 0} (I P : Database → Type 0) (m : Action A) (Q : A → Database → Type 0)
    : Type 0 where
  pub at : (db : Database) → I db → P db → Outcome I Q (m db)

module _ {I P : Database → Type 0} {A : Type 0} where
  pub Ensures-pure : (a : A) → Ensures I P (pure a) (λ b db. P db × (b ≡ a))
  unfolding pure
  Ensures-pure a = record { at = λ db i p. (i, (p, refl)) }

  pub Ensures-gets : (f : Database → A) → Ensures I P (gets f) (λ a db. P db × (a ≡ f db))
  unfolding gets
  Ensures-gets f = record { at = λ db i p. (i, (p, refl)) }

  pub Ensures-found_or :
      (o : Option A) (e : Exception) → Ensures I P (found_or o e) (λ a db. P db × (o ≡ some a))
  unfolding found_or
  Ensures-found_or none e = record { at = λ db i p. i }
  Ensures-found_or (some a) e = record { at = λ db i p. (i, (p, refl)) }

  -- A loop that has ended.
  pub Ensures-returned :
      (o : Option A)
      → ((db : Database) → I db → P db → (a : A) × (o ≡ some a))
      → Ensures I P (returned o) (λ a db. P db × (o ≡ some a))
  unfolding returned
  Ensures-returned none ends = record { at = λ db i p. let (a, e) = ends db i p in absurd (cc e) }
  Ensures-returned (some a) ends = record { at = λ db i p. (i, (p, refl)) }

  pub Ensures-if :
      {Q : A → Database → Type 0} (b : Bool) (m n : Action A)
      → (b ≡ true → Ensures I P m Q)
      → (b ≡ false → Ensures I P n Q)
      → Ensures I P (if b then m else n) Q
  Ensures-if true m n em en = em refl
  Ensures-if false m n em en = en refl

module _ {I P : Database → Type 0} where
  pub Ensures-throw_if :
      (b : Bool) (e : Exception) → Ensures I P (throw_if b e) (λ _ db. P db × (b ≡ false))
  unfolding throw_if
  Ensures-throw_if true e = record { at = λ db i p. i }
  Ensures-throw_if false e = record { at = λ db i p. (i, (p, refl)) }

  pub Ensures-current_tenant_id :
      (ctx : Context)
      → Ensures I P (current_tenant_id ctx) (λ t db. P db × (ctx.tenant_id ≡ some t))
  unfolding current_tenant_id
  Ensures-current_tenant_id ctx = Ensures-found_or _ _

module _ {I P : Database → Type 0} {A B : Type 0} {Q : A → Database → Type 0}
    {R : B → Database → Type 0} where
  pub Ensures-bind :
      (m : Action A) (f : A → Action B)
      → Ensures I P m Q
      → ((a : A) → Ensures I (Q a) (f a) R)
      → Ensures I P (m >>= f) R
  unfolding ◌>>=◌
  Ensures-bind m f em ef = record { at = λ db i p. go (m db).0 (m db).1 (em.at db i p) }
    where
      go : (r : Result A) (db' : Database) → Outcome I Q (r, db') → Outcome I R (continue r f db')
      go (ok a) db' (i, q) = (ef a).at db' i q
      go (err e) db' i = i
      go hang db' h = h

module _ {I P : Database → Type 0} {B : Type 0} {R : B → Database → Type 0} where
  -- A method that starts by reading the tenant of a request that has one.
  pub Ensures-tenant :
      {tenant : ℕ} (ctx : Context) (f : ℕ → Action B)
      → ctx.tenant_id ≡ some tenant
      → Ensures I P (f tenant) R
      → Ensures I P (current_tenant_id ctx >>= f) R
  unfolding ◌>>=◌ current_tenant_id
  Ensures-tenant ctx f here ef = record { at = λ db i p. rw here (ef.at db i p) }

module _ {I : Database → Type 0} {A : Type 0} {m : Action A} where
  -- A weaker postcondition, under a stronger precondition.
  pub Ensures-weaken :
      {P P' : Database → Type 0} {Q Q' : A → Database → Type 0}
      → Ensures I P m Q
      → ((db : Database) → P' db → P db)
      → ((a : A) (db : Database) → Q a db → Q' a db)
      → Ensures I P' m Q'
  Ensures-weaken {Q} {Q'} em pre post = record { at = λ db i p. go (m db) (em.at db i (pre db p)) }
    where
      go : (out : Result A × Database) → Outcome I Q out → Outcome I Q' out
      go (ok a, db) (i, q) = (i, post a db q)
      go (err e, db) i = i
      go (hang, db) h = h
