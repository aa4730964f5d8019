-- ===== src/Service/Triple.antt =====
-- Hoare triples of actions: from a state of the precondition, an action returns to a state of its
-- postcondition or throws to a state of its exceptional one, and it does not hang.
use hr_saas_platform.Shared.{◌≡◌, refl, ap, ℕ, Bool, true, false, Option, none, some, if◌then◌else◌}
use hr_saas_platform.Shared.Table.{insert}
use hr_saas_platform.Events.{Event}
use hr_saas_platform.Exceptions.{Exception}
use hr_saas_platform.Database.{Database}
use hr_saas_platform.Service.{
  Result, ok, err, hang, Action, pure, gets, found_or, throw_if, modify, continue, ◌>>=◌, Context,
  current_tenant_id, emit_async, outbox_row,
}

abbrev pub Ends :
    {A : Type 0}
    → (A → Database → Type 0)
    → (Exception → Database → Type 0)
    → Result A × Database
    → Type 0
Ends Q E (ok a, db) = Q a db
Ends Q E (err e, db) = E e db
Ends Q E (hang, db) = ⊥

pub record Triple {A : Type 0} (P : Database → Type 0) (m : Action A) (Q : A → Database → Type 0)
    (E : Exception → Database → Type 0) : Type 0 where
  pub at : (db : Database) → P db → Ends Q E (m db)

module _ {P : Database → Type 0} {E : Exception → Database → Type 0} where
  pub Triple-throw_if :
      (b : Bool) (e : Exception)
      → ((db : Database) → P db → E e db)
      → Triple P (throw_if b e) (λ _ db. P db × (b ≡ false)) E
  unfolding throw_if
  Triple-throw_if true e refused = record { at = λ db p. refused db p }
  Triple-throw_if false e refused = record { at = λ db p. (p, refl) }

module _ {P : Database → Type 0} {A : Type 0} {E : Exception → Database → Type 0} where
  pub Triple-pure : (a : A) → Triple P (pure a) (λ b db. P db × (b ≡ a)) E
  unfolding pure
  Triple-pure a = record { at = λ db p. (p, refl) }

  pub Triple-gets : (f : Database → A) → Triple P (gets f) (λ a db. P db × (a ≡ f db)) E
  unfolding gets
  Triple-gets f = record { at = λ db p. (p, refl) }

  pub Triple-found_or :
      (o : Option A) (e : Exception)
      → ((db : Database) → P db → E e db)
      → Triple P (found_or o e) (λ a db. P db × (o ≡ some a)) E
  unfolding found_or
  Triple-found_or none e refused = record { at = λ db p. refused db p }
  Triple-found_or (some a) e refused = record { at = λ db p. (p, refl) }

  -- What is known to be there is found.
  pub Triple-found :
      (o : Option A) (e : Exception) {a : A}
      → o ≡ some a
      → Triple P (found_or o e) (λ b db. P db × (o ≡ some b)) E
  unfolding found_or
  Triple-found none e there = absurd (cc there)
  Triple-found (some a) e there = record { at = λ db p. (p, refl) }

  pub Triple-if :
      {Q : A → Database → Type 0} (b : Bool) (m n : Action A)
      → (b ≡ true → Triple P m Q E)
      → (b ≡ false → Triple P n Q E)
      → Triple P (if b then m else n) Q E
  Triple-if true m n tm tn = tm refl
  Triple-if false m n tm tn = tn refl

module _ {P : Database → Type 0} {E : Exception → Database → Type 0} {A B : Type 0}
    {Q : A → Database → Type 0} {R : B → Database → Type 0} where
  pub Triple-bind :
      (m : Action A) (f : A → Action B)
      → Triple P m Q E
      → ((a : A) → Triple (Q a) (f a) R E)
      → Triple P (m >>= f) R E
  unfolding ◌>>=◌
  Triple-bind m f tm tf = record { at = λ db p. go (m db).0 (m db).1 (tm.at db p) }
    where
      go : (r : Result A) (db' : Database) → Ends Q E (r, db') → Ends R E (continue r f db')
      go (ok a) db' q = (tf a).at db' q
      go (err e) db' q = q
      go hang db' q = q

module _ {P : Database → Type 0} {E : Exception → Database → Type 0} {B : Type 0}
    {R : B → Database → Type 0} where
  -- A method that starts by reading the tenant of a request that has one.
  pub Triple-tenant :
      {tenant : ℕ} (ctx : Context) (f : ℕ → Action B)
      → ctx.tenant_id ≡ some tenant
      → Triple P (f tenant) R E
      → Triple P (current_tenant_id ctx >>= f) R E
  unfolding ◌>>=◌ current_tenant_id
  Triple-tenant ctx f here tf = record { at = λ db p. rw here (tf.at db p) }

module _ {P P' : Database → Type 0} {E : Exception → Database → Type 0} {A : Type 0}
    {Q Q' : A → Database → Type 0} {m : Action A} where
  -- A weaker postcondition, under a stronger precondition.
  pub Triple-weaken :
      Triple P m Q E
      → ((db : Database) → P' db → P db)
      → ((a : A) (db : Database) → Q a db → Q' a db)
      → Triple P' m Q' E
  Triple-weaken tm pre post = record { at = λ db p. go (m db) (tm.at db (pre db p)) }
    where
      go : (out : Result A × Database) → Ends Q E out → Ends Q' E out
      go (ok a, db) q = post a db q
      go (err e, db) q = q
      go (hang, db) q = q

module _ {P : Database → Type 0} {E : Exception → Database → Type 0} {A : Type 0}
    {Q : A → Database → Type 0} {m : Action A} where
  -- A fact of the precondition that is not about the state becomes a hypothesis.
  pub Triple-given : {F : Type 0} → (F → Triple P m Q E) → Triple (λ d. P d × F) m Q E
  Triple-given given = record { at = λ db (p, f). (given f).at db p }

  -- A triple for each state of the precondition.
  pub Triple-each : ((db : Database) → P db → Triple (λ d. d ≡ db) m Q E) → Triple P m Q E
  Triple-each each = record { at = λ db p. (each db p).at db refl }

  -- A weaker exceptional postcondition.
  pub Triple-relax :
      {E' : Exception → Database → Type 0}
      → Triple P m Q E
      → ((e : Exception) (db : Database) → E e db → E' e db)
      → Triple P m Q E'
  Triple-relax {E'} tm relax = record { at = λ db p. go (m db) (tm.at db p) }
    where
      go : (out : Result A × Database) → Ends Q E out → Ends Q E' out
      go (ok a, db) q = q
      go (err e, db) q = relax e db q
      go (hang, db) q = q

module _ {P : Database → Type 0} {E : Exception → Database → Type 0} {A : Type 0}
    {X : A → Database → Type 0} {m : Action A} where
  -- What the value tells is not needed.
  pub Triple-forget : Triple P m (λ a d. P d × X a d) E → Triple P m (λ _ d. P d) E
  Triple-forget tm = Triple-weaken tm (λ d h. h) (λ _ d (h, _). h)

-- `emitAsync` adds a pending row to the outbox.
pub Triple-emit_async :
    {E : Exception → Database → Type 0} (ctx : Context) (event : Event) (x : Database)
    → Triple
        (λ d. d ≡ x)
        (emit_async ctx event)
        (λ _ d. d ≡ record x { event_outbox = insert (outbox_row ctx event) x.event_outbox })
        E
unfolding emit_async modify
Triple-emit_async ctx event x = record {
  at = λ d h.
      ap
        (λ (y : Database). record y { event_outbox = insert (outbox_row ctx event) y.event_outbox })
        h;
}
