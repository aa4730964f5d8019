-- ===== src/Service.antt =====
-- A service method reads and writes the database, and returns or throws. What was written before a
-- throw stays written: the services open no transaction around their statements.
pub mod Keeps
pub mod Ensures
pub mod Triple
use hr_saas_platform.Shared.{ℕ, zero, Bool, true, false, Option, none, some}
use hr_saas_platform.Shared.Table.{insert}
use hr_saas_platform.Exceptions.{Exception, internal_server_error}
use hr_saas_platform.Events.{Event, Payload, Actor}
use hr_saas_platform.Database.{Database, EventOutboxRecord, OutboxStatus}

-- `hang`: the call does not return.
pub data Result (A : Type 0) : Type 0 where
  ok : A → Result A
  err : Exception → Result A
  hang : Result A

abbrev pub Action : Type 0 → Type 0
Action A = Database → Result A × Database

module _ {A : Type 0} where
  pub pure : A → Action A
  pure a db = (ok a, db)

  pub throw : Exception → Action A
  throw e db = (err e, db)

  pub gets : (Database → A) → Action A
  gets f db = (ok (f db), db)

  -- `if (!row) throw e`
  pub found_or : Option A → Exception → Action A
  found_or none e db = (err e, db)
  found_or (some a) e db = (ok a, db)

  -- The value of a loop on fuel, or no return where the loop does not end.
  pub returned : Option A → Action A
  returned none db = (hang, db)
  returned (some a) db = (ok a, db)

-- `if (test) throw e`
pub throw_if : Bool → Exception → Action (Unit {0})
throw_if true e db = (err e, db)
throw_if false e db = (ok tt, db)

pub modify : (Database → Database) → Action (Unit {0})
modify f db = (ok tt, f db)

module _ {A B : Type 0} where
  abbrev pub continue : Result A → (A → Action B) → Action B
  continue (ok a) f db = f a db
  continue (err e) f db = (err e, db)
  continue hang f db = (hang, db)

  infixl 5 ◌>>=◌ ◌>>◌
  -- To unfold this is to unfold the actions above too.
  unfoldable pub ◌>>=◌ : Action A → (A → Action B) → Action B
  unfolding pure throw gets found_or returned throw_if modify
  ◌>>=◌ m f db = let (r, db') = m db in continue r f db'

  abbrev pub ◌>>◌ : Action A → Action B → Action B
  m >> n = m >>= λ _. n

-- What a request brings: the tenant of its context, the time, and the random UUIDs that its calls
-- of `randomUUID` and `defaultRandom` return, by their number.
pub record Context : Type 0 where
  pub tenant_id : Option ℕ
  pub now : ℕ
  pub uuid : ℕ → ℕ

-- `TenantContext.currentTenantId` (src/common/context/tenant.context.ts)
unfoldable pub current_tenant_id : Context → Action ℕ
unfolding found_or
current_tenant_id ctx = found_or ctx.tenant_id internal_server_error

-- `new XEvent(…)`: the envelope that the constructor of `BaseEvent` fills in.
unfoldable pub new_event : Context → Option ℕ → Actor → Payload → Event
new_event ctx tenant actor payload = record {
  event_id = ctx.uuid 8;
  tenant_id = tenant;
  triggered_by = actor;
  occurred_at = ctx.now;
  payload = payload;
}

-- `OutboxService.writeEvent`: the row that is inserted.
unfoldable pub outbox_row : Context → Event → EventOutboxRecord
outbox_row ctx event = record {
  id = ctx.uuid 9;
  event = event;
  status = OutboxStatus.pending;
  retry_count = 0;
  max_retries = 5;
  next_retry_at = none;
  processed_at = none;
  processing_started_at = none;
  error_message = none;
  created_at = ctx.now;
}

-- `EventBusService.emitAsync` without a transaction client.
unfoldable pub emit_async : Context → Event → Action (Unit {0})
unfolding modify outbox_row
emit_async ctx event =
    modify (λ db. record db { event_outbox = insert (outbox_row ctx event) db.event_outbox })
