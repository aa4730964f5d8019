-- ===== src/Rbac/UpdateSafety.antt =====
-- `createCustomRole` and `updateRole` keep the invariant: no system role loses a default permission.
use hr_saas_platform.Shared.{
  ℕ, String, Bool, true, false, ◌&&◌, ◌||◌, ◌≡◌, refl, sym, ap, subst, ◌∙◌, Option, none, some,
  List, [], Memᴰ, All, All-mono, All-Memᴰ, arith, string_eq, missing_from, missing_from-nil,
}
use hr_saas_platform.Events.{Event, Actor}
use hr_saas_platform.Database.{Database, Role}
use hr_saas_platform.Service.{Context, emit_async}
use hr_saas_platform.Service.Triple.{
  Triple, Triple-throw_if, Triple-pure, Triple-gets, Triple-found_or, Triple-if, Triple-bind,
  Triple-tenant, Triple-weaken, Triple-given, Triple-forget,
}
use hr_saas_platform.Rbac.SystemRoles.{get_system_role_by_slug}
use hr_saas_platform.Rbac.Roles.{
  is_some, truthy, misses, CreateRoleDto, UpdateRoleDto, new_role, create_custom_role,
  misses_defaults, write_permissions, write_metadata, update_role,
}
use hr_saas_platform.Rbac.Consistency.{
  IsWellFormed, DefaultsBut, IsResolved, CoversDefaults, keep_roles-IsWellFormed, find_by_id-Memᴰ,
}
use hr_saas_platform.Rbac.RoleSafety.{
  AlsoThen, is_empty-nil, resolve_permissions-Triple, create-Triple, set_permissions-Triple,
  update-Triple,
}

pub emit_async-IsWellFormed :
    (ctx : Context) (event : Event)
    → Triple IsWellFormed (emit_async ctx event) (λ _ db. IsWellFormed db) AlsoThen
unfolding emit_async
emit_async-IsWellFormed ctx event = record {
  at = λ db h. keep_roles-IsWellFormed h refl refl refl h.sound.assigned;
}

pub create_custom_role-Triple :
    (ctx : Context) (tenant : ℕ) (dto : CreateRoleDto) (created_by : Actor)
    → ctx.tenant_id ≡ some tenant
    → Triple IsWellFormed (create_custom_role ctx dto created_by) (λ _ db. IsWellFormed db) AlsoThen
unfolding create_custom_role
create_custom_role-Triple ctx tenant dto created_by here = Triple-tenant ctx _ here (
    Triple-bind _ _ (Triple-forget (Triple-gets _)) (λ existing.
      Triple-bind _ _ (Triple-forget (Triple-throw_if _ _ (λ db h. h))) (λ _.
        Triple-bind _ _
          (Triple-forget
            (resolve_permissions-Triple "create_role" dto.permission_codes (λ db h. h)))
          (λ ids. Triple-bind _ _ (create-Triple (new_role ctx tenant dto)) (λ role.
            Triple-bind _ _
              (Triple-weaken (set_permissions-Triple role.id ids)
                (λ db (e, sound, but, only). (
                  sound,
                  subst (λ (r : Role). DefaultsBut r.id db) (sym e) but,
                  subst (λ (r : Role). CoversDefaults r.id ids db) (sym e)
                      (λ s m same system.
                        cc (ap (λ (x : Role). x.is_system) (only s m same), system)),
                ))
                (λ _ db h. h))
              (λ _. Triple-bind _ _ (emit_async-IsWellFormed ctx _) (λ _.
                Triple-bind _ _ (Triple-forget (Triple-gets _)) (λ created_role.
                  Triple-forget (Triple-found_or created_role _ (λ db h. h))))))))))

-- The role that is updated, as it was read.
abbrev HasRole : ℕ → Role → Database → Type 0
HasRole id role db = IsWellFormed db × Memᴰ role db.roles × (role.id ≡ id)

and_rest : {a b : Bool} → a ≡ true → (a && b) ≡ false → b ≡ false
and_rest {a} {b} h k = ground arith

-- A set of codes without gaps covers the defaults of the role.
codes_cover :
    (id : ℕ) (role : Role) (codes : List String) (ids : List ℕ) (db : Database)
    → HasRole id role db
    → (role.is_system && misses_defaults role.slug (some codes)) ≡ false
    → All (IsResolved db ids) codes
    → CoversDefaults id ids db
unfolding misses_defaults
codes_cover id role codes ids db (h, m, e) complete resolved r n same system def slug =
    let equal = h.sound.keyed r role n m (same ∙ sym e) in
    let none_missing : missing_from codes def.permissions ≡ [] =
      is_empty-nil (missing_from codes def.permissions) (
        ap (misses codes)
          (sym (sym (ap (λ (x : Role). get_system_role_by_slug x.slug) equal) ∙ slug))
        ∙ and_rest (sym (ap (λ (x : Role). x.is_system) equal) ∙ system) complete) in
    All-mono (λ c k. All-Memᴰ (IsResolved db ids) codes resolved k) def.permissions
      (missing_from-nil codes def.permissions none_missing)

write_permissions-Triple :
    (id : ℕ) (role : Role) (codes : Option (List String))
    → (role.is_system && misses_defaults role.slug codes) ≡ false
    → Triple (HasRole id role) (write_permissions id codes) (λ _ db. IsWellFormed db) AlsoThen
unfolding write_permissions
write_permissions-Triple id role none complete =
    Triple-weaken (Triple-pure _) (λ db (h, _, _). h) (λ _ db (h, _). h)
write_permissions-Triple id role (some codes) complete =
    Triple-bind _ _
      (resolve_permissions-Triple {P = HasRole id role} "update_role" codes (λ db (h, _, _). h))
      (λ ids.
        Triple-weaken (set_permissions-Triple id ids)
          (λ db (h, resolved). (
            h.0.sound,
            λ r m _. h.0.defaults r m,
            codes_cover id role codes ids db h complete resolved,
          ))
          (λ _ db k. k))

write_metadata-Triple :
    (id tenant : ℕ) (dto : UpdateRoleDto)
    → Triple IsWellFormed (write_metadata id tenant dto) (λ _ db. IsWellFormed db) AlsoThen
unfolding write_metadata
write_metadata-Triple id tenant dto =
    Triple-if (is_some (truthy dto.name) || is_some dto.description) _ _
      (λ _. Triple-bind _ _ (update-Triple id tenant _) (λ _. Triple-forget (Triple-pure _)))
      (λ _. Triple-forget (Triple-pure _))

pub update_role-Triple :
    (ctx : Context) (tenant id : ℕ) (dto : UpdateRoleDto)
    → ctx.tenant_id ≡ some tenant
    → Triple IsWellFormed (update_role ctx id dto) (λ _ db. IsWellFormed db) AlsoThen
unfolding update_role
update_role-Triple ctx tenant id dto here = Triple-tenant ctx _ here (
    Triple-bind _ _ (Triple-gets _) (λ found.
      Triple-bind _ _
        (Triple-weaken (Triple-found_or found _ (λ db (h, _). h)) (λ db h. h)
          (λ role db ((h, e), is).
            let (m, same, _) = find_by_id-Memᴰ id tenant db.roles {r = role} (sym e ∙ is) in
            (h, m, same)))
        (λ role. Triple-bind _ _ (Triple-forget (Triple-throw_if _ _ (λ db (h, _, _). h))) (λ _.
          Triple-bind _ _ (Triple-throw_if _ _ (λ db (h, _, _). h)) (λ _. Triple-given (λ complete.
            Triple-bind _ _ (write_permissions-Triple id role dto.permission_codes complete) (λ _.
              Triple-bind _ _ (write_metadata-Triple id tenant dto) (λ _.
                Triple-bind _ _ (Triple-forget (Triple-gets _)) (λ updated_role.
                  Triple-forget (Triple-found_or updated_role _ (λ db h. h)))))))))))
