-- ===== src/Access/Guard.antt =====
-- What the guard lets through.
use mathlib.Core.Path.{subst}
use media_center.Access.Roles.{SharesRole, require_access_iff}
use media_center.Prelude.{
  String, true, false, List, [], ◌∷◌, ◌++◌, ◌≡◌, ◌↔◌, refl, ap, ◌⊎◌, inl, inr, Bool-cases, Member,
  here, there,
}
use media_center.Exec.{ok}
use media_center.Access.{TenantContext, AccessPolicy, require_access}
use media_center.Access.Endpoints.{EndpointAccessPolicy, matches, policy_for_scope, unlisted, guard}

-- The first endpoint policy for this request, and those before it
pub record IsFirst (upper : String → String) (endpoints : List EndpointAccessPolicy)
    (method path : String) (endpoint : EndpointAccessPolicy) : Type 0 where
  pub before : List EndpointAccessPolicy
  pub after : List EndpointAccessPolicy
  pub listed : endpoints ≡ before ++ endpoint ∷ after
  pub others :
      (e : EndpointAccessPolicy) → Member e before → matches upper e (upper method) path ≡ false
  pub found : matches upper endpoint (upper method) path ≡ true

-- Either one is the first, or none matches and the default is taken.
policy-cases :
    (upper : String → String) (endpoints : List EndpointAccessPolicy)
    (default_policy : AccessPolicy) (method path : String)
    → ((e : EndpointAccessPolicy) × IsFirst upper endpoints method path e
        × (policy_for_scope upper endpoints default_policy method path ≡ e.access_policy))
      ⊎ (((e : EndpointAccessPolicy)
            → Member e endpoints
            → matches upper e (upper method) path ≡ false)
          × (policy_for_scope upper endpoints default_policy method path ≡ default_policy))
unfolding policy_for_scope
policy-cases upper [] default_policy method path = inr ((λ e m. elim m [ ]), refl)
policy-cases upper (endpoint ∷ endpoints) default_policy method path =
    elim (Bool-cases (matches upper endpoint (upper method) path)) [
      | inl e ↦ inl (
        endpoint,
        record {
          before = [];
          after = endpoints;
          listed = refl;
          others = λ x m. elim m [ ];
          found = e;
        },
        rw e refl,
      )
      | inr e ↦ elim (policy-cases upper endpoints default_policy method path) [
        | inl (x, first, p) ↦ inl (
          x,
          record {
            before = endpoint ∷ first.before;
            after = first.after;
            listed = ap (λ l. endpoint ∷ l) first.listed;
            others = earlier e first.before first.others;
            found = first.found;
          },
          rw e p,
        )
        | inr (no_match, p) ↦ inr (earlier e endpoints no_match, rw e p)
      ]
    ]
  where
    earlier :
        matches upper endpoint (upper method) path ≡ false
        → (l : List EndpointAccessPolicy)
        → ((x : EndpointAccessPolicy) → Member x l → matches upper x (upper method) path ≡ false)
        → (x : EndpointAccessPolicy) → Member x (endpoint ∷ l)
        → matches upper x (upper method) path ≡ false
    earlier e l others x (here same) = rw same e
    earlier e l others x (there m) = others x m

policy-first :
    (upper : String → String) (before after : List EndpointAccessPolicy) (e : EndpointAccessPolicy)
    (default_policy : AccessPolicy) (method path : String)
    → ((x : EndpointAccessPolicy) → Member x before → matches upper x (upper method) path ≡ false)
    → matches upper e (upper method) path ≡ true
    → policy_for_scope upper (before ++ e ∷ after) default_policy method path ≡ e.access_policy
unfolding policy_for_scope
policy-first upper [] after e default_policy method path others found = rw found refl
policy-first upper (x ∷ before) after e default_policy method path others found =
    rw (others x (here refl)) (
      policy-first upper before after e default_policy method path (λ y m. others y (there m))
        found)

-- A guard with the usual default lets a request through exactly if some endpoint policy matches its
-- method and path, and the first that does allows a role of the governance that the context has.
pub guard-denies_by_default :
    (upper : String → String) (endpoints : List EndpointAccessPolicy) (method path : String)
    (context : TenantContext)
    → (guard upper endpoints unlisted method path context ≡ ok context) ↔ (
        (e : EndpointAccessPolicy) × IsFirst upper endpoints method path e
        × SharesRole context.roles e.access_policy.allowed_roles)
unfolding guard
guard-denies_by_default upper endpoints method path context = (to, from)
  where
    to :
        require_access (policy_for_scope upper endpoints unlisted method path) context ≡ ok context
        → (e : EndpointAccessPolicy) × IsFirst upper endpoints method path e
          × SharesRole context.roles e.access_policy.allowed_roles
    to h =
        let shares =
          (require_access_iff (policy_for_scope upper endpoints unlisted method path) context).0
            h in
        elim (policy-cases upper endpoints unlisted method path) [
          | inl (e, first, p) ↦ (
            e,
            first,
            subst (λ (x : AccessPolicy). SharesRole context.roles x.allowed_roles) p shares,
          )
          | inr (no_match, p) ↦
              let (role, m, g, n) =
                subst (λ (x : AccessPolicy). SharesRole context.roles x.allowed_roles) p shares in
              elim n [ ]
        ]

    from :
        ((e : EndpointAccessPolicy) × IsFirst upper endpoints method path e
          × SharesRole context.roles e.access_policy.allowed_roles)
        → require_access (policy_for_scope upper endpoints unlisted method path) context
          ≡ ok context
    from (e, first, shares) =
        let p : policy_for_scope upper endpoints unlisted method path ≡ e.access_policy =
          rw first.listed (
            policy-first upper first.before first.after e unlisted method path first.others
              first.found) in
        rw p ((require_access_iff e.access_policy context).1 shares)
