-- ===== src/Access/Roles.antt =====
-- The role check, as membership.
use media_center.Prelude.{
  String, Bool, true, List, [], ◌∷◌, ◌≡◌, ◌↔◌, refl, inl, inr, Bool-cases, str_eq, eq_iff, select,
  Member, here, there, Member-select, select-Member, arith, if◌then◌else◌,
}
use media_center.Exec.{ok, err, forbidden}
use media_center.Access.{
  TenantContext, AccessPolicy, governance_roles, includes, intersects, require_access,
}

-- `value in values`, as membership
includes-Member : (s : String) (ss : List String) → includes s ss ≡ true → Member s ss
unfolding includes
includes-Member s [] h = cc
includes-Member s (t ∷ ts) h = elim (Bool-cases (str_eq s t)) [
  | inl e ↦ here ((eq_iff s t).0 e)
  | inr e ↦ there (includes-Member s ts (rw e at h))
]

Member-includes : (s : String) (ss : List String) → Member s ss → includes s ss ≡ true
unfolding includes
Member-includes s [] m = elim m [ ]
Member-includes s (t ∷ ts) (here e) = rw ((eq_iff s t).1 e) refl
Member-includes s (t ∷ ts) (there m) = let later = Member-includes s ts m in ground arith

intersects-Member :
    (xs ys : List String) → intersects xs ys ≡ true → (x : String) × Member x xs × Member x ys
unfolding intersects
intersects-Member [] ys h = cc
intersects-Member (x ∷ xs) ys h = elim (Bool-cases (includes x ys)) [
  | inl e ↦ (x, here refl, includes-Member x ys e)
  | inr e ↦ let (y, m, n) = intersects-Member xs ys (rw e at h) in (y, there m, n)
]

Member-intersects :
    (x : String) (xs ys : List String) → Member x xs → Member x ys → intersects xs ys ≡ true
unfolding intersects
Member-intersects x [] ys m n = elim m [ ]
Member-intersects x (y ∷ xs) ys (here e) n =
    let found = Member-includes y ys (rw e at n) in ground arith
Member-intersects x (y ∷ xs) ys (there m) n =
    let later = Member-intersects x xs ys m n in ground arith

-- A role of the governance that both lists have
abbrev pub SharesRole : List String → List String → Type 0
SharesRole roles allowed =
    (role : String) × Member role roles × Member role governance_roles × Member role allowed

-- Access is given for a role of the governance that the context has and the policy allows.
pub require_access_iff :
    (policy : AccessPolicy) (context : TenantContext)
    → (require_access policy context ≡ ok context) ↔ SharesRole context.roles policy.allowed_roles
unfolding require_access
require_access_iff policy context = (to, from)
  where
    known : String → Bool
    known role = includes role governance_roles

    shared : Bool
    shared = intersects (select known context.roles) policy.allowed_roles

    to :
        (if shared then ok context else err forbidden) ≡ ok context
        → SharesRole context.roles policy.allowed_roles
    to h = elim (Bool-cases shared) [
      | inr e ↦ let impossible : err forbidden ≡ ok context = rw e at h in cc
      | inl e ↦
          let (role, m, n) =
            intersects-Member (select known context.roles) policy.allowed_roles e in
          let (given, k) = Member-select known context.roles m in
          (role, given, includes-Member role governance_roles k, n)
    ]

    from :
        SharesRole context.roles policy.allowed_roles
        → (if shared then ok context else err forbidden) ≡ ok context
    from (role, m, g, n) =
        let k = Member-includes role governance_roles g in
        let e : shared ≡ true =
          Member-intersects role (select known context.roles) policy.allowed_roles
            (select-Member known context.roles m k) n in
        rw e refl
