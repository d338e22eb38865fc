-- ===== src/Tenant/RoundTrip.antt =====
-- The context that comes out of the headers is the one that went in.
use Prim.Native.Char.{Char}
use Prim.Native.String
use text.Mathlib.TextLemmas.{nil-append, cons-append}
use media_center.Prelude.{
  String, Bool, true, false, not, Option, none, some, List, [], ◌∷◌, ◌≡◌, refl, sym, ap, ◌∙◌, inl,
  inr, Bool-cases, str_eq, eq_iff, ◌==◌, arith, if◌then◌else◌,
}
use media_center.Text.{
  all_chars, is_token, is_tenant_id, is_space, is_white_space, between, split_on, strip,
}
use media_center.Text.Split.{split_on-single, split_on-joined}
use media_center.Text.Classes.{
  all_chars-append, token-plain, token-nonempty, tenant_id-plain, no_commas, no_spaces,
  strip-no_spaces,
}
use media_center.Access.{TenantContext}
use media_center.Exec.{ok}
use media_center.Tenant.{
  Forwarding, joined, roles_header, given, header_values, tenant_headers_from_context, prefer,
  stripped_roles, length, roles_from_header, optional_header, header,
  tenant_context_from_trusted_headers,
}

prefer-none : (o : Option String) → prefer o none ≡ o
prefer-none none = refl
prefer-none (some s) = refl

map_strip : Option String → Option String
map_strip none = none
map_strip (some s) = some (strip s)

-- The last value that is given under a name
last_given : String → List (String × Option String) → Option String
last_given name [] = none
last_given name ((key, value) ∷ rest) =
    prefer (last_given name rest) (if str_eq key name then value else none)

-- `str.lower` leaves these names as they are.
abbrev pub KeepsNames : (String → String) → List (String × Option String) → Type 0
KeepsNames lower [] = Unit
KeepsNames lower ((key, value) ∷ rest) = (lower key ≡ key) × KeepsNames lower rest

-- The texts of the context are identifiers as libs/shared/models.py has them.
abbrev pub AllTokens : List String → Type 0
AllTokens [] = Unit
AllTokens (s ∷ ss) = (is_token s ≡ true) × AllTokens ss

abbrev pub IsOptionalToken : Option String → Type 0
IsOptionalToken none = Unit
IsOptionalToken (some s) = is_token s ≡ true

abbrev pub IsIdentified : TenantContext → Type 0
IsIdentified context =
    (is_tenant_id context.tenant_id ≡ true)
    × IsOptionalToken context.subject
    × AllTokens context.roles
    × IsOptionalToken context.correlation_id

strip-token : (s : String) → is_token s ≡ true → strip s ≡ s
strip-token s h = strip-no_spaces s (no_spaces s (token-plain s h))

map_strip-optional : (o : Option String) → IsOptionalToken o → optional_header (map_strip o) ≡ o
unfolding map_strip
map_strip-optional none h = refl
map_strip-optional (some s) h = rw (strip-token s h, token-nonempty s h) refl

joined-no_spaces :
    (roles : List String)
    → AllTokens roles
    → all_chars (λ c. not (is_space c)) (joined roles) ≡ true
unfolding joined
joined-no_spaces [] h = unfold all_chars in refl
joined-no_spaces (r ∷ []) h = no_spaces r (token-plain r h.0)
joined-no_spaces (r ∷ s ∷ rs) h = all_chars-append _ r _ (no_spaces r (token-plain r h.0)) (
    all_chars-append _ "," _ (unfold all_chars is_space is_white_space between in refl)
      (joined-no_spaces (s ∷ rs) h.1))

nonempty-cons : (c : Char) (s : String) → str_eq (String.◌∷◌ c s) "" ≡ false
unfolding all_chars
nonempty-cons c s = elim (Bool-cases (str_eq (String.◌∷◌ c s) "")) [
  | inl e ↦
      let impossible : false ≡ true =
        ap (all_chars (λ d. false)) ((eq_iff (String.◌∷◌ c s) "").0 e) in
      cc
  | inr e ↦ e
]

nonempty-append : (s t : String) → str_eq s "" ≡ false → str_eq (String.◌++◌ s t) "" ≡ false
nonempty-append String.[] t h = cc
nonempty-append (String.◌∷◌ c s) t h = rw (cons-append c s t) (nonempty-cons c (String.◌++◌ s t))

after_comma : (s : String) → String.◌++◌ "," s ≡ String.◌∷◌ (String.char_at "," 0) s
after_comma s =
    cons-append (String.char_at "," 0) "" s ∙ ap (String.◌∷◌ (String.char_at "," 0)) (nil-append s)

split_on-joined_roles :
    (r : String) (rs : List String) → AllTokens (r ∷ rs) → split_on b',' (joined (r ∷ rs)) ≡ r ∷ rs
unfolding joined
split_on-joined_roles r [] h = split_on-single b',' r (no_commas r (token-plain r h.0))
split_on-joined_roles r (s ∷ rs) h = rw (after_comma (joined (s ∷ rs))) (
    split_on-joined b',' r _ (joined (s ∷ rs)) (no_commas r (token-plain r h.0)) refl
    ∙ ap (λ parts. r ∷ parts) (split_on-joined_roles s rs h.1))

stripped_roles-tokens : (roles : List String) → AllTokens roles → stripped_roles roles ≡ roles
unfolding stripped_roles
stripped_roles-tokens [] h = refl
stripped_roles-tokens (r ∷ rs) h =
    rw (strip-token r h.0, token-nonempty r h.0, stripped_roles-tokens rs h.1) refl

joined-nonempty :
    (r : String) (rs : List String) → AllTokens (r ∷ rs) → str_eq (joined (r ∷ rs)) "" ≡ false
unfolding joined
joined-nonempty r [] h = token-nonempty r h.0
joined-nonempty r (s ∷ rs) h = nonempty-append r _ (token-nonempty r h.0)

same_length : (ss : List String) → (length ss == length ss) ≡ true
same_length ss = ground arith

roles-again :
    (roles : List String)
    → AllTokens roles
    → roles_from_header (map_strip (roles_header roles)) ≡ ok roles
unfolding roles_from_header map_strip
roles-again [] h = refl
roles-again (r ∷ rs) h =
    let stripped : strip (joined (r ∷ rs)) ≡ joined (r ∷ rs) =
      strip-no_spaces (joined (r ∷ rs)) (joined-no_spaces (r ∷ rs) h) in
    rw
      (
        stripped,
        stripped,
        joined-nonempty r rs h,
        split_on-joined_roles r rs h,
        stripped_roles-tokens (r ∷ rs) h,
        same_length (r ∷ rs),
      )
      refl

skipped : (later : Option String) (b : Bool) → later ≡ prefer later (if b then none else none)
skipped later true = sym (prefer-none later)
skipped later false = sym (prefer-none later)

either :
    (later : Option String) (value : String) (b : Bool)
    → prefer (map_strip later) (if b then some (strip value) else none)
      ≡ map_strip (prefer later (if b then some value else none))
unfolding map_strip
either none value true = refl
either none value false = refl
either (some s) value b = refl

module _ (lower : String → String) where
  header-given :
      (name : String) (fields : List (String × Option String))
      → KeepsNames lower fields
      → header lower name (given fields) ≡ map_strip (last_given name fields)
  unfolding header given last_given map_strip
  header-given name [] k = refl
  header-given name ((key, none) ∷ rest) k =
      header-given name rest k.1 ∙ ap map_strip (skipped (last_given name rest) (str_eq key name))
  header-given name ((key, some value) ∷ rest) k =
      rw (k.0, header-given name rest k.1) (either (last_given name rest) value (str_eq key name))

  module _ (context : TenantContext) (forwarding : Forwarding)
      (k : KeepsNames lower (header_values context forwarding)) where
    value_of : String → Option String
    unfolding tenant_headers_from_context
    value_of name = header lower name (tenant_headers_from_context context forwarding)

    found :
        (name : String)
        → value_of name ≡ map_strip (last_given name (header_values context forwarding))
    unfolding value_of tenant_headers_from_context
    found name = header-given name (header_values context forwarding) k

    tenant-found : value_of "x-tenant-id" ≡ some (strip context.tenant_id)
    unfolding last_given map_strip
    tenant-found = found "x-tenant-id"

    subject-found : value_of "x-subject-id" ≡ map_strip context.subject
    unfolding last_given
    subject-found = found "x-subject-id" ∙ ap map_strip (prefer-none context.subject)

    roles-found : value_of "x-actor-roles" ≡ map_strip (roles_header context.roles)
    unfolding last_given
    roles-found =
        let o = roles_header context.roles in
        found "x-actor-roles" ∙ ap map_strip (prefer-none (prefer o none) ∙ prefer-none o)

    correlation-found : value_of "x-correlation-id" ≡ map_strip context.correlation_id
    unfolding last_given
    correlation-found =
        let o = context.correlation_id in
        found "x-correlation-id"
        ∙ ap map_strip (
            prefer-none (prefer (prefer o none) none) ∙ prefer-none (prefer o none) ∙ prefer-none o)

  -- What `tenant_context_from_trusted_headers` reads from the headers of
  -- `tenant_headers_from_context` is the context, if its texts are identifiers as libs/shared/models.py
  -- has them, and str.lower leaves the names of the headers as they are.
  pub tenant_context-headers :
      (context : TenantContext) (forwarding : Forwarding)
      → KeepsNames lower (header_values context forwarding)
      → IsIdentified context
      → tenant_context_from_trusted_headers lower (tenant_headers_from_context context forwarding)
        ≡ ok context
  unfolding tenant_context_from_trusted_headers value_of
  tenant_context-headers context forwarding k (t, s, r, c) =
      let same_tenant : strip context.tenant_id ≡ context.tenant_id =
        strip-no_spaces context.tenant_id (no_spaces _ (tenant_id-plain _ t)) in
      rw
        (
          correlation-found context forwarding k,
          tenant-found context forwarding k,
          subject-found context forwarding k,
          roles-found context forwarding k,
          same_tenant,
          t,
          roles-again context.roles r,
          map_strip-optional context.correlation_id c,
          map_strip-optional context.subject s,
        )
        refl
