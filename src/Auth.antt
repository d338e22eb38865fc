-- ===== src/Auth.antt =====
-- libs/shared/auth.py and the tokens of libs/shared/tenant.py: the context that a token's claims
-- give. Cryptography, base64 and JSON are functions of the standard library, which come from outside.
pub mod Jwt
pub mod Sessions
pub mod Totp
pub mod Ends
pub mod Revoked
pub mod Replay
pub mod Signed
pub mod Digits
pub mod Window
pub mod Confirmed
pub mod BeyondAscii
pub mod Tests
use Prim.Native.String
use Prim.Native.Char.{Char, code}
use media_center.Prelude.{
  ℕ, String, Bool, true, false, Option, none, some, List, [], ◌∷◌, str_eq, if◌then◌else◌, ltb,
}
use media_center.Text.{is_tenant_id, is_space, all_chars}
use media_center.Value.{Json, null, str, arr, Items, nil, cons, Fields, get_field}
use media_center.Access.{TenantContext}
use media_center.Exec.{Result, ok, err, tenant_isolation, unauthorized}

-- What comes from base64, json, hmac and hashlib.
pub record Crypto (Bytes : Type 0) : Type 0 where
  -- urlsafe_b64encode(data).decode("ascii")
  pub urlsafe_b64encode : Bytes → String
  -- urlsafe_b64decode(text) on ASCII, `none` for binascii.Error
  pub urlsafe_b64decode : String → Option Bytes
  -- json.dumps(value, ensure_ascii=False, separators=(",", ":"), sort_keys=True).encode("utf-8")
  pub dumps : Fields → Bytes
  -- json.loads(data), `none` for JSONDecodeError and UnicodeDecodeError
  pub loads : Bytes → Option Json
  -- hmac.new(key, message.encode("ascii"), hashlib.sha256).digest()
  pub hmac_sha256 : Bytes → String → Bytes
  -- hmac.compare_digest
  pub compare_digest : Bytes → Bytes → Bool

-- text.isascii()
pub is_ascii : String → Bool
is_ascii = all_chars (λ c. ltb c 128)

-- The rest of a function after a call that may raise.
infixl 5 ◌>>=◌ ◌>>◌
abbrev pub ◌>>=◌ : {A B : Type 0} → Result A → (A → Result B) → Result B
ok value >>= next = next value
err error >>= next = err error

abbrev pub ◌>>◌ : {A B : Type 0} → Result A → Result B → Result B
first >> second = first >>= λ _. second

-- _validated_tenant_id
abbrev pub validated_tenant_id : Option Json → Result String
validated_tenant_id (some (str value)) =
    if is_tenant_id value then ok value else err tenant_isolation
validated_tenant_id _ = err tenant_isolation

-- _optional_string_claim
abbrev pub optional_string_claim : Option Json → Result (Option String)
optional_string_claim none = ok none
optional_string_claim (some null) = ok none
optional_string_claim (some (str value)) = ok (some value)
optional_string_claim (some _) = err unauthorized

-- A character in front of the first word, or of a new one.
abbrev pub grow : Bool → Char → List String → List String
grow true c (word ∷ words) = String.◌∷◌ c word ∷ words
grow _ c words = String.◌∷◌ c "" ∷ words

abbrev pub starts_word : String → Bool
starts_word String.[] = false
starts_word (String.◌∷◌ c s) = if is_space (code c) then false else true

-- value.split(): the words between white space
pub split_words : String → List String
split_words String.[] = []
split_words (String.◌∷◌ c s) =
    let words = split_words s in if is_space (code c) then words else grow (starts_word s) c words

abbrev pub words_of : Option Json → List String
words_of (some (str scope)) = split_words scope
words_of _ = []

abbrev pub cons_role : Json → Result (List String) → Result (List String)
cons_role (str role) (ok roles) = ok (role ∷ roles)
cons_role _ _ = err unauthorized

pub roles_of_items : Items → Result (List String)
roles_of_items nil = ok []
roles_of_items (cons item items) = cons_role item (roles_of_items items)

-- _roles_from_claims, for the claims `roles` and `scope`
abbrev pub roles_from_claims : Option Json → Option Json → Result (List String)
roles_from_claims none scope = ok (words_of scope)
roles_from_claims (some null) scope = ok (words_of scope)
roles_from_claims (some (str role)) scope = ok (role ∷ [])
roles_from_claims (some (arr items)) scope = roles_of_items items
roles_from_claims (some _) scope = err unauthorized

-- tenant_context_from_claims
pub tenant_context_from_claims : Fields → Option String → Result TenantContext
tenant_context_from_claims claims correlation_id = do
  tenant_id ← validated_tenant_id (get_field "tenant_id" claims)
  subject ← optional_string_claim (get_field "sub" claims)
  roles ← roles_from_claims (get_field "roles" claims) (get_field "scope" claims)
  ok (record {
    tenant_id = tenant_id;
    subject = subject;
    roles = roles;
    correlation_id = correlation_id;
  })
