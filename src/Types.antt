-- ===== src/Types.antt =====
-- src/types.ts: the domain types that the other modules share. Branded strings (addresses, nonces,
-- tool keys, hashes, signatures) are texts, as they are at run time.
use zuul_proxy.Prelude.{◌≡◌, refl, ◌⊎◌, inl, inr, ℕ, String, Bool, List, [], ◌∷◌}
use zuul_proxy.Prelude.Number.{Number}

-- An `unknown` value: a string, a number or anything else.
pub data Value : Type 0 where
  text : String → Value
  number : Number → Value
  other : Value

pub data PermissionAction : Type 0 where
  read create update delete : PermissionAction

pub data HttpMethod : Type 0 where
  get head post put patch delete : HttpMethod

-- `Permission`: actions granted on a tool.
pub record Permission : Type 0 where
  pub tool : String
  pub actions : List PermissionAction

pub record Role : Type 0 where
  pub id : String
  pub name : String
  pub permissions : List Permission
  pub is_active : Bool

pub record SignedRequest : Type 0 where
  pub agent_address : String
  pub signature : String
  pub nonce : String
  pub timestamp : Number
  pub method : String
  pub target_url : String

pub record AuditEntry : Type 0 where
  pub audit_id : String
  pub agent : String
  pub timestamp : ℕ
  pub encrypted_payload : String
  pub payload_hash : String
  pub agent_signature : String
  pub proxy_signature : String

-- `ACTION_TO_METHODS`
unfoldable pub action_to_methods : PermissionAction → List HttpMethod
action_to_methods read = HttpMethod.get ∷ HttpMethod.head ∷ []
action_to_methods create = HttpMethod.post ∷ []
action_to_methods update = HttpMethod.put ∷ HttpMethod.patch ∷ []
action_to_methods PermissionAction.delete = HttpMethod.delete ∷ []

-- `Result<T, E>`
pub data Result (E A : Type 0) : Type 0 where
  ok : A → Result E A
  err : E → Result E A

pub Result-cases :
    {E A : Type 0} (r : Result E A) → ((a : A) × (r ≡ ok a)) ⊎ ((e : E) × (r ≡ err e))
Result-cases (ok a) = inl (a, refl)
Result-cases (err e) = inr (e, refl)
