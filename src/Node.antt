-- ===== src/Node.antt =====
-- src/node.rs: node identities, endpoint tickets and the authorization policy. Iroh's keys and
-- identifiers are parameters. Files and their JSON are input and output and are left out.
pub mod Policy
pub mod Grants
pub mod Peers
pub mod Keys
use Prim.Native.String.{compare}
use colloq.Prelude.{
  ℕ, String, Option, none, some, List, [], ◌∷◌, ◌++◌, map, Bool, true, false, not, ◌&&◌, ◌||◌, ◌==◌,
  eqb, if◌then◌else◌, length, any, all, ltb, Result, ok, err, ◌>>=◌, ◌>>◌, require, Ordering,
}
use colloq.Prelude.Hex.{encode_hex, decode_chunks}
use colloq.Prelude.Order.{lex, by_key}
use colloq.Prelude.Sorting.{sort_by}
use colloq.Prelude.Text.{codes}
use colloq.Machine.{PreparedPlan}

abbrev pub node_identity_format : String
node_identity_format = "0.1.0"

abbrev pub endpoint_ticket_format : String
endpoint_ticket_format = "0.1.0"

abbrev pub authorization_format : String
authorization_format = "0.1.0"

-- Without the errors of files and JSON.
pub data NodeError : Type 0 where
  version : (artifact actual : String) → NodeError
  endpoint_identity : String → NodeError
  secret_key : NodeError
  identity_mismatch : (declared : String) → NodeError
  missing_address : NodeError
  unauthorized : (peer role plan : String) → NodeError
  no_authorized_peers : (role plan : String) → NodeError

unfoldable pub require_version : String → String → String → Result NodeError (Unit {0})
require_version artifact actual expected = require (actual == expected) (version artifact actual)

-- Iroh's `EndpointId`: how it is printed and parsed.
pub record EndpointIds (I : Type 0) : Type 0 where
  pub to_string : I → String
  pub from_str : String → Option I

-- Iroh's `SecretKey` and its public key.
pub record SecretKeys (K I : Type 0) : Type 0 where
  pub from_bytes : List ℕ → K
  pub to_bytes : K → List ℕ
  pub public : K → I

pub record NodeIdentity : Type 0 where
  pub colloq_node : String
  pub endpoint_identity : String
  pub secret_key : String

pub record EndpointTicket (A : Type 0) : Type 0 where
  pub colloq_endpoint : String
  pub endpoint_identity : String
  pub addresses : List A

pub record AuthorizationRule : Type 0 where
  pub endpoint_identity : String
  pub role : String
  pub plan : String

pub record AuthorizationPolicy : Type 0 where
  pub colloq_authorization : String
  pub rules : List AuthorizationRule

-- `AuthorizationPolicy::default`
abbrev pub default_policy : AuthorizationPolicy
default_policy = record { colloq_authorization = authorization_format; rules = [] }

is_ascii : List ℕ → Bool
is_ascii text = all (λ c. ltb c 128) text

or_secret_key : Option (List ℕ) → Result NodeError (List ℕ)
or_secret_key none = err secret_key
or_secret_key (some bytes) = ok bytes

-- A text of ASCII characters has as many bytes as characters.
unfoldable pub decode_32_bytes : String → Result NodeError (List ℕ)
unfolding is_ascii or_secret_key
decode_32_bytes encoded =
    if not (eqb (length (codes encoded)) 64) || not (is_ascii (codes encoded))
    then err secret_key
    else or_secret_key (decode_chunks (codes encoded))

abbrev key_of : AuthorizationRule → String × (String × String)
key_of r = (r.endpoint_identity, (r.role, r.plan))

abbrev pub compare_rule : AuthorizationRule → AuthorizationRule → Ordering
compare_rule = by_key key_of (lex compare (lex compare compare))

module _ {I : Type 0} (ids : EndpointIds I) where
  parsed : String → Option I → Result NodeError I
  parsed value none = err (endpoint_identity value)
  parsed value (some id) = ok id

  unfoldable pub parse_endpoint_id : String → Result NodeError I
  unfolding parsed
  parse_endpoint_id value = parsed value (ids.from_str value)

  abbrev pub rule_for : I → String → PreparedPlan → AuthorizationRule
  rule_for endpoint role plan = record {
    endpoint_identity = ids.to_string endpoint;
    role = role;
    plan = plan.plan_identity;
  }

  abbrev pub same_rule : AuthorizationRule → AuthorizationRule → Bool
  same_rule rule wanted =
      rule.endpoint_identity == wanted.endpoint_identity
      && rule.role == wanted.role
      && rule.plan == wanted.plan

  unfoldable pub allows : AuthorizationPolicy → AuthorizationRule → Bool
  allows p wanted = any (λ rule. same_rule rule wanted) p.rules

  -- `AuthorizationPolicy::allow`
  unfoldable pub allow : AuthorizationPolicy → I → String → PreparedPlan → AuthorizationPolicy
  allow p endpoint role plan =
      let wanted = rule_for endpoint role plan in
      if not (allows p wanted)
      then record p { rules = sort_by compare_rule (p.rules ++ (wanted ∷ [])) }
      else p

  -- The loop of `validate` over the rules.
  unfoldable pub validate_rules : List AuthorizationRule → Result NodeError (Unit {0})
  validate_rules [] = ok tt
  validate_rules (rule ∷ rules) = do
    id ← parse_endpoint_id rule.endpoint_identity
    require (not (rule.role == "" || rule.plan == ""))
        (unauthorized rule.endpoint_identity rule.role rule.plan)
    validate_rules rules

  -- `AuthorizationPolicy::validate`
  unfoldable pub validate_policy : AuthorizationPolicy → Result NodeError (Unit {0})
  validate_policy p = do
    require_version "Colloq authorization policy" p.colloq_authorization authorization_format
    validate_rules p.rules

  -- `AuthorizationPolicy::authorize`
  unfoldable pub authorize :
      AuthorizationPolicy → I → String → PreparedPlan → Result NodeError (Unit {0})
  authorize p endpoint role plan = do
    validate_policy p
    require (allows p (rule_for endpoint role plan))
        (unauthorized (ids.to_string endpoint) role plan.plan_identity)

  -- `filter`, `map` and `collect`.
  unfoldable pub peers_of : List AuthorizationRule → String → String → Result NodeError (List I)
  peers_of [] role plan = ok []
  peers_of (rule ∷ rules) role plan =
      let rest = peers_of rules role plan in
      if rule.role == role && rule.plan == plan
      then (do id ← parse_endpoint_id rule.endpoint_identity; more ← rest; ok (id ∷ more))
      else rest

  found : String → String → List I → Result NodeError (List I)
  found role plan [] = err (no_authorized_peers role plan)
  found role plan (id ∷ peers) = ok (id ∷ peers)

  -- `AuthorizationPolicy::authorized_peers`
  unfoldable pub authorized_peers :
      AuthorizationPolicy → String → PreparedPlan → Result NodeError (List I)
  unfolding found
  authorized_peers p role plan = do
    validate_policy p
    peers ← peers_of p.rules role plan.plan_identity
    found role plan.plan_identity peers

  module _ {K : Type 0} (keys : SecretKeys K I) where
    -- `NodeIdentity::from_secret_key`
    unfoldable pub from_secret_key : K → NodeIdentity
    from_secret_key secret = record {
      colloq_node = node_identity_format;
      endpoint_identity = ids.to_string (keys.public secret);
      secret_key = encode_hex (keys.to_bytes secret);
    }

    -- `NodeIdentity::secret_key`
    unfoldable pub node_secret_key : NodeIdentity → Result NodeError K
    node_secret_key n = do
      require_version "Colloq node identity" n.colloq_node node_identity_format
      bytes ← decode_32_bytes n.secret_key
      require (ids.to_string (keys.public (keys.from_bytes bytes)) == n.endpoint_identity)
          (identity_mismatch n.endpoint_identity)
      ok (keys.from_bytes bytes)

    -- `NodeIdentity::endpoint_id`
    unfoldable pub node_endpoint_id : NodeIdentity → Result NodeError I
    node_endpoint_id n = do secret ← node_secret_key n; ok (keys.public secret)

  module _ {A : Type 0} where
    -- `EndpointTicket::from_addr`, of an address with an identifier and its IP addresses.
    unfoldable pub from_addr : I × List A → EndpointTicket A
    from_addr (id, addresses) = record {
      colloq_endpoint = endpoint_ticket_format;
      endpoint_identity = ids.to_string id;
      addresses = addresses;
    }

    abbrev no_addresses : List A → Bool
    no_addresses [] = true
    no_addresses (a ∷ rest) = false

    -- `EndpointTicket::endpoint_addr`
    unfoldable pub endpoint_addr : EndpointTicket A → Result NodeError (I × List A)
    endpoint_addr t = do
      require_version "Colloq endpoint ticket" t.colloq_endpoint endpoint_ticket_format
      require (not (no_addresses t.addresses)) missing_address
      id ← parse_endpoint_id t.endpoint_identity
      ok (id, t.addresses)
