-- ===== src/Tests/Nodes.antt =====
-- A policy with two peers, and a key, over identifiers that are texts.
use colloq.Prelude.{
  ℕ, String, Bool, ◌≡◌, ◌≢◌, ◌↔◌, ◌⊎◌, refl, Option, some, none, List, [], ◌∷◌, Memᴰ, All, ok, err,
  eq_iff, arith, length, Result, some_inj, eqb, if◌then◌else◌, true, false, Bool-cases, inl, inr,
  sym, ap, ◌∙◌,
}
use colloq.Node.{
  EndpointIds, SecretKeys, AuthorizationPolicy, NodeError, missing_address, default_policy, allow,
  authorize, authorized_peers, rule_for, decode_32_bytes, node_secret_key, node_endpoint_id,
  from_secret_key, from_addr, endpoint_addr,
}
use colloq.Node.Policy.{IsPolicy}
use colloq.Node.Grants.{IsOrderly, authorize_iff, allow-IsOrderly, authorize-allow}
use colloq.Node.Peers.{Listed, authorized_peers-authorize}
use colloq.Node.Keys.{Key32, node_secret_key-from_secret_key, endpoint_addr-from_addr}
use package.colloq.Tests.Plans.{talk_plan}

abbrev ids : EndpointIds String
ids = record { to_string = λ i. i; from_str = some }

reads : (i : String) → ids.from_str (ids.to_string i) ≡ some i
reads i = refl

client_named : ◌≢◌ {A = String} "client" ""
client_named e = cc (e)

server_named : ◌≢◌ {A = String} "server" ""
server_named e = cc (e)

plan_named : talk_plan.plan_identity ≢ ""
plan_named e = cc (e)

default-IsOrderly : IsOrderly ids default_policy
default-IsOrderly = record { policy = record { format = refl; rules = tt }; sorted = tt }

abbrev one_peer : AuthorizationPolicy
one_peer = record {
  colloq_authorization = "0.1.0";
  rules = record { endpoint_identity = "bob"; role = "client"; plan = "p" } ∷ [];
}

one_peer_allowed : allow ids default_policy "bob" "client" talk_plan ≡ one_peer
unfolding allow colloq.Node.allows colloq.Prelude.Sorting.sort_by
one_peer_allowed = refl

one_peer-IsOrderly : IsOrderly ids one_peer
one_peer-IsOrderly = record {
  policy = record {
    format = refl;
    rules = (record { peer = ("bob", refl); role = client_named; plan = plan_named }, tt);
  };
  sorted = (tt, tt);
}

bob_authorized : authorize ids one_peer "bob" "client" talk_plan ≡ ok tt
unfolding authorize colloq.Node.validate_policy colloq.Node.require_version
    colloq.Node.validate_rules colloq.Node.parse_endpoint_id colloq.Node.allows
bob_authorized = refl

authorize_iff_example :
    (authorize ids one_peer "bob" "client" talk_plan ≡ ok tt)
    ↔ (IsPolicy ids one_peer × Memᴰ (rule_for ids "bob" "client" talk_plan) one_peer.rules)
authorize_iff_example = authorize_iff ids one_peer "bob" "client" talk_plan

allow-IsOrderly_example : IsOrderly ids (allow ids one_peer "amy" "server" talk_plan)
allow-IsOrderly_example =
    allow-IsOrderly ids reads one_peer "amy" "server" talk_plan server_named plan_named
      one_peer-IsOrderly

authorize-allow_example :
    (authorize ids (allow ids one_peer "amy" "server" talk_plan) "bob" "server" talk_plan ≡ ok tt)
    ↔ (((◌≡◌ {A = String} "bob" "amy")
          × (◌≡◌ {A = String} "server" "server")
          × (talk_plan.plan_identity ≡ talk_plan.plan_identity))
        ⊎ (authorize ids one_peer "bob" "server" talk_plan ≡ ok tt))
authorize-allow_example =
    authorize-allow ids reads one_peer "amy" "bob" "server" "server" talk_plan talk_plan
      server_named plan_named one_peer-IsOrderly

authorized_peers-authorize_example :
    (ps : List String) × (authorized_peers ids one_peer "client" talk_plan ≡ ok ps)
    × Memᴰ "bob" ps
    × ((j : String) → Memᴰ j ps ↔ Listed ids "client" talk_plan.plan_identity one_peer.rules j)
authorized_peers-authorize_example =
    authorized_peers-authorize ids reads one_peer "bob" "client" talk_plan bob_authorized

abbrev zeros : List ℕ
zeros =
    0 ∷ 0 ∷ 0 ∷ 0 ∷ 0 ∷ 0 ∷ 0 ∷ 0 ∷ 0 ∷ 0 ∷ 0 ∷ 0 ∷ 0 ∷ 0 ∷ 0 ∷ 0 ∷ 0 ∷ 0 ∷ 0 ∷ 0 ∷ 0 ∷ 0 ∷ 0 ∷ 0
    ∷ 0 ∷ 0 ∷ 0 ∷ 0 ∷ 0 ∷ 0 ∷ 0 ∷ 0 ∷ []

-- A key with one bit.
abbrev key_bytes : Bool → List ℕ
key_bytes b =
    (if b then 171 else 0)
    ∷ 0
    ∷ 0
    ∷ 0
    ∷ 0
    ∷ 0
    ∷ 0
    ∷ 0
    ∷ 0
    ∷ 0
    ∷ 0
    ∷ 0
    ∷ 0
    ∷ 0
    ∷ 0
    ∷ 0
    ∷ 0
    ∷ 0
    ∷ 0
    ∷ 0
    ∷ 0
    ∷ 0
    ∷ 0
    ∷ 0
    ∷ 0
    ∷ 0
    ∷ 0
    ∷ 0
    ∷ 0
    ∷ 0
    ∷ 0
    ∷ 0
    ∷ []

abbrev bit_of : List ℕ → Bool
bit_of [] = false
bit_of (b ∷ bytes) = eqb b 171

abbrev keys : SecretKeys Bool String
keys = record {
  from_bytes = bit_of;
  to_bytes = key_bytes;
  public = λ b. if b then "amy" else "bob";
}

key_sized : (b : Bool) → Key32 (keys.to_bytes b)
key_sized true = (refl, ground arith)
key_sized false = (refl, ground arith)

key_read : (b : Bool) → keys.from_bytes (keys.to_bytes b) ≡ b
key_read true = refl
key_read false = refl

node_secret_key-from_secret_key_example :
    (node_secret_key ids keys (from_secret_key ids keys true) ≡ ok true)
    × (node_endpoint_id ids keys (from_secret_key ids keys true) ≡ ok "amy")
node_secret_key-from_secret_key_example =
    node_secret_key-from_secret_key ids keys key_sized key_read true

abbrev zeros_text : String
zeros_text = "0000000000000000000000000000000000000000000000000000000000000000"

zeros_decoded : decode_32_bytes zeros_text ≡ ok zeros
unfolding decode_32_bytes colloq.Prelude.Hex.decode_chunks colloq.Prelude.Hex.from_str_radix
    colloq.Prelude.Hex.hex_value
zeros_decoded = refl

abbrev port : ℕ
port = 7880

endpoint_addr-from_addr_example :
    (endpoint_addr ids (from_addr ids ("amy", port ∷ [])) ≡ ok ("amy", port ∷ []))
    × (◌≡◌ {A = Result NodeError (String × List ℕ)}
        (endpoint_addr ids (from_addr ids ("amy", [])))
        (err missing_address))
endpoint_addr-from_addr_example = endpoint_addr-from_addr ids reads "amy" port []
