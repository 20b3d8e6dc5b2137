-- ===== src/Node/Keys.antt =====
-- Secret keys and tickets as they are written and read.
use colloq.Prelude.{
  ℕ, ◌<◌, String, ◌≡◌, refl, sym, ap, Option, none, some, List, [], ◌∷◌, true, not, ◌||◌, &&_iff,
  eqb, eqb_of_eq, eq_of_eqb, eq_refl, length, all, All, Result, ok, err, ok_inj, ok≢err, arith, ltb,
  Bool-cases, inl, inr,
}
use colloq.Prelude.Hex.{
  encode_hex, is_hex, encode_hex-digits, decode_chunks-encode_hex, decode_chunks-bytes,
}
use colloq.Prelude.Text.{codes}
use package.colloq.Node.{
  NodeError, missing_address, EndpointIds, SecretKeys, decode_32_bytes, is_ascii, or_secret_key,
  require_version, node_secret_key, node_endpoint_id, from_secret_key, from_addr, endpoint_addr,
}
use package.colloq.Node.Policy.{parse-ok}

-- What a key writes: 32 bytes.
abbrev pub Key32 : List ℕ → Type 0
Key32 bytes = (length bytes ≡ 32) × All (λ b. b < 256) bytes

read-ok : (o : Option (List ℕ)) (bytes : List ℕ) → or_secret_key o ≡ ok bytes → o ≡ some bytes
unfolding or_secret_key
read-ok none bytes h = cc
read-ok (some x) bytes h = ap some (ok_inj h)

hex-ascii : (text : List ℕ) → all is_hex text ≡ true → is_ascii text ≡ true
unfolding is_ascii
hex-ascii [] h = refl
hex-ascii (c ∷ text) h =
    let (a, b) = (&&_iff (is_hex c) (all is_hex text)).0 h in
    let small : ltb c 128 ≡ true = ground (arith, a) in rw small (hex-ascii text b)

decode_32_bytes-encode_hex :
    (bytes : List ℕ) → Key32 bytes → decode_32_bytes (encode_hex bytes) ≡ ok bytes
unfolding decode_32_bytes or_secret_key
decode_32_bytes-encode_hex bytes k =
    let (n, h) = encode_hex-digits bytes in
    let full : length (codes (encode_hex bytes)) ≡ 64 = omega (arith, n, k.0) in
    rw
      (
        eqb_of_eq {a = length (codes (encode_hex bytes))} {b = 64} full,
        hex-ascii (codes (encode_hex bytes)) h,
        decode_chunks-encode_hex bytes k.1,
      )
      refl

-- What `decode_32_bytes` returns is 32 numbers below 256.
pub decode_32_bytes-Key32 :
    (text : String) (bytes : List ℕ) → decode_32_bytes text ≡ ok bytes → Key32 bytes
unfolding decode_32_bytes
decode_32_bytes-Key32 text bytes h =
    elim (Bool-cases (not (eqb (length (codes text)) 64) || not (is_ascii (codes text)))) [
      | inl e ↦ absurd (ok≢err (sym (rw e at h)))
      | inr e ↦
          let full : length (codes text) ≡ 64 =
            eq_of_eqb {a = length (codes text)} {b = 64} (ground (arith, e)) in
          let (n, all) = decode_chunks-bytes (codes text) bytes (read-ok _ _ (rw e at h)) in
          (omega (arith, n, full), all)
    ]

module _ {K I : Type 0} (ids : EndpointIds I) (keys : SecretKeys K I) where
  read_secret :
      (k : K)
      → Key32 (keys.to_bytes k)
      → keys.from_bytes (keys.to_bytes k) ≡ k
      → node_secret_key ids keys (from_secret_key ids keys k) ≡ ok k
  unfolding node_secret_key from_secret_key require_version
  read_secret k sized reads =
      rw
        (
          decode_32_bytes-encode_hex (keys.to_bytes k) sized,
          reads,
          eq_refl (ids.to_string (keys.public k)),
        )
        refl

  -- If a key is written as 32 bytes and read back from them, the identity made from a secret key
  -- gives back the key and its public identifier.
  pub node_secret_key-from_secret_key :
      ((k : K) → Key32 (keys.to_bytes k))
      → ((k : K) → keys.from_bytes (keys.to_bytes k) ≡ k)
      → (k : K)
      → (node_secret_key ids keys (from_secret_key ids keys k) ≡ ok k)
        × (node_endpoint_id ids keys (from_secret_key ids keys k) ≡ ok (keys.public k))
  unfolding node_endpoint_id
  node_secret_key-from_secret_key sized reads k =
      let read = read_secret k (sized k) (reads k) in (read, rw read refl)

module _ {I A : Type 0} (ids : EndpointIds I) where
  -- A ticket gives its address back, or has none.
  pub endpoint_addr-from_addr :
      ((i : I) → ids.from_str (ids.to_string i) ≡ some i)
      → (i : I) (a : A) (addresses : List A)
      → (endpoint_addr ids (from_addr ids (i, a ∷ addresses)) ≡ ok (i, a ∷ addresses))
        × (◌≡◌ {A = Result NodeError (I × List A)}
            (endpoint_addr ids (from_addr ids (i, [])))
            (err missing_address))
  unfolding endpoint_addr from_addr require_version
  endpoint_addr-from_addr reads i a addresses =
      (rw ((parse-ok ids (ids.to_string i) i).1 (reads i)) refl, refl)
