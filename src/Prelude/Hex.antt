-- ===== src/Prelude/Hex.antt =====
-- Bytes as hexadecimal digits, and back.
use Prim.Native.Char.{Char, code}
use Prim.Native.Nat.{ℕ, zero, suc, ◌+◌, ◌-◌, ◌*◌, ◌/◌, ◌%◌, ◌<◌}
use Prim.Native.String.{String}
use mathlib.Core.Bool.{Bool, true, false, ◌&&◌, ◌||◌}
use mathlib.Core.List.{List, [], ◌∷◌}
use mathlib.Core.Option.{Option, none, some}
use mathlib.Core.Path.{◌≡◌, refl, ap, ◌∙◌, sym, subst}
use mathlib.Core.Logic.{inl, inr}
use native.Mathlib.Omega.{arith}
use package.colloq.Prelude.Lists.{length, all, All}
use package.colloq.Prelude.Tests.{leb, eqb, if◌then◌else◌, &&_iff, Bool-cases, eq_of_eqb, some_inj}
use package.colloq.Prelude.Text.{codes, is_digit}

-- `is_ascii_hexdigit` and not `is_ascii_uppercase`
abbrev pub is_hex : ℕ → Bool
is_hex c = is_digit c || (leb b'a' c && leb c b'f')

digit_in : String → ℕ → Char
digit_in String.[] n = "0"
digit_in (String.◌∷◌ c s) zero = c
digit_in (String.◌∷◌ c s) (suc n) = digit_in s n

unfoldable pub hex_digit : ℕ → Char
unfolding digit_in
hex_digit n = digit_in "0123456789abcdef" n

-- `{byte:02x}` for each byte.
unfoldable pub encode_hex : List ℕ → String
encode_hex [] = ""
encode_hex (byte ∷ bytes) =
    String.◌∷◌ (hex_digit (byte / 16)) (String.◌∷◌ (hex_digit (byte % 16)) (encode_hex bytes))

-- `to_digit(16)`
unfoldable pub hex_value : ℕ → Option ℕ
hex_value c =
    if is_digit c
    then some (c - b'0')
    else if leb b'a' c && leb c b'f'
    then some (c - 87)
    else if leb b'A' c && leb c b'F'
    then some (c - 55)
    else none

two : Option ℕ → Option ℕ → Option ℕ
two (some high) (some low) = some (high * 16 + low)
two _ _ = none

-- `u8::from_str_radix` on two characters, the first of which may be a plus sign.
unfoldable pub from_str_radix : ℕ → ℕ → Option ℕ
unfolding two
from_str_radix c d = if eqb c b'+' then hex_value d else two (hex_value c) (hex_value d)

abbrev join : Option ℕ → Option (List ℕ) → Option (List ℕ)
join (some byte) (some bytes) = some (byte ∷ bytes)
join _ _ = none

-- The loop over the chunks of two bytes.
unfoldable pub decode_chunks : List ℕ → Option (List ℕ)
decode_chunks [] = some []
decode_chunks (c ∷ []) = some []
decode_chunks (c ∷ d ∷ text) = join (from_str_radix c d) (decode_chunks text)

digit_in-hex :
    (s : String) (n : ℕ) → all is_hex (codes s) ≡ true → is_hex (code (digit_in s n)) ≡ true
unfolding digit_in
digit_in-hex String.[] n h = refl
digit_in-hex (String.◌∷◌ c s) zero h = ((&&_iff _ _).0 h).0
digit_in-hex (String.◌∷◌ c s) (suc n) h = digit_in-hex s n (((&&_iff _ _).0 h).1)

hex_digit-hex : (n : ℕ) → is_hex (code (hex_digit n)) ≡ true
unfolding hex_digit
hex_digit-hex n = digit_in-hex "0123456789abcdef" n refl

pub encode_hex-digits :
    (bytes : List ℕ)
    → (length (codes (encode_hex bytes)) ≡ 2 * length bytes)
      × (all is_hex (codes (encode_hex bytes)) ≡ true)
unfolding encode_hex
encode_hex-digits [] = (refl, refl)
encode_hex-digits (byte ∷ bytes) =
    let (n, h) = encode_hex-digits bytes in
    (omega (arith, n), rw (hex_digit-hex (byte / 16), hex_digit-hex (byte % 16)) h)

hex_value-hex_digit : (n : ℕ) → n < 16 → hex_value (code (hex_digit n)) ≡ some n
unfolding hex_value hex_digit digit_in
hex_value-hex_digit zero h = refl
hex_value-hex_digit (suc zero) h = refl
hex_value-hex_digit (suc (suc zero)) h = refl
hex_value-hex_digit (suc (suc (suc zero))) h = refl
hex_value-hex_digit (suc (suc (suc (suc zero)))) h = refl
hex_value-hex_digit (suc (suc (suc (suc (suc zero))))) h = refl
hex_value-hex_digit (suc (suc (suc (suc (suc (suc zero)))))) h = refl
hex_value-hex_digit (suc (suc (suc (suc (suc (suc (suc zero))))))) h = refl
hex_value-hex_digit (suc (suc (suc (suc (suc (suc (suc (suc zero)))))))) h = refl
hex_value-hex_digit (suc (suc (suc (suc (suc (suc (suc (suc (suc zero))))))))) h = refl
hex_value-hex_digit (suc (suc (suc (suc (suc (suc (suc (suc (suc (suc zero)))))))))) h = refl
hex_value-hex_digit (suc (suc (suc (suc (suc (suc (suc (suc (suc (suc (suc zero))))))))))) h = refl
hex_value-hex_digit (suc (suc (suc (suc (suc (suc (suc (suc (suc (suc (suc (suc zero)))))))))))) h =
    refl
hex_value-hex_digit
      (suc (suc (suc (suc (suc (suc (suc (suc (suc (suc (suc (suc (suc zero))))))))))))) h =
    refl
hex_value-hex_digit
      (suc (suc (suc (suc (suc (suc (suc (suc (suc (suc (suc (suc (suc (suc zero)))))))))))))) h =
    refl
hex_value-hex_digit
      (suc (suc (suc (suc (suc (suc (suc (suc (suc (suc (suc (suc (suc (suc (suc zero)))))))))))))))
      h =
    refl
hex_value-hex_digit
      (suc
        (suc (suc (suc (suc (suc (suc (suc (suc (suc (suc (suc (suc (suc (suc (suc n))))))))))))))))
      h =
    absurd (omega (arith, h))

not-plus : (c n : ℕ) → hex_value c ≡ some n → eqb c b'+' ≡ false
unfolding hex_value
not-plus c n h = elim (Bool-cases (eqb c b'+')) [
  | inl e ↦ absurd (cc (ap hex_value (eq_of_eqb {a = c} {b = b'+'} e), h))
  | inr e ↦ e
]

from_str_radix-byte :
    (b : ℕ)
    → b < 256
    → from_str_radix (code (hex_digit (b / 16))) (code (hex_digit (b % 16))) ≡ some b
unfolding from_str_radix two
from_str_radix-byte b h =
    let high = hex_value-hex_digit (b / 16) (omega (arith, h)) in
    rw
      (
        not-plus (code (hex_digit (b / 16))) (b / 16) high,
        high,
        hex_value-hex_digit (b % 16) (omega arith),
      )
      (ap some (omega arith))

-- What is written is read back.
pub decode_chunks-encode_hex :
    (bytes : List ℕ)
    → All (λ b. b < 256) bytes
    → decode_chunks (codes (encode_hex bytes)) ≡ some bytes
unfolding decode_chunks encode_hex
decode_chunks-encode_hex [] h = refl
decode_chunks-encode_hex (b ∷ bytes) h =
    rw (from_str_radix-byte b h.0, decode_chunks-encode_hex bytes h.1) refl

pub encode_hex_inj :
    (xs ys : List ℕ)
    → All (λ b. b < 256) xs
    → All (λ b. b < 256) ys
    → codes (encode_hex xs) ≡ codes (encode_hex ys)
    → xs ≡ ys
encode_hex_inj xs ys hx hy e =
    some_inj
      (sym (decode_chunks-encode_hex xs hx) ∙ (ap decode_chunks e ∙ decode_chunks-encode_hex ys hy))

hex_value-bound : (c n : ℕ) → hex_value c ≡ some n → n < 16
unfolding hex_value
hex_value-bound c n h = ground arith

two-bound :
    (x y : Option ℕ) (b : ℕ)
    → ((n : ℕ) → x ≡ some n → n < 16)
    → ((n : ℕ) → y ≡ some n → n < 16)
    → two x y ≡ some b
    → b < 256
unfolding two
two-bound (some x) (some y) b f g h = omega (arith, f x refl, g y refl, some_inj h)
two-bound none y b f g h = cc
two-bound (some x) none b f g h = cc

from_str_radix-bound : (c d b : ℕ) → from_str_radix c d ≡ some b → b < 256
unfolding from_str_radix
from_str_radix-bound c d b h = elim (Bool-cases (eqb c b'+')) [
  | inl e ↦ omega (arith, hex_value-bound d b (rw e at h))
  | inr e ↦
      two-bound (hex_value c) (hex_value d) b (hex_value-bound c) (hex_value-bound d) (rw e at h)
]

join-some :
    (o : Option ℕ) (p : Option (List ℕ)) (bs : List ℕ)
    → join o p ≡ some bs
    → (b : ℕ) × (rest : List ℕ) × (o ≡ some b) × (p ≡ some rest) × (bs ≡ b ∷ rest)
join-some none p bs h = cc
join-some (some b) none bs h = cc
join-some (some b) (some rest) bs h = (b, rest, refl, refl, sym (some_inj h))

-- What is read: a byte for each two characters.
pub decode_chunks-bytes :
    (text bs : List ℕ)
    → decode_chunks text ≡ some bs
    → (length text / 2 ≡ length bs) × All (λ b. b < 256) bs
unfolding decode_chunks
decode_chunks-bytes [] bs h =
    subst (λ xs. (0 / 2 ≡ length xs) × All (λ b. b < 256) xs) (some_inj h) (refl, tt)
decode_chunks-bytes (c ∷ []) bs h =
    subst (λ xs. (1 / 2 ≡ length xs) × All (λ b. b < 256) xs) (some_inj h) (refl, tt)
decode_chunks-bytes (c ∷ d ∷ text) bs h =
    let (b, rest, e, f, g) = join-some (from_str_radix c d) (decode_chunks text) bs h in
    let (n, all) = decode_chunks-bytes text rest f in
    (
      omega (arith, n, ap length g),
      subst (All (λ b. b < 256)) (sym g) (from_str_radix-bound c d b e, all),
    )
