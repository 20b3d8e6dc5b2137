-- ===== src/Prelude/Text.antt =====
-- Texts as the numbers of their characters, and the tests of Rust's `char` on ASCII.
use Prim.Native.Nat.{ℕ}
use Prim.Native.Char.{code}
use Prim.Native.String.{String, ◌++◌ as str_append}
use Prim.Native.String.append
use mathlib.Core.Bool.{Bool, ◌&&◌}
use mathlib.Core.List.{List, [], ◌∷◌, ◌++◌}
use mathlib.Core.Path.{◌≡◌, refl, ap, ◌∙◌}
use mathlib.Core.Option.{Option, none, some}
use native.Mathlib.Omega.{arith}
use package.colloq.Prelude.Tests.{leb, eqb, if◌then◌else◌}

-- The code points of a text: its bytes, if it is ASCII.
abbrev pub codes : String → List ℕ
codes String.[] = []
codes (String.◌∷◌ c s) = code c ∷ codes s

abbrev pub is_lower : ℕ → Bool
is_lower c = leb b'a' c && leb c b'z'

abbrev pub is_digit : ℕ → Bool
is_digit c = leb b'0' c && leb c b'9'

-- `text.strip_prefix(prefix)`
unfoldable pub strip_prefix : List ℕ → List ℕ → Option (List ℕ)
strip_prefix [] text = some text
strip_prefix (p ∷ prefix) [] = none
strip_prefix (p ∷ prefix) (c ∷ text) =
    let rest = strip_prefix prefix text in if eqb p c then rest else none

pub codes-append : (s t : String) → codes (str_append s t) ≡ codes s ++ codes t
codes-append String.[] t = ap codes (λ i. append.nil t i)
codes-append (String.◌∷◌ c s) t =
    ap codes (λ i. append.cons c s t i) ∙ ap (λ u. code c ∷ u) (codes-append s t)

pub strip_prefix-append : (p t : List ℕ) → strip_prefix p (p ++ t) ≡ some t
unfolding strip_prefix
strip_prefix-append [] t = refl
strip_prefix-append (c ∷ p) t = ground (arith, strip_prefix-append p t)
