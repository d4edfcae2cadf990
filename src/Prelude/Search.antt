-- ===== src/Prelude/Search.antt =====
-- Keyword search: a keyword that stands in a text is found.
use kb_concierge.Prelude.Text.{Codes, codes, is_prefix, occurs, any_in}
use Prim.Native.String.{String}
use mathlib.Core.Path.{◌≡◌, refl}
use mathlib.Core.Logic.{◌⊎◌, inl, inr}
use mathlib.Core.Bool.{true}
use mathlib.Core.List.{List, [], ◌∷◌, ◌++◌}
use native.Mathlib.Omega.{arith}

-- One of the listed texts.
abbrev pub Among : String → List String → Type 0
Among n [] = ⊥
Among n (x ∷ xs) = (n ≡ x) ⊎ Among n xs

is_prefix-append : (p t : Codes) → is_prefix p (p ++ t) ≡ true
is_prefix-append [] t = refl
is_prefix-append (c ∷ p) t = ground (arith, is_prefix-append p t)

pub occurs-append : (before p after : Codes) → occurs p (before ++ (p ++ after)) ≡ true
occurs-append [] [] [] = refl
occurs-append [] [] (c ∷ t) = refl
occurs-append [] (c ∷ p) t = ground (arith, is_prefix-append p t)
occurs-append (d ∷ before) p t = ground (arith, occurs-append before p t)

pub any_in-Among :
    (n : String) (needles : List String) (before after : Codes)
    → Among n needles
    → any_in (before ++ (codes n ++ after)) needles ≡ true
unfolding any_in
any_in-Among n [] before after h = absurd h
any_in-Among n (x ∷ xs) before after (inl e) =
    rw (← e) (rw (occurs-append before (codes n) after) refl)
any_in-Among n (x ∷ xs) before after (inr h) = ground (arith, any_in-Among n xs before after h)
