-- ===== src/Evidence/Tests/Texts.antt =====
-- Code points as an order of texts.
use Prim.Native.String.{String, compare, then}
use Prim.Native.String.compare.{nil-cons, cons-nil, cons-cons}
use Prim.Native.Nat.{Ordering, compare as compare_ℕ}
use Prim.Native.Char.{Char, code}
use allas_code_blueprint.Prelude.{◌≡◌, arith}
use allas_code_blueprint.Prelude.Sets.{text_before}
use allas_code_blueprint.Evidence.Canonical.Orders.{IsTransitive}

first_less : (d : Char) (t : String) → compare "" (String.◌∷◌ d t) ≡ Ordering.lt
first_less d t = λ i. nil-cons d t i

last_greater : (d : Char) (t : String) → compare (String.◌∷◌ d t) "" ≡ Ordering.gt
last_greater d t = λ i. cons-nil d t i

by_heads :
    (c d : Char) (s t : String)
    → compare (String.◌∷◌ c s) (String.◌∷◌ d t) ≡ then (compare_ℕ (code c) (code d)) (compare s t)
by_heads c d s t = λ i. cons-cons c d s t i

less_trans :
    (s t u : String)
    → compare s t ≡ Ordering.lt
    → compare t u ≡ Ordering.lt
    → compare s u ≡ Ordering.lt
less_trans String.[] String.[] u h k = cc
less_trans String.[] (String.◌∷◌ d t) String.[] h k = ground (arith, last_greater d t)
less_trans String.[] (String.◌∷◌ d t) (String.◌∷◌ e u) h k = first_less e u
less_trans (String.◌∷◌ c s) String.[] u h k = ground (arith, last_greater c s)
less_trans (String.◌∷◌ c s) (String.◌∷◌ d t) String.[] h k = ground (arith, last_greater d t)
less_trans (String.◌∷◌ c s) (String.◌∷◌ d t) (String.◌∷◌ e u) h k =
    ground (arith, by_heads c d s t, by_heads d e t u, by_heads c e s u, less_trans s t u)

pub text_before-IsTransitive : IsTransitive text_before
unfolding text_before
text_before-IsTransitive a b c h k = ground (arith, less_trans a b c)
