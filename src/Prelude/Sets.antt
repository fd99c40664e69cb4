-- ===== src/Prelude/Sets.antt =====
-- A JavaScript `Set` of texts as the list of its members in the order of insertion, and `sort`.
use Prim.Native.String.{String, compare}
use Prim.Native.Nat.{Ordering}
use mathlib.Core.Path.{◌≡◌, refl}
use mathlib.Core.Bool.{Bool, true, false, ◌||◌}
use mathlib.Core.List.{List, [], ◌∷◌, ◌++◌}
use native.Mathlib.Omega.{arith}
use text.Mathlib.Text.{◌==◌}
use text.Mathlib.TextEquality.{eq_iff}
use allas_code_blueprint.Prelude.Tests.{if◌then◌else◌}
use allas_code_blueprint.Prelude.Lists.{includes}

unfoldable pub add : String → List String → List String
add x xs = if includes xs x then xs else xs ++ (x ∷ [])

-- `new Set([...xs, ...ys])`, where `xs` are members already.
unfoldable pub add_all : List String → List String → List String
add_all xs [] = xs
add_all xs (y ∷ ys) = add_all (add y xs) ys

-- `new Set(xs)`.
abbrev pub set_of : List String → List String
set_of = add_all []

pub includes-append :
    (xs ys : List String) (x : String) → includes (xs ++ ys) x ≡ includes xs x || includes ys x
includes-append [] ys x = refl
includes-append (z ∷ xs) ys x = ground (arith, includes-append xs ys x)

pub includes-add :
    (x : String) (xs : List String) (y : String) → includes (add x xs) y ≡ includes xs y || (x == y)
unfolding add
includes-add x xs y = ground (arith, includes-append xs (x ∷ []) y, eq_iff x y, eq_iff y x)

pub includes-add_all :
    (xs ys : List String) (y : String) → includes (add_all xs ys) y ≡ includes xs y || includes ys y
unfolding add_all
includes-add_all xs [] y = ground arith
includes-add_all xs (z ∷ ys) y =
    ground (arith, includes-add_all (add z xs) ys y, includes-add z xs y)

-- `sort` is stable: an entry goes before the first one that does not come before it.
module _ {ℓ} {A : Type ℓ} (before : A → A → Bool) where
  unfoldable pub insert_sorted : A → List A → List A
  insert_sorted x [] = x ∷ []
  insert_sorted x (y ∷ ys) = if before y x then y ∷ insert_sorted x ys else x ∷ y ∷ ys

  unfoldable pub sort : List A → List A
  sort [] = []
  sort (x ∷ xs) = insert_sorted x (sort xs)

-- The order of `sort` without a comparison.
unfoldable pub text_before : String → String → Bool
text_before s t = elim (compare s t) [ Ordering.lt ↦ true | _ ↦ false ]

abbrev pub sort_texts : List String → List String
sort_texts = sort text_before
