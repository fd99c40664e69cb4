-- ===== src/Prelude/Members.antt =====
-- Members of a list, what holds of all of them, and what sorting and filtering keep.
use Prim.Native.Nat.{◌+◌}
use Prim.Native.String.{String}
use mathlib.Core.Path.{◌≡◌, refl, sym, subst}
use mathlib.Core.Logic.{inl, inr}
use mathlib.Core.Bool.{Bool, true}
use mathlib.Core.List.{List, [], ◌∷◌, Memᴰ}
use mathlib.Core.List.Memᴰ
use native.Mathlib.Omega.{arith}
use text.Mathlib.Text.{◌==◌}
use text.Mathlib.TextEquality.{eq_iff}
use allas_code_blueprint.Prelude.Tests.{Bool-cases}
use allas_code_blueprint.Prelude.Lists.{length, select, includes, All}
use allas_code_blueprint.Prelude.Sets.{insert_sorted, sort}

pub All-at {ℓ κ} : {A : Type ℓ} (P : A → Type κ) (xs : List A) (x : A) → All P xs → Memᴰ x xs → P x
All-at P [] x h m = absurd (Memᴰ.not-nil m)
All-at P (y ∷ xs) x h (Memᴰ.head e) = subst P (sym e) h.0
All-at P (y ∷ xs) x h (Memᴰ.tail m) = All-at P xs x h.1 m

pub All-mem {ℓ} :
    {A : Type ℓ} (all xs : List A) → ((x : A) → Memᴰ x xs → Memᴰ x all) → All (λ x. Memᴰ x all) xs
All-mem all [] inside = tt
All-mem all (x ∷ xs) inside =
    (inside x (Memᴰ.head refl), All-mem all xs (λ y m. inside y (Memᴰ.tail m)))

pub All-includes {κ} :
    (P : String → Type κ) (xs : List String) (x : String) → All P xs → includes xs x ≡ true → P x
All-includes P [] x h m = cc
All-includes P (y ∷ xs) x h m = elim (Bool-cases (y == x)) [
  | inl is ↦ subst P ((eq_iff y x).0 is) h.0
  | inr other ↦ All-includes P xs x h.1 (ground arith)
]

module _ {ℓ} {A : Type ℓ} (before : A → A → Bool) where
  mem-insert_sorted : (e x : A) (ys : List A) → Memᴰ e (x ∷ ys) → Memᴰ e (insert_sorted before x ys)
  unfolding insert_sorted
  mem-insert_sorted e x [] m = m
  mem-insert_sorted e x (y ∷ ys) m = elim (Bool-cases (before y x)) [
    | inr stays ↦ rw stays m
    | inl goes ↦ rw goes (elim (Memᴰ.cases_cons m) [
      | inl first ↦ Memᴰ.tail (mem-insert_sorted e x ys (Memᴰ.head first))
      | inr later ↦ elim (Memᴰ.cases_cons later) [
        | inl second ↦ Memᴰ.head second
        | inr rest ↦ Memᴰ.tail (mem-insert_sorted e x ys (Memᴰ.tail rest))
      ]
    ])
  ]

  pub mem-sort : (e : A) (xs : List A) → Memᴰ e xs → Memᴰ e (sort before xs)
  unfolding sort
  mem-sort e [] m = m
  mem-sort e (x ∷ xs) m = elim (Memᴰ.cases_cons m) [
    | inl first ↦ mem-insert_sorted e x (sort before xs) (Memᴰ.head first)
    | inr later ↦ mem-insert_sorted e x (sort before xs) (Memᴰ.tail (mem-sort e xs later))
  ]

  length-insert_sorted : (x : A) (ys : List A) → length (insert_sorted before x ys) ≡ length ys + 1
  unfolding insert_sorted
  length-insert_sorted x [] = refl
  length-insert_sorted x (y ∷ ys) = ground (arith, length-insert_sorted x ys)

  pub length-sort : (xs : List A) → length (sort before xs) ≡ length xs
  unfolding sort
  length-sort [] = refl
  length-sort (x ∷ xs) = omega (arith, length-insert_sorted x (sort before xs), length-sort xs)

  All-insert_sorted {κ} :
      (P : A → Type κ) (x : A) (ys : List A) → P x → All P ys → All P (insert_sorted before x ys)
  unfolding insert_sorted
  All-insert_sorted P x [] h rest = (h, tt)
  All-insert_sorted P x (y ∷ ys) h (first, rest) = elim (Bool-cases (before y x)) [
    | inr stays ↦ rw stays (h, (first, rest))
    | inl goes ↦ rw goes (first, All-insert_sorted P x ys h rest)
  ]

  pub All-sort {κ} : (P : A → Type κ) (xs : List A) → All P xs → All P (sort before xs)
  unfolding sort
  All-sort P [] h = h
  All-sort P (x ∷ xs) (h, rest) = All-insert_sorted P x (sort before xs) h (All-sort P xs rest)

pub All-map {ℓ κ μ} :
    {A : Type ℓ} (P : A → Type κ) (Q : A → Type μ) (xs : List A)
    → ((x : A) → P x → Q x)
    → All P xs
    → All Q xs
All-map P Q [] wider h = tt
All-map P Q (x ∷ xs) wider (h, rest) = (wider x h, All-map P Q xs wider rest)

pub All-select {ℓ κ} :
    {A : Type ℓ} (P : A → Type κ) (test : A → Bool) (xs : List A)
    → All P xs
    → All (λ x. P x × (test x ≡ true)) (select test xs)
All-select P test [] h = tt
All-select P test (x ∷ xs) (h, rest) = elim (Bool-cases (test x)) [
  | inl passes ↦ rw passes ((h, passes), All-select P test xs rest)
  | inr fails ↦ rw fails (All-select P test xs rest)
]
