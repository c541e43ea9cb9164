-- ===== src/Base/Sets.antt =====
-- A JavaScript `Set` of identifiers, in insertion order. Identifiers are only compared, so
-- numbers stand for them.
use Prim.Native.Nat.{ℕ}
use mathlib.Core.Path.{◌≡◌, refl}
use mathlib.Core.Bool.{Bool, true, false, not, ◌&&◌, ◌||◌}
use mathlib.Core.List.{List, [], ◌∷◌, ◌++◌}
use native.Mathlib.Omega.{arith}
use rivetkit.Base.Tests.{◌==◌, if◌then◌else◌}
use rivetkit.Base.Lists.{is_empty}

-- `s.has(a)`
abbrev pub has : ℕ → List ℕ → Bool
has a [] = false
has a (x ∷ xs) = (x == a) || has a xs

-- `s.add(a)`
abbrev pub add : ℕ → List ℕ → List ℕ
add a xs = if has a xs then xs else xs ++ a ∷ []

-- `s.delete(a)`. A set holds `a` once at most, so removing every `a` removes that one.
abbrev pub remove : ℕ → List ℕ → List ℕ
remove a [] = []
remove a (x ∷ xs) = let rest = remove a xs in if x == a then rest else x ∷ rest

pub has-append : (a : ℕ) (xs ys : List ℕ) → has a (xs ++ ys) ≡ (has a xs || has a ys)
has-append a [] ys = refl
has-append a (x ∷ xs) ys = ground (arith, has-append a xs ys)

pub has-add : (a b : ℕ) (xs : List ℕ) → has a (add b xs) ≡ ((b == a) || has a xs)
has-add a b xs = ground (arith, has-append a xs (b ∷ []))

pub has-remove : (a b : ℕ) (xs : List ℕ) → has a (remove b xs) ≡ (not (b == a) && has a xs)
has-remove a b [] = ground arith
has-remove a b (x ∷ xs) = ground (arith, has-remove a b xs)

-- An empty set has no element.
pub has-is_empty : (a : ℕ) (xs : List ℕ) → is_empty xs ≡ true → has a xs ≡ false
has-is_empty a [] h = refl
has-is_empty a (x ∷ xs) h = ground arith
