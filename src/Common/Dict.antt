-- ===== src/Common/Dict.antt =====
-- A JavaScript `Map` with identifiers for keys: an association list in insertion order.
use Prim.Native.Nat.{ℕ}
use mathlib.Core.Path.{◌≡◌, refl}
use mathlib.Core.Option.{Option, none, some}
use mathlib.Core.List.{List, [], ◌∷◌, map}
use native.Mathlib.Omega.{arith}
use swafri_backend.Common.Tests.{◌==◌, if◌then◌else◌}

module _ {ℓ} {V : Type ℓ} where
  abbrev pub lookup : ℕ → List (ℕ × V) → Option V
  lookup key [] = none
  lookup key ((id, held) ∷ rest) = if id == key then some held else lookup key rest

  -- A key that is present keeps its place.
  abbrev pub insert : ℕ → V → List (ℕ × V) → List (ℕ × V)
  insert key new [] = (key, new) ∷ []
  insert key new ((id, held) ∷ rest) =
      if id == key then (id, new) ∷ rest else (id, held) ∷ insert key new rest

  abbrev pub delete : ℕ → List (ℕ × V) → List (ℕ × V)
  delete key [] = []
  delete key ((id, held) ∷ rest) =
      if id == key then delete key rest else (id, held) ∷ delete key rest

  abbrev pub values : List (ℕ × V) → List V
  values = map λ entry. entry.1

  pub lookup-insert :
      (key asked : ℕ) (new : V) (entries : List (ℕ × V))
      → lookup asked (insert key new entries)
        ≡ (if key == asked then some new else lookup asked entries)
  lookup-insert key asked new [] = refl
  lookup-insert key asked new ((id, held) ∷ rest) = ground (arith, lookup-insert key asked new rest)

  pub lookup-delete :
      (key asked : ℕ) (entries : List (ℕ × V))
      → lookup asked (delete key entries) ≡ (if key == asked then none else lookup asked entries)
  lookup-delete key asked [] = ground arith
  lookup-delete key asked ((id, held) ∷ rest) = ground (arith, lookup-delete key asked rest)
