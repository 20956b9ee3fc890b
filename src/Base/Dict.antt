-- ===== src/Base/Dict.antt =====
-- Go maps as association lists. Two operations are proved by what `lookup` returns after them, so
-- no theorem depends on the order of the entries.
use Prim.Native.String.{String}
use mathlib.Core.Path.{◌≡◌, refl}
use mathlib.Core.Bool.{Bool, true}
use mathlib.Core.Option.{Option, none, some}
use mathlib.Core.List.{List, [], ◌∷◌}
use native.Mathlib.Omega.{arith}
use Prim.Native.Nat.{ℕ}
use mathlib.Core.Logic.{◌↔◌, ◌≢◌}
use text.Mathlib.Text.{◌==◌ as str_eq}
use text.Mathlib.TextEquality.{eq_iff}
use veloera.Base.Tests.{◌==◌, ==_iff, if◌then◌else◌}

-- The keys of a map: their test for equality, which decides it.
pub record Key (K : Type 0) : Type 0 where
  pub beq : K → K → Bool
  pub beq_iff : (a b : K) → (beq a b ≡ true) ↔ (a ≡ b)

instance abbrev pub nat_key : Key ℕ
nat_key = record { beq = λ a b. a == b; beq_iff = ==_iff }

instance abbrev pub string_key : Key String
string_key = record { beq = str_eq; beq_iff = eq_iff }

abbrev pub Dict : Type 0 → Type 0 → Type 0
Dict K V = List (K × V)

module _ {K V : Type 0} ⦃k : Key K⦄ where
  unfoldable pub lookup : K → Dict K V → Option V
  lookup j [] = none
  lookup j ((i, v) ∷ d) = if k.beq i j then some v else lookup j d

  unfoldable pub insert : K → V → Dict K V → Dict K V
  insert j v [] = (j, v) ∷ []
  insert j v ((i, w) ∷ d) = if k.beq i j then (j, v) ∷ d else (i, w) ∷ insert j v d

  unfoldable pub erase : K → Dict K V → Dict K V
  erase j [] = []
  erase j ((i, w) ∷ d) = let rest = erase j d in if k.beq i j then rest else (i, w) ∷ rest

  pub lookup-insert :
      (i j : K) (v : V) (d : Dict K V)
      → lookup j (insert i v d) ≡ (if k.beq i j then some v else lookup j d)
  unfolding lookup insert
  lookup-insert i j v [] = refl
  lookup-insert i j v ((h, w) ∷ d) =
      ground (arith, k.beq_iff i j, k.beq_iff h i, k.beq_iff h j, lookup-insert i j v d)

  pub lookup-erase :
      (i j : K) (d : Dict K V) → lookup j (erase i d) ≡ (if k.beq i j then none else lookup j d)
  unfolding lookup erase
  lookup-erase i j [] = ground arith
  lookup-erase i j ((h, w) ∷ d) =
      ground (arith, k.beq_iff i j, k.beq_iff h i, k.beq_iff h j, lookup-erase i j d)

  pub lookup-insert_self : (j : K) (v : V) (d : Dict K V) → lookup j (insert j v d) ≡ some v
  lookup-insert_self j v d = rw lookup-insert (ground (arith, k.beq_iff j j))

  pub lookup-insert_ne :
      (i j : K) (v : V) (d : Dict K V) → i ≢ j → lookup j (insert i v d) ≡ lookup j d
  lookup-insert_ne i j v d ne = rw lookup-insert (ground (arith, k.beq_iff i j))

  pub lookup-erase_self : (j : K) (d : Dict K V) → lookup j (erase j d) ≡ none
  lookup-erase_self j d = rw lookup-erase (ground (arith, k.beq_iff j j))
