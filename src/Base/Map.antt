-- ===== src/Base/Map.antt =====
-- Go maps as association lists. A `range` over a map visits the entries in an order that the
-- program must not rely on: here it is the order of the list, which no statement fixes.
use Prim.Native.Nat.{ℕ, ◌+◌, ◌≤◌}
use Prim.Native.String.{String}
use mathlib.Core.Path.{◌≡◌, refl, sym, subst}
use mathlib.Core.Logic.{ite, if_pos, if_neg}
use mathlib.Core.Option.{Option, none, some}
use mathlib.Core.Bool.{Bool, true, false}
use mathlib.Core.List.{List, [], ◌∷◌}
use native.Mathlib.Omega.{arith}
use native.Mathlib.Decide.{ℕ_discrete}
use realtime_room_middleware.Base.Tests.{string_discrete}
use realtime_room_middleware.Base.Lists.{length, All}

-- What a key type offers.
pub record Key {ℓ} (K : Type ℓ) : Type ℓ where
  pub dec : Discrete K

instance abbrev pub string_key : Key String
string_key = record { dec = string_discrete }

instance abbrev pub nat_key : Key ℕ
nat_key = record { dec = ℕ_discrete }

abbrev pub Map {ℓ} : Type ℓ → Type ℓ → Type ℓ
Map K V = List (K × V)

module _ {ℓ} {K V : Type ℓ} ⦃d : Key K⦄ where
  -- `v, ok := m[k]`
  unfoldable pub lookup : K → Map K V → Option V
  lookup k [] = none
  lookup k ((j, v) ∷ m) = ite (d.dec j k) (some v) (lookup k m)

  -- `m[k] = v`
  unfoldable pub insert : K → V → Map K V → Map K V
  insert k v [] = (k, v) ∷ []
  insert k v ((j, w) ∷ m) = ite (d.dec j k) ((j, v) ∷ m) ((j, w) ∷ insert k v m)

  -- `delete(m, k)`
  unfoldable pub delete : K → Map K V → Map K V
  delete k [] = []
  delete k ((j, w) ∷ m) = let rest = delete k m in ite (d.dec j k) rest ((j, w) ∷ rest)

  pub lookup-insert :
      (k j : K) (v : V) (m : Map K V)
      → lookup j (insert k v m) ≡ ite (d.dec k j) (some v) (lookup j m)
  unfolding lookup insert
  lookup-insert k j v [] = refl
  lookup-insert k j v ((i, w) ∷ m) = ground (arith, lookup-insert k j v m)

  pub lookup-delete :
      (k j : K) (m : Map K V) → lookup j (delete k m) ≡ ite (d.dec k j) none (lookup j m)
  unfolding lookup delete
  lookup-delete k j [] = ground arith
  lookup-delete k j ((i, w) ∷ m) = ground (arith, lookup-delete k j m)

  -- `_, ok := m[k]`
  abbrev pub contains : K → Map K V → Bool
  contains k m = elim (lookup k m) [ none ↦ false | some _ ↦ true ]

  -- No key stands twice, as in every Go map.
  abbrev pub Distinct : Map K V → Type ℓ
  Distinct [] = Unit
  Distinct ((k, v) ∷ m) = (lookup k m ≡ none) × Distinct m

  pub insert-Distinct : (k : K) (v : V) (m : Map K V) → Distinct m → Distinct (insert k v m)
  unfolding lookup insert
  insert-Distinct k v [] h = (refl, tt)
  insert-Distinct k v ((j, w) ∷ m) h =
      ground (arith, lookup-insert k j v m, insert-Distinct k v m h.1)

  pub delete-Distinct : (k : K) (m : Map K V) → Distinct m → Distinct (delete k m)
  unfolding delete
  delete-Distinct k [] h = tt
  delete-Distinct k ((j, w) ∷ m) h = ground (arith, lookup-delete k j m, delete-Distinct k m h.1)

  -- A property of every entry.
  abbrev pub Each : (K → V → Type 0) → Map K V → Type 0
  Each P m = All (λ e. P e.0 e.1) m

  pub Each-mono :
      (P Q : K → V → Type 0) (m : Map K V) → ((k : K) (v : V) → P k v → Q k v) → Each P m → Each Q m
  Each-mono P Q [] f h = tt
  Each-mono P Q ((k, v) ∷ m) f h = (f k v h.0, Each-mono P Q m f h.1)

  pub Each-lookup :
      (P : K → V → Type 0) (k : K) (v : V) (m : Map K V) → Each P m → lookup k m ≡ some v → P k v
  unfolding lookup
  Each-lookup P k v [] h e = cc
  Each-lookup P k v ((j, w) ∷ m) h e = elim (d.dec j k) [
    | yes p ↦
        let same_value : w ≡ v = ground arith in
        subst (λ x. P k x) same_value (subst (λ i. P i w) p h.0)
    | no p ↦ let later : lookup k m ≡ some v = ground arith in Each-lookup P k v m h.1 later
  ]

  pub Each-insert :
      (P : K → V → Type 0) (k : K) (v : V) (m : Map K V) → Each P m → P k v → Each P (insert k v m)
  unfolding insert
  Each-insert P k v [] h p = (p, tt)
  Each-insert P k v ((j, w) ∷ m) h p = elim (d.dec j k) [
    | yes e ↦ rw (if_pos _ e) (subst (λ i. P i v) (sym e) p, h.1)
    | no e ↦ rw (if_neg _ e) (h.0, Each-insert P k v m h.1 p)
  ]

  pub Each-delete : (P : K → V → Type 0) (k : K) (m : Map K V) → Each P m → Each P (delete k m)
  unfolding delete
  Each-delete P k [] h = tt
  Each-delete P k ((j, w) ∷ m) h = elim (d.dec j k) [
    | yes e ↦ rw (if_pos _ e) (Each-delete P k m h.1)
    | no e ↦ rw (if_neg _ e) (h.0, Each-delete P k m h.1)
  ]

  delete_absent : (k : K) (m : Map K V) → lookup k m ≡ none → delete k m ≡ m
  unfolding lookup delete
  delete_absent k [] h = refl
  delete_absent k ((j, w) ∷ m) h = ground (arith, delete_absent k m)

  pub length-insert_absent :
      (k : K) (v : V) (m : Map K V) → lookup k m ≡ none → length (insert k v m) ≡ length m + 1
  unfolding lookup insert
  length-insert_absent k v [] h = omega arith
  length-insert_absent k v ((j, w) ∷ m) h = ground (arith, length-insert_absent k v m)

  pub length-insert_present :
      (k : K) (v w : V) (m : Map K V) → lookup k m ≡ some w → length (insert k v m) ≡ length m
  unfolding lookup insert
  length-insert_present k v w [] h = cc
  length-insert_present k v w ((j, u) ∷ m) h = ground (arith, length-insert_present k v w m)

  pub length-delete_present :
      (k : K) (w : V) (m : Map K V)
      → Distinct m
      → lookup k m ≡ some w
      → length (delete k m) + 1 ≡ length m
  unfolding lookup delete
  length-delete_present k w [] h e = cc
  length-delete_present k w ((j, u) ∷ m) h e =
      ground (arith, delete_absent k m, length-delete_present k w m h.1)

  -- The total weight of the entries.
  unfoldable pub sum_by : (K → V → ℕ) → Map K V → ℕ
  sum_by f [] = 0
  sum_by f ((k, v) ∷ m) = f k v + sum_by f m

  pub sum_by-insert_absent :
      (f : K → V → ℕ) (k : K) (v : V) (m : Map K V)
      → lookup k m ≡ none
      → sum_by f (insert k v m) ≡ sum_by f m + f k v
  unfolding lookup insert sum_by
  sum_by-insert_absent f k v [] h = omega arith
  sum_by-insert_absent f k v ((j, w) ∷ m) h = ground (arith, sum_by-insert_absent f k v m)

  pub sum_by-insert_present :
      (f : K → V → ℕ) (k : K) (v w : V) (m : Map K V)
      → lookup k m ≡ some w
      → sum_by f (insert k v m) + f k w ≡ sum_by f m + f k v
  unfolding lookup insert sum_by
  sum_by-insert_present f k v w [] h = cc
  sum_by-insert_present f k v w ((j, u) ∷ m) h = ground (arith, sum_by-insert_present f k v w m)

  pub sum_by_ge :
      (f : K → V → ℕ) (k : K) (v : V) (m : Map K V) → lookup k m ≡ some v → f k v ≤ sum_by f m
  unfolding lookup sum_by
  sum_by_ge f k v [] h = cc
  sum_by_ge f k v ((j, w) ∷ m) h = ground (arith, sum_by_ge f k v m)

  pub sum_by-delete : (f : K → V → ℕ) (k : K) (m : Map K V) → sum_by f (delete k m) ≤ sum_by f m
  unfolding delete sum_by
  sum_by-delete f k [] = omega arith
  sum_by-delete f k ((j, w) ∷ m) = ground (arith, sum_by-delete f k m)
