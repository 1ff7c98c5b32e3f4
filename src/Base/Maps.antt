-- ===== src/Base/Maps.antt =====
-- `HashMap` as an association list. The order of iteration, which Rust leaves open, is the list's.
use Prim.Native.Nat.{suc}
use mathlib.Core.Path.{◌≡◌, refl}
use mathlib.Core.Logic.{ite}
use mathlib.Core.Option.{Option, none, some}
use mathlib.Core.List.{List, [], ◌∷◌}
use native.Mathlib.Omega.{arith}
use coactor.Base.Tests.{Eq}
use coactor.Base.Lists.{length}

abbrev pub Map {ℓ} : Type ℓ → Type ℓ → Type ℓ
Map K V = List (K × V)

module _ {ℓ} {K V : Type ℓ} ⦃e : Eq K⦄ where
  unfoldable pub get : K → Map K V → Option V
  get k [] = none
  get k ((j, v) ∷ m) = ite (e.dec j k) (some v) (get k m)

  -- `HashMap::insert`: the entry is replaced, or added.
  unfoldable pub insert : K → V → Map K V → Map K V
  insert k v [] = (k, v) ∷ []
  insert k v ((j, w) ∷ m) = ite (e.dec j k) ((k, v) ∷ m) ((j, w) ∷ insert k v m)

  -- `HashMap::remove`, without the value that it returns. Every entry of the key goes.
  unfoldable pub remove : K → Map K V → Map K V
  remove k [] = []
  remove k ((j, v) ∷ m) = ite (e.dec j k) (remove k m) ((j, v) ∷ remove k m)

  pub get-insert :
      (j k : K) (v : V) (m : Map K V) → get j (insert k v m) ≡ ite (e.dec k j) (some v) (get j m)
  unfolding get insert
  get-insert j k v [] = refl
  get-insert j k v ((i, w) ∷ m) = ground (arith, get-insert j k v m)

  pub get-remove : (j k : K) (m : Map K V) → get j (remove k m) ≡ ite (e.dec k j) none (get j m)
  unfolding get remove
  get-remove j k [] = ground arith
  get-remove j k ((i, w) ∷ m) = ground (arith, get-remove j k m)

  -- No key is listed twice.
  abbrev pub Distinct : Map K V → Type ℓ
  Distinct [] = Unit
  Distinct ((k, v) ∷ m) = (get k m ≡ none) × Distinct m

  pub insert-Distinct : (k : K) (v : V) (m : Map K V) → Distinct m → Distinct (insert k v m)
  unfolding get insert
  insert-Distinct k v [] d = (refl, tt)
  insert-Distinct k v ((j, w) ∷ m) d = ground (arith, insert-Distinct k v m d.1, get-insert j k v m)

  pub remove-Distinct : (k : K) (m : Map K V) → Distinct m → Distinct (remove k m)
  unfolding remove
  remove-Distinct k [] d = tt
  remove-Distinct k ((j, w) ∷ m) d = ground (arith, remove-Distinct k m d.1, get-remove j k m)

  pub remove_absent : (k : K) (m : Map K V) → get k m ≡ none → remove k m ≡ m
  unfolding get remove
  remove_absent k [] h = refl
  remove_absent k ((j, w) ∷ m) h = ground (arith, remove_absent k m)

  pub length-insert_new :
      (k : K) (v : V) (m : Map K V) → get k m ≡ none → length (insert k v m) ≡ suc (length m)
  unfolding get insert
  length-insert_new k v [] h = refl
  length-insert_new k v ((j, w) ∷ m) h = ground (arith, length-insert_new k v m)

  pub length-insert_old :
      (k : K) (v w : V) (m : Map K V) → get k m ≡ some w → length (insert k v m) ≡ length m
  unfolding get insert
  length-insert_old k v w [] h = cc
  length-insert_old k v w ((j, x) ∷ m) h = ground (arith, length-insert_old k v w m)

  pub length-remove :
      (k : K) (v : V) (m : Map K V)
      → Distinct m
      → get k m ≡ some v
      → suc (length (remove k m)) ≡ length m
  unfolding get remove
  length-remove k v [] d h = cc
  length-remove k v ((j, w) ∷ m) d h = ground (arith, length-remove k v m d.1, remove_absent k m)

  pub remove-remove : (k : K) (m : Map K V) → remove k (remove k m) ≡ remove k m
  unfolding remove
  remove-remove k [] = refl
  remove-remove k ((j, w) ∷ m) = ground (arith, remove-remove k m)

  pub remove-insert : (k : K) (v : V) (m : Map K V) → remove k (insert k v m) ≡ remove k m
  unfolding remove insert
  remove-insert k v [] = ground arith
  remove-insert k v ((j, w) ∷ m) = ground (arith, remove-insert k v m)
