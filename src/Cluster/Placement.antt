-- ===== src/Cluster/Placement.antt =====
-- The choice of a server for a new Actor (coactor/src/cluster/placement.rs): the better of two
-- random candidates, by predicted load. The draws of the random source are a list.
pub mod Choice
use Prim.Native.Nat.{Ordering}
use coactor.Base.{
  ℕ, zero, suc, ◌+◌, ◌-◌, ◌%◌, ◌^◌, ◌==◌, ltb, Bool, true, false, ◌&&◌, Option, none, some, List,
  [], ◌∷◌, Bytes, Map, get, insert, length, keep, if◌then◌else◌, bytes_eq,
}

-- What the code uses of `f64`.
pub record Floats : Type 1 where
  pub F64 : Type 0
  pub of_usize : ℕ → F64
  pub add : F64 → F64 → F64
  pub div : F64 → F64 → F64
  pub partial_cmp : F64 → F64 → Option Ordering

pub record PlacementCandidate : Type 0 where
  pub endpoint : Bytes
  pub active_actor_count : ℕ
  pub max_actor_count : ℕ

-- The count of an endpoint and the instant of its last update, in milliseconds.
abbrev pub InFlight : Type 0
InFlight = Map Bytes (ℕ × ℕ)

abbrev pub in_flight_ttl : ℕ
in_flight_ttl = 3000

abbrev count_or_zero : Option (ℕ × ℕ) → ℕ
count_or_zero none = 0
count_or_zero (some (count, _)) = count

-- `in_flight.get(endpoint).map_or(0, |(count, _)| *count)`.
unfoldable pub count : Bytes → InFlight → ℕ
count endpoint m = count_or_zero (get endpoint m)

unfoldable pub retain : ℕ → InFlight → InFlight
retain now m = keep (λ e. ltb (now - e.1.1) in_flight_ttl) m

-- The index of a slice; none is a panic.
unfoldable pub get_elem? : List PlacementCandidate → ℕ → Option PlacementCandidate
get_elem? [] i = none
get_elem? (c ∷ cs) zero = some c
get_elem? (c ∷ cs) (suc i) = get_elem? cs i

-- The entry of the chosen target: one more, from now.
unfoldable pub book : Bytes → ℕ → InFlight → InFlight
unfolding count
book endpoint now m = insert endpoint ((count endpoint m + 1) % 2 ^ 64, now) m

-- The second draw, repeated while it is the first index; none if the draws run out.
unfoldable pub redraw : ℕ → ℕ → List ℕ → Option ℕ
redraw n first [] = none
redraw n first (d ∷ draws) =
    let rest = redraw n first draws in if ltb 1 n && d % n == first then rest else some (d % n)

module _ (floats : Floats) where
  open floats use {F64, of_usize, add, div, partial_cmp}

  unfoldable pub predicted_ratio : PlacementCandidate → InFlight → F64
  unfolding count
  predicted_ratio c m =
      div (add (of_usize c.active_actor_count) (of_usize (count c.endpoint m)))
        (of_usize (if c.max_actor_count == 0 then 1 else c.max_actor_count))

  abbrev pub is_greater : Option Ordering → Bool
  is_greater (some Ordering.gt) = true
  is_greater _ = false

  -- The comparison of the sort; what cannot be compared counts as equal.
  unfoldable pub is_heavier : InFlight → PlacementCandidate → PlacementCandidate → Bool
  unfolding predicted_ratio
  is_heavier m left right =
      is_greater (partial_cmp (predicted_ratio left m) (predicted_ratio right m))

  -- The stable sort of the picked candidates, the booking of the first and the endpoints.
  chosen :
      ℕ
      → InFlight
      → Option PlacementCandidate
      → Option PlacementCandidate
      → Option (List Bytes × InFlight)
  unfolding book is_heavier
  chosen now m none second = none
  chosen now m (some a) none = some (a.endpoint ∷ [], book a.endpoint now m)
  chosen now m (some a) (some b) =
      if is_heavier m a b
      then some (b.endpoint ∷ a.endpoint ∷ [], book b.endpoint now m)
      else some (a.endpoint ∷ b.endpoint ∷ [], book a.endpoint now m)

  at_indices :
      ℕ → InFlight → List PlacementCandidate → ℕ → Option ℕ → Option (List Bytes × InFlight)
  unfolding chosen get_elem?
  at_indices now m candidates first none = none
  at_indices now m candidates first (some second) =
      chosen now m (get_elem? candidates first)
        (if second == first then none else get_elem? candidates second)

  -- `P2cPlacement::pick`; none if the draws run out.
  unfoldable pub pick :
      ℕ → List ℕ → List PlacementCandidate → InFlight → Option (List Bytes × InFlight)
  unfolding at_indices redraw retain
  pick now draws [] m = some ([], m)
  pick now [] (c ∷ cs) m = none
  pick now (d ∷ draws) (c ∷ cs) m =
      let n = length (c ∷ cs) in
      at_indices now (retain now m) (c ∷ cs) (d % n) (redraw n (d % n) draws)

lower : Bytes → InFlight → Option (ℕ × ℕ) → InFlight
lower endpoint m none = m
lower endpoint m (some (n, updated)) = insert endpoint (n - 1, updated) m

-- `on_placement_failed`.
unfoldable pub on_placement_failed : Bytes → InFlight → InFlight
unfolding lower
on_placement_failed endpoint m = lower endpoint m (get endpoint m)
