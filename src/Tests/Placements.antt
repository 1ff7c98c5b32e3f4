-- ===== src/Tests/Placements.antt =====
-- Placement over fractions in place of floats.
use Prim.Native.Nat.{compare, Ordering}
use coactor.Base.{
  ℕ, ◌+◌, ◌*◌, ◌≡◌, ◌≢◌, Bytes, refl, List, [], ◌∷◌, bytes, Bytes-discrete, ℕ_discrete, some, get,
  insert, arith, bytes_eq,
}
use coactor.Cluster.Placement.{
  Floats, PlacementCandidate, InFlight, count, retain, get_elem?, book, redraw, is_heavier,
  predicted_ratio, pick, on_placement_failed,
}
use coactor.Cluster.Placement.Choice.{
  IsAsymmetric, IsBetter, recent, pick_two, count-on_placement_failed,
}

abbrev fractions : Floats
fractions = record {
  F64 = ℕ × ℕ;
  of_usize = λ n. (n, 1);
  add = λ x y. (x.0 * y.1 + y.0 * x.1, x.1 * y.1);
  div = λ x y. (x.0 * y.1, x.1 * y.0);
  partial_cmp = λ x y. some (compare (x.0 * y.1) (y.0 * x.1));
}

-- Loads of 4/10, 1/10 and 30/100.
abbrev servers : List PlacementCandidate
servers =
    record { endpoint = bytes "n1"; active_actor_count = 4; max_actor_count = 10 }
    ∷ record { endpoint = bytes "n2"; active_actor_count = 1; max_actor_count = 10 }
    ∷ record { endpoint = bytes "n3"; active_actor_count = 30; max_actor_count = 100 }
    ∷ []

-- One placement on n3 is in flight, and one on n2 is over.
abbrev flight : InFlight
flight = (bytes "n3", (1, 9000)) ∷ (bytes "n2", (7, 5000)) ∷ []

picked_test :
    pick fractions 10000 (6 ∷ 3 ∷ 4 ∷ []) servers flight
    ≡ some (bytes "n2" ∷ bytes "n1" ∷ [], (bytes "n3", (1, 9000)) ∷ (bytes "n2", (1, 10000)) ∷ [])
unfolding pick get_elem? redraw retain book count is_heavier predicted_ratio get insert
    Bytes-discrete ℕ_discrete
picked_test = refl

not_both : (a b : ℕ) → some (compare a b) ≡ some Ordering.gt → some (compare b a) ≢ some Ordering.gt
not_both a b h g = ground (arith, h, g)

-- Fractions are compared by their products, which are numbers.
fractions-IsAsymmetric : IsAsymmetric fractions
fractions-IsAsymmetric x y h g = not_both (x.0 * y.1) (y.0 * x.1) h g

pick_two_example :
    (a : PlacementCandidate) × (b : PlacementCandidate) × (x : List Bytes × InFlight) × (get_elem?
        servers 0
      ≡ some a)
    × (get_elem? servers 1 ≡ some b)
    × (pick fractions 10000 (6 ∷ 3 ∷ 4 ∷ []) servers flight ≡ some x)
    × IsBetter fractions 10000 (recent fractions 10000 flight) a b x
pick_two_example =
    pick_two fractions 10000 6 4 (3 ∷ []) [] servers flight fractions-IsAsymmetric (omega arith)
      (refl, tt) (λ h. omega (arith, h))

count-on_placement_failed_example :
    count (bytes "n2") (on_placement_failed (bytes "n3") (book (bytes "n3") 10000 flight))
    ≡ count (bytes "n2") flight
unfolding count get Bytes-discrete ℕ_discrete
count-on_placement_failed_example =
    count-on_placement_failed 10000 (bytes "n3") (bytes "n2") flight (omega arith)
