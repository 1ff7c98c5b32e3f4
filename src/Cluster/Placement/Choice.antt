-- ===== src/Cluster/Placement/Choice.antt =====
-- Which candidates are picked, and that a failure takes its booking back.
use Prim.Native.Nat.{Ordering}
use coactor.Base.{
  keep, ◌-◌, ap, ◌∙◌, Option, none, ltb, ◌⊎◌, inl, inr, get, true, false, ℕ, zero, suc, ◌+◌, ◌%◌,
  ◌^◌, ◌<◌, ◌≡◌, ◌≢◌, refl, some, List, [], ◌∷◌, ◌++◌, Bytes, get-insert, length, if◌then◌else◌,
  bytes_eq, arith, All,
}
use coactor.Cluster.Placement.{
  Floats, PlacementCandidate, InFlight, count, retain, get_elem?, book, redraw, is_heavier,
  predicted_ratio, is_greater, chosen, at_indices, pick, lower, on_placement_failed,
}

in_range :
    (cs : List PlacementCandidate) (i : ℕ)
    → i < length cs
    → (c : PlacementCandidate) × (get_elem? cs i ≡ some c)
unfolding get_elem?
in_range [] i h = absurd (omega (arith, h))
in_range (c ∷ cs) zero h = (c, refl)
in_range (c ∷ cs) (suc i) h = in_range cs i (omega (arith, h))

-- The draws that repeat the first index are passed over.
redraw-skips :
    (n first d : ℕ) (skipped rest : List ℕ)
    → 1 < n
    → All (λ e. e % n ≡ first) skipped
    → d % n ≢ first
    → redraw n first (skipped ++ d ∷ rest) ≡ some (d % n)
unfolding redraw
redraw-skips n first d [] rest h a ne = ground arith
redraw-skips n first d (e ∷ skipped) rest h a ne =
    ground (arith, redraw-skips n first d skipped rest h a.1 ne)

module _ (floats : Floats) where
  open floats use {F64, of_usize, add, div, partial_cmp}

  -- The Load Ratio with the placements in flight, and one for a capacity of zero.
  abbrev pub load : ℕ → PlacementCandidate → F64
  load in_flight c =
      div (add (of_usize c.active_actor_count) (of_usize in_flight))
        (of_usize (if ltb 0 c.max_actor_count then c.max_actor_count else 1))

  abbrev pub load_in : InFlight → PlacementCandidate → F64
  load_in m c = load (count c.endpoint m) c

  -- The entry of the endpoint has one more than before, of this instant; the others are as before.
  pub record Booked (now : ℕ) (target : Bytes) (m m' : InFlight) : Type 0 where
    pub target_entry : get target m' ≡ some ((count target m + 1) % 2 ^ 64, now)
    pub others : (endpoint : Bytes) → target ≢ endpoint → get endpoint m' ≡ get endpoint m

  -- Of the two candidates, one comes first, which is not the more loaded one and is booked.
  pub record IsBetter (now : ℕ) (m : InFlight) (a b : PlacementCandidate)
      (x : List Bytes × InFlight) : Type 0 where
    pub first : PlacementCandidate
    pub second : PlacementCandidate
    pub both : ((first ≡ a) × (second ≡ b)) ⊎ ((first ≡ b) × (second ≡ a))
    pub endpoints : x.0 ≡ first.endpoint ∷ second.endpoint ∷ []
    pub not_heavier : partial_cmp (load_in m first) (load_in m second) ≢ some Ordering.gt
    pub booked : Booked now first.endpoint m x.1

  book-Booked : (target : Bytes) (now : ℕ) (m : InFlight) → Booked now target m (book target now m)
  unfolding book
  book-Booked target now m = record {
    target_entry = ground (arith, get-insert target target ((count target m + 1) % 2 ^ 64, now) m);
    others = λ endpoint h.
        ground (arith, h, get-insert endpoint target ((count target m + 1) % 2 ^ 64, now) m);
  }

  ratio : (c : PlacementCandidate) (m : InFlight) → predicted_ratio floats c m ≡ load_in m c
  unfolding predicted_ratio count
  ratio c m =
      ap
        (λ k.
          div (add (of_usize c.active_actor_count) (of_usize (count c.endpoint m))) (of_usize k))
        (ground arith)

  greater_cases :
      (o : Option Ordering)
      → ((is_greater floats o ≡ true) × (o ≡ some Ordering.gt))
        ⊎ ((is_greater floats o ≡ false) × (o ≢ some Ordering.gt))
  greater_cases none = inr (refl, λ h. cc)
  greater_cases (some Ordering.lt) = inr (refl, λ h. cc)
  greater_cases (some Ordering.eq) = inr (refl, λ h. cc)
  greater_cases (some Ordering.gt) = inl (refl, refl)

  heavier_cases :
      (m : InFlight) (a b : PlacementCandidate)
      → ((is_heavier floats m a b ≡ true)
          × (partial_cmp (load_in m a) (load_in m b) ≡ some Ordering.gt))
        ⊎ ((is_heavier floats m a b ≡ false)
            × (partial_cmp (load_in m a) (load_in m b) ≢ some Ordering.gt))
  unfolding is_heavier
  heavier_cases m a b =
      rw (ratio a m, ratio b m) (greater_cases (partial_cmp (load_in m a) (load_in m b)))

  -- What `f64` promises: one of two floats is not greater than the other one.
  abbrev pub IsAsymmetric : Type 0
  IsAsymmetric =
      (x y : F64) → partial_cmp x y ≡ some Ordering.gt → partial_cmp y x ≢ some Ordering.gt

  chosen-IsBetter :
      (now : ℕ) (m : InFlight) (a b : PlacementCandidate)
      → IsAsymmetric
      → (x : List Bytes × InFlight) × (chosen floats now m (some a) (some b) ≡ some x)
        × IsBetter now m a b x
  unfolding chosen
  chosen-IsBetter now m a b f = elim (heavier_cases m a b) [
    | inl (e, g) ↦ (
      (b.endpoint ∷ a.endpoint ∷ [], book b.endpoint now m),
      rw e refl,
      record {
        first = b;
        second = a;
        both = inr (refl, refl);
        endpoints = refl;
        not_heavier = f (load_in m a) (load_in m b) g;
        booked = book-Booked b.endpoint now m;
      },
    )
    | inr (e, g) ↦ (
      (a.endpoint ∷ b.endpoint ∷ [], book a.endpoint now m),
      rw e refl,
      record {
        first = a;
        second = b;
        both = inl (refl, refl);
        endpoints = refl;
        not_heavier = g;
        booked = book-Booked a.endpoint now m;
      },
    )
  ]

  two-chosen :
      (now i j : ℕ) (m : InFlight) (cs : List PlacementCandidate) (a b : PlacementCandidate)
      → j ≢ i
      → get_elem? cs i ≡ some a
      → get_elem? cs j ≡ some b
      → at_indices floats now m cs i (some j) ≡ chosen floats now m (some a) (some b)
  unfolding at_indices
  two-chosen now i j m cs a b ne f g = ground arith

  -- The entries of the last three seconds.
  abbrev pub recent : ℕ → InFlight → InFlight
  recent now m = keep (λ e. ltb (now - e.1.1) 3000) m

  -- With two candidates or more, and draws of which the first and a later one differ as indices,
  -- those in between being like the first: the endpoints of the candidates at these two indices are
  -- picked, each once. The load of the one that comes first, with the placements in flight of the
  -- last three seconds, does not compare as greater than that of the other, if no two floats are each
  -- greater than the other. Its entry alone has changed: it counts one more, from now.
  pub pick_two :
      (now d e : ℕ) (skipped rest : List ℕ) (cs : List PlacementCandidate) (m : InFlight)
      → IsAsymmetric
      → 1 < length cs
      → All (λ x. x % length cs ≡ d % length cs) skipped
      → e % length cs ≢ d % length cs
      → (a : PlacementCandidate) × (b : PlacementCandidate) × (x : List Bytes × InFlight)
        × (get_elem? cs (d % length cs) ≡ some a)
        × (get_elem? cs (e % length cs) ≡ some b)
        × (pick floats now (d ∷ (skipped ++ e ∷ rest)) cs m ≡ some x)
        × IsBetter now (recent now m) a b x
  unfolding pick retain
  pick_two now d e skipped rest [] m l h s ne = absurd (omega (arith, h))
  pick_two now d e skipped rest (c ∷ cs) m l h s ne =
      let n = length (c ∷ cs) in
      let (a, f) = in_range (c ∷ cs) (d % n) (omega arith) in
      let (b, g) = in_range (c ∷ cs) (e % n) (omega arith) in
      let (x, k, y) = chosen-IsBetter now (retain now m) a b l in
      (
        a,
        b,
        x,
        f,
        g,
        rw (redraw-skips n (d % n) e skipped rest h s ne)
            (two-chosen now (d % n) (e % n) (retain now m) (c ∷ cs) a b ne f g ∙ k),
        y,
      )

-- A placement that is booked and then fails leaves every endpoint at the count that it had, if the
-- booked one was below the greatest `usize`.
pub count-on_placement_failed :
    (now : ℕ) (target endpoint : Bytes) (m : InFlight)
    → count target m + 1 < 2 ^ 64
    → count endpoint (on_placement_failed target (book target now m)) ≡ count endpoint m
unfolding on_placement_failed book count lower
count-on_placement_failed now target endpoint m h = ground (
  arith,
  get-insert target target ((count target m + 1) % 2 ^ 64, now) m,
  get-insert endpoint target ((count target m + 1) % 2 ^ 64, now) m,
  get-insert endpoint target (count target m, now) (book target now m),
)
