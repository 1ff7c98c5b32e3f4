-- ===== src/Cluster/TestStore/Revisions.antt =====
-- The revisions that the store in memory issues, and whose revision the lease of a node has.
use coactor.Base.{
  append_cancel, ℕ, ◌+◌, ◌≤◌, ◌≡◌, refl, ◌∙◌, ◌≢◌, ◌++◌, bytes, decimal, decimal_injective,
  bytes_eq, arith,
}
use coactor.Cluster.{Revision}
use coactor.Cluster.TestStore.{TestCoordinationStore, next}

-- The store has issued the revision.
abbrev pub IsIssued : TestCoordinationStore → Revision → Type 0
IsIssued s r = (k : ℕ) × (k ≤ s.next_revision) × (r ≡ bytes "test-revision-" ++ decimal k)

-- What the store issues next is new.
pub next_fresh : (s : TestCoordinationStore) (r : Revision) → IsIssued s r → next s ≢ r
unfolding next
next_fresh s r (k, g, e) h = omega (
  arith,
  g,
  decimal_injective (s.next_revision + 1) k (append_cancel (bytes "test-revision-") (h ∙ e)),
)

pub IsIssued-mono :
    (s t : TestCoordinationStore) (r : Revision)
    → s.next_revision ≤ t.next_revision
    → IsIssued s r
    → IsIssued t r
IsIssued-mono s t r g (k, h, e) = (k, omega (arith, g, h), e)

pub next-IsIssued :
    (s t : TestCoordinationStore) → t.next_revision ≡ s.next_revision + 1 → IsIssued t (next s)
unfolding next
next-IsIssued s t e = (s.next_revision + 1, omega (arith, e), refl)
