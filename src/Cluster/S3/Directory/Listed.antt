-- ===== src/Cluster/S3/Directory/Listed.antt =====
-- The nodes of a listing.
use coactor.Base.{
  ◌≢◌, ◌≤◌, map, Option-cases, append-nil, append_assoc, ap, ◌∙◌, ℕ, zero, suc, ◌≡◌, refl, sym,
  Bool, true, false, Option, none, some, List, [], ◌∷◌, ◌++◌, Bytes, Result, ok, err, All,
  if◌then◌else◌, arith, Bool-cases, inl, inr,
}
use mathlib.Core.List.{Perm}
use mathlib.Core.List.Perm
use coactor.Address.Keys.{nodes_prefix, listed_node_id, node_key, is_empty, contains}
use coactor.Address.Keys.Laws.{listed_node_id_iff}
use coactor.Cluster.{NodeRecord, Revision, CoordinationErrorKind}
use coactor.Cluster.S3.{
  ListObjectsOutput, Objects, Json, Lease, StoredNodeLease, read_node_key, node_object, lease_read,
  unexpired, object_read,
}
use coactor.Cluster.S3.Directory.{
  at_most, placed, sorted, is_truncated_page, with_lease, with_id, read_page, next_page, after_page,
  with_page, fetch_pages, fetch_nodes,
}

-- In the order of the Node IDs.
abbrev pub Sorted : List NodeRecord → Type 0
Sorted [] = Unit {0}
Sorted (n ∷ []) = Unit {0}
Sorted (n ∷ m ∷ ms) = (at_most n.node_id m.node_id ≡ true) × Sorted (m ∷ ms)

total : (x y : Bytes) → at_most x y ≡ false → at_most y x ≡ true
total [] y h = cc
total (a ∷ l) [] h = refl
total (a ∷ l) (b ∷ r) h = ground (arith, h, total l r)

tail_Sorted : (m : NodeRecord) (ms : List NodeRecord) → Sorted (m ∷ ms) → Sorted ms
tail_Sorted m [] h = tt
tail_Sorted m (k ∷ ks) h = h.1

below-Sorted :
    (m n k : NodeRecord) (ks : List NodeRecord) (b : Bool)
    → at_most m.node_id n.node_id ≡ true
    → at_most m.node_id k.node_id ≡ true
    → Sorted (if b then n ∷ k ∷ ks else k ∷ placed n ks)
    → Sorted (m ∷ (if b then n ∷ k ∷ ks else k ∷ placed n ks))
below-Sorted m n k ks true e f v = (e, v)
below-Sorted m n k ks false e f v = (f, v)

under-Sorted :
    (m n : NodeRecord) (ms : List NodeRecord)
    → at_most m.node_id n.node_id ≡ true
    → Sorted (m ∷ ms)
    → Sorted (placed n ms)
    → Sorted (m ∷ placed n ms)
under-Sorted m n [] e h v = (e, tt)
under-Sorted m n (k ∷ ks) e h v = below-Sorted m n k ks (at_most n.node_id k.node_id) e h.0 v

placed-Sorted : (n : NodeRecord) (ms : List NodeRecord) → Sorted ms → Sorted (placed n ms)
placed-Sorted n [] h = tt
placed-Sorted n (m ∷ ms) h = elim (Bool-cases (at_most n.node_id m.node_id)) [
  | inl f ↦ rw f (f, h)
  | inr f ↦ rw f (
      under-Sorted m n ms (total n.node_id m.node_id f) h (placed-Sorted n ms (tail_Sorted m ms h)))
]

sorted-Sorted : (ns : List NodeRecord) → Sorted (sorted ns)
sorted-Sorted [] = tt
sorted-Sorted (n ∷ ns) = placed-Sorted n (sorted ns) (sorted-Sorted ns)

placed-Perm : (n : NodeRecord) (ms : List NodeRecord) → Perm (placed n ms) (n ∷ ms)
placed-Perm n [] = Perm.refl (n ∷ [])
placed-Perm n (m ∷ ms) = elim (Bool-cases (at_most n.node_id m.node_id)) [
  | inl f ↦ rw f (Perm.refl (n ∷ m ∷ ms))
  | inr f ↦ rw f (Perm.trans (Perm.cons m (placed-Perm n ms)) (Perm.swap n m ms))
]

sorted-Perm : (ns : List NodeRecord) → Perm (sorted ns) ns
sorted-Perm [] = Perm.refl []
sorted-Perm (n ∷ ns) = Perm.trans (placed-Perm n (sorted ns)) (Perm.cons n (sorted-Perm ns))

module _ (objects : Objects) (json : Json) (prefix : Bytes) where
  open objects use {World, list_objects, get_object, wall_time_millis}
  open json use {lease_from_slice}

  lease_named :
      (l : StoredNodeLease) (id : Bytes) (r : Revision) (x : ℕ × World)
      (n : Lease objects json prefix)
      → (unexpired objects json prefix l id r x).0 ≡ ok (some n)
      → n.0.node_id ≡ id
  unfolding unexpired
  lease_named l id r (now, w) n h = ground (arith, h)

  read_named :
      (id : Bytes) (r : Revision) (l : Option StoredNodeLease) (w : World)
      (n : Lease objects json prefix)
      → (lease_read objects json prefix id false r l w).0 ≡ ok (some n)
      → n.0.node_id ≡ id
  unfolding lease_read
  read_named id r none w n h = cc
  read_named id r (some l) w n h = lease_named l id r (wall_time_millis w) n h

  object_named :
      (id : Bytes) (y : Result CoordinationErrorKind (Option (Bytes × Revision))) (w : World)
      (n : Lease objects json prefix)
      → (node_object objects json prefix id false y w).0 ≡ ok (some n)
      → n.0.node_id ≡ id
  unfolding node_object
  object_named id (err e) w n h = cc
  object_named id (ok none) w n h = cc
  object_named id (ok (some (b, r))) w n h = read_named id r (lease_from_slice b) w n h

  key_named :
      (id : Bytes) (w : World) (n : Lease objects json prefix)
      → (read_node_key objects json prefix id false w).0 ≡ ok (some n)
      → n.0.node_id ≡ id
  unfolding read_node_key
  key_named id w n h =
      object_named id (object_read (get_object (node_key prefix id) w).0)
        (get_object (node_key prefix id) w).1 n h

  -- The text is the key of the lease of a Node ID.
  abbrev pub IsLeaseKey : Bytes → Bytes → Type 0
  IsLeaseKey k id = (k ≡ node_key prefix id) × (is_empty id ≡ false) × (contains b'/' id ≡ false)

  -- The keys of a page and the leases that are read for them, with the Node IDs of the keys.
  pub data Reads : List (Option Bytes) → World → List (Bytes × NodeRecord) → World → Type 0 where
    no_key : {w : World} → Reads [] w [] w
    nameless :
        {ks : List (Option Bytes)} {w w' : World} {es : List (Bytes × NodeRecord)}
        → Reads ks w es w'
        → Reads (none ∷ ks) w es w'
    other_key :
        {ks : List (Option Bytes)} {w w' : World} {es : List (Bytes × NodeRecord)} (k : Bytes)
        → ((id : Bytes) → ¬ IsLeaseKey k id)
        → Reads ks w es w'
        → Reads (some k ∷ ks) w es w'
    gone :
        {ks : List (Option Bytes)} {w w' : World} {es : List (Bytes × NodeRecord)} (v : World)
        (k id : Bytes)
        → IsLeaseKey k id
        → read_node_key objects json prefix id false w ≡ (ok none, v)
        → Reads ks v es w'
        → Reads (some k ∷ ks) w es w'
    held :
        {ks : List (Option Bytes)} {w w' : World} {es : List (Bytes × NodeRecord)} (v : World)
        (k id : Bytes) (n : Lease objects json prefix)
        → IsLeaseKey k id
        → read_node_key objects json prefix id false w ≡ (ok (some n), v)
        → Reads ks v es w'
        → Reads (some k ∷ ks) w ((id, n.0) ∷ es) w'

  -- The pages of a listing from a token on, and the leases that are read for their keys.
  pub data Lists : ℕ → Option Bytes → World → List (Bytes × NodeRecord) → World → Type 0 where
    last :
        {token : Option Bytes} {w w' : World} {es : List (Bytes × NodeRecord)} (v : World)
        (page : ListObjectsOutput)
        → list_objects (nodes_prefix prefix) token w ≡ (ok page, v)
        → page.is_truncated ≢ some true
        → Reads page.contents v es w'
        → Lists 1 token w es w'
    more :
        {pages : ℕ} {token : Option Bytes} {w w' : World} {es fs : List (Bytes × NodeRecord)}
        (t : Bytes) (v x : World) (page : ListObjectsOutput)
        → list_objects (nodes_prefix prefix) token w ≡ (ok page, v)
        → page.is_truncated ≡ some true
        → page.next_continuation_token ≡ some t
        → Reads page.contents v es x
        → Lists pages (some t) x fs w'
        → Lists (suc pages) token w (es ++ fs) w'

  abbrev pub nodes_of : List (Bytes × NodeRecord) → List NodeRecord
  nodes_of es = map (λ e. e.1) es

  abbrev pub Named : List (Bytes × NodeRecord) → Type 0
  Named es = All (λ e. e.1.node_id ≡ e.0) es

  lease_key_listed : (k id : Bytes) → IsLeaseKey k id → listed_node_id prefix k ≡ some id
  lease_key_listed k id h = (listed_node_id_iff prefix k id).1 h

  other_key_unlisted :
      (k : Bytes) → ((id : Bytes) → ¬ IsLeaseKey k id) → listed_node_id prefix k ≡ none
  other_key_unlisted k h = elim (Option-cases (listed_node_id prefix k)) [
    | inl e ↦ e
    | inr (id, e) ↦ absurd (h id ((listed_node_id_iff prefix k id).0 e))
  ]

  Reads-read_page :
      (ks : List (Option Bytes)) (w w' : World) (es : List (Bytes × NodeRecord))
      (ns : List NodeRecord)
      → Reads ks w es w'
      → read_page objects json prefix ks ns w ≡ (ok (ns ++ nodes_of es), w')
  unfolding read_page with_id with_lease
  Reads-read_page _ w _ _ ns no_key = rw (append-nil ns) refl
  Reads-read_page (none ∷ ks) w w' es ns (nameless r) = Reads-read_page ks w w' es ns r
  Reads-read_page (some _ ∷ ks) w w' es ns (other_key k h r) =
      rw (other_key_unlisted k h) (Reads-read_page ks w w' es ns r)
  Reads-read_page (some _ ∷ ks) w w' es ns (gone v k id h e r) =
      rw (lease_key_listed k id h, e) (Reads-read_page ks v w' es ns r)
  Reads-read_page (some _ ∷ ks) w w' _ ns (held {es} v k id n h e r) =
      rw (lease_key_listed k id h, e)
        (Reads-read_page ks v w' es (ns ++ n.0 ∷ []) r
          ∙ ap (λ l. (ok l, w')) (append_assoc ns (n.0 ∷ []) (nodes_of es)))

  Reads-Named :
      (ks : List (Option Bytes)) (w w' : World) (es : List (Bytes × NodeRecord))
      → Reads ks w es w'
      → Named es
  Reads-Named _ w _ _ no_key = tt
  Reads-Named (none ∷ ks) w w' es (nameless r) = Reads-Named ks w w' es r
  Reads-Named (some _ ∷ ks) w w' es (other_key k h r) = Reads-Named ks w w' es r
  Reads-Named (some _ ∷ ks) w w' es (gone v k id h e r) = Reads-Named ks v w' es r
  Reads-Named (some _ ∷ ks) w w' _ (held {es} v k id n h e r) =
      (key_named id w n (ap (λ x. x.0) e), Reads-Named ks v w' es r)

  nodes_of-append :
      (es fs : List (Bytes × NodeRecord)) → nodes_of (es ++ fs) ≡ nodes_of es ++ nodes_of fs
  nodes_of-append [] fs = refl
  nodes_of-append (e ∷ es) fs = ap (λ l. e.1 ∷ l) (nodes_of-append es fs)

  Named-append : (es fs : List (Bytes × NodeRecord)) → Named es → Named fs → Named (es ++ fs)
  Named-append [] fs h k = k
  Named-append (e ∷ es) fs h k = (h.0, Named-append es fs h.1 k)

  not_truncated : (o : Option Bool) → o ≢ some true → is_truncated_page o ≡ false
  not_truncated none h = refl
  not_truncated (some true) h = absurd (h refl)
  not_truncated (some false) h = refl

  Lists-fetch_pages :
      (pages n : ℕ) (token : Option Bytes) (w w' : World) (es : List (Bytes × NodeRecord))
      (ns : List NodeRecord)
      → Lists pages token w es w'
      → pages ≤ n
      → fetch_pages objects json prefix n token ns w ≡ (some (ok (ns ++ nodes_of es)), w')
  unfolding fetch_pages with_page after_page next_page
  Lists-fetch_pages _ zero token w w' es ns (last v page e t r) h = absurd (omega (arith, h))
  Lists-fetch_pages _ (suc n) token w w' es ns (last v page e t r) h =
      rw (e, Reads-read_page page.contents v w' es ns r, not_truncated page.is_truncated t) refl
  Lists-fetch_pages _ zero token w w' _ ns (more t v x page e q k r l) h = absurd (omega (arith, h))
  Lists-fetch_pages (suc pages) (suc n) token w w' _ ns (more {es} {fs} t v x page e q k r l) h =
      rw (e, Reads-read_page page.contents v x es ns r, q, k)
        (Lists-fetch_pages pages n (some t) x w' fs (ns ++ nodes_of es) l (omega (arith, h))
          ∙ ap (λ l. (some (ok l), w'))
              (append_assoc ns (nodes_of es) (nodes_of fs)
                ∙ ap (λ l. ns ++ l) (sym (nodes_of-append es fs))))

  Lists-Named :
      (pages : ℕ) (token : Option Bytes) (w w' : World) (es : List (Bytes × NodeRecord))
      → Lists pages token w es w'
      → Named es
  Lists-Named _ token w w' es (last v page e t r) = Reads-Named page.contents v w' es r
  Lists-Named (suc pages) token w w' _ (more {es} {fs} t v x page e q k r l) =
      Named-append es fs (Reads-Named page.contents v x es r) (Lists-Named pages (some t) x w' fs l)

  -- If S3 lists the keys in pages, of which the last one is not truncated and each other one has a
  -- token for the next, and each lease that is then read is there or gone, whoever else writes
  -- meanwhile: with fuel for as many pages, the listing ends where S3 is then. Its nodes are, in the
  -- order of the Node IDs, those of the leases that were read, each once and none left out, and each
  -- carries the Node ID of the key that its lease was read from.
  pub fetch_nodes-Listed :
      (pages n : ℕ) (w w' : World) (es : List (Bytes × NodeRecord))
      → Lists pages none w es w'
      → pages ≤ n
      → (ns : List NodeRecord) × (fetch_nodes objects json prefix n w ≡ (some (ok ns), w'))
        × Sorted ns
        × Perm ns (nodes_of es)
        × Named es
  unfolding fetch_nodes
  fetch_nodes-Listed pages n w w' es l h = (
    sorted (nodes_of es),
    rw (Lists-fetch_pages pages n none w w' es [] l h) refl,
    sorted-Sorted (nodes_of es),
    sorted-Perm (nodes_of es),
    Lists-Named pages none w w' es l,
  )
