-- ===== src/Cluster/S3/Directory.antt =====
-- The listing of the nodes in S3 and its cache (coactor/src/cluster/s3.rs). The pages of a listing are
-- taken on fuel.
pub mod Listed
use coactor.Base.{
  ℕ, zero, suc, ◌==◌, ltb, Bool, true, false, Option, none, some, List, [], ◌∷◌, ◌++◌, Bytes,
  Result, ok, err, if◌then◌else◌,
}
use coactor.Address.Keys.{nodes_prefix, listed_node_id}
use coactor.Cluster.{NodeRecord, CoordinationErrorKind}
use coactor.Cluster.S3.{
  SdkError, ListObjectsOutput, Objects, Json, Lease, classify_read_error, read_node_key,
}

-- `a.node_id.cmp(&b.node_id)` is not `Greater`: the order of the bytes.
abbrev pub at_most : Bytes → Bytes → Bool
at_most [] r = true
at_most (a ∷ l) [] = false
at_most (a ∷ l) (b ∷ r) = if a == b then at_most l r else ltb a b

abbrev pub placed : NodeRecord → List NodeRecord → List NodeRecord
placed n [] = n ∷ []
placed n (m ∷ ms) = if at_most n.node_id m.node_id then n ∷ m ∷ ms else m ∷ placed n ms

-- The stable sort of `nodes`.
abbrev pub sorted : List NodeRecord → List NodeRecord
sorted [] = []
sorted (n ∷ ns) = placed n (sorted ns)

-- `DirectoryCache`, with the instant of the next refresh.
pub record DirectoryCache : Type 0 where
  pub nodes : List NodeRecord
  pub refresh_at : Option ℕ

abbrev is_fresh : ℕ → Option ℕ → Bool
is_fresh now none = false
is_fresh now (some at) = ltb now at

abbrev is_truncated_page : Option Bool → Bool
is_truncated_page (some true) = true
is_truncated_page _ = false

abbrev pub Nodes : Type 0
Nodes = Result CoordinationErrorKind (List NodeRecord)

module _ (objects : Objects) (json : Json) (prefix : Bytes) where
  open objects use {World, list_objects}

  with_lease :
      (List NodeRecord → World → Nodes × World)
      → List NodeRecord
      → Result CoordinationErrorKind (Option (Lease objects json prefix)) × World
      → Nodes × World
  with_lease next nodes (err e, w) = (err e, w)
  with_lease next nodes (ok none, w) = next nodes w
  with_lease next nodes (ok (some (node, _, _)), w) = next (nodes ++ node ∷ []) w

  with_id :
      (List NodeRecord → World → Nodes × World)
      → List NodeRecord
      → World
      → Option Bytes
      → Nodes × World
  unfolding with_lease
  with_id next nodes w none = next nodes w
  with_id next nodes w (some node_id) =
      with_lease next nodes (read_node_key objects json prefix node_id false w)

  -- The objects of one page.
  unfoldable pub read_page : List (Option Bytes) → List NodeRecord → World → Nodes × World
  unfolding with_id
  read_page [] nodes w = (ok nodes, w)
  read_page (none ∷ ks) nodes w = read_page ks nodes w
  read_page (some k ∷ ks) nodes w = with_id (read_page ks) nodes w (listed_node_id prefix k)

  next_page :
      (Option Bytes → List NodeRecord → World → Option Nodes × World)
      → Option Bytes
      → List NodeRecord
      → World
      → Option Nodes × World
  next_page next none nodes w = (some (err CoordinationErrorKind.invalid_data), w)
  next_page next (some token) nodes w = next (some token) nodes w

  after_page :
      (Option Bytes → List NodeRecord → World → Option Nodes × World)
      → ListObjectsOutput
      → Nodes × World
      → Option Nodes × World
  unfolding next_page
  after_page next page (err e, w) = (some (err e), w)
  after_page next page (ok nodes, w) =
      if is_truncated_page page.is_truncated
      then next_page next page.next_continuation_token nodes w
      else (some (ok nodes), w)

  with_page :
      (Option Bytes → List NodeRecord → World → Option Nodes × World)
      → List NodeRecord
      → Result SdkError ListObjectsOutput × World
      → Option Nodes × World
  unfolding after_page
  with_page next nodes (err e, w) = (some (err (classify_read_error e)), w)
  with_page next nodes (ok page, w) = after_page next page (read_page page.contents nodes w)

  -- The loop of `fetch_nodes`; none if the fuel is used up.
  unfoldable pub fetch_pages : ℕ → Option Bytes → List NodeRecord → World → Option Nodes × World
  unfolding with_page
  fetch_pages zero token nodes w = (none, w)
  fetch_pages (suc n) token nodes w =
      with_page (fetch_pages n) nodes (list_objects (nodes_prefix prefix) token w)

  abbrev sorted_nodes : Option Nodes → Option Nodes
  sorted_nodes (some (ok nodes)) = some (ok (sorted nodes))
  sorted_nodes x = x

  unfoldable pub fetch_nodes : ℕ → World → Option Nodes × World
  fetch_nodes n w = let (nodes, w') = fetch_pages n none [] w in (sorted_nodes nodes, w')

  refreshed : ℕ → DirectoryCache → Option Nodes × World → Option Nodes × DirectoryCache × World
  refreshed refresh_at cache (some (ok nodes), w) =
      (some (ok nodes), record { nodes = nodes; refresh_at = some refresh_at }, w)
  refreshed refresh_at cache (x, w) = (x, cache, w)

  -- `list_nodes` at `now`; `refresh_at` is the instant of the next refresh, jitter included.
  unfoldable pub list_nodes :
      ℕ → ℕ → ℕ → DirectoryCache → World → Option Nodes × DirectoryCache × World
  unfolding refreshed
  list_nodes n now refresh_at cache w =
      if is_fresh now cache.refresh_at
      then (some (ok cache.nodes), cache, w)
      else refreshed refresh_at cache (fetch_nodes n w)
