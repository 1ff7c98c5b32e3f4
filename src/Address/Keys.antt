-- ===== src/Address/Keys.antt =====
-- The keys of the objects of a coordination store, and the test of its configuration
-- (coactor/src/cluster/s3.rs).
pub mod Laws
use coactor.Base.{
  ℕ, ◌==◌, Bool, true, false, not, ◌&&◌, ◌||◌, List, [], ◌∷◌, ◌++◌, Bytes, bytes, Option, none,
  some, any, ite, if◌then◌else◌, Bytes-discrete,
}
use coactor.Address.{ActorAddress, first_is, last_is}

abbrev pub is_empty : Bytes → Bool
is_empty [] = true
is_empty (_ ∷ _) = false

-- `S3CoordinationStore::key`.
unfoldable pub key : Bytes → Bytes → Bytes
key prefix suffix = if is_empty prefix then suffix else prefix ++ b'/' ∷ suffix

unfoldable pub node_key : Bytes → Bytes → Bytes
unfolding key
node_key prefix node_id = key prefix (bytes "nodes/" ++ (node_id ++ bytes "/lease.json"))

unfoldable pub actor_key : Bytes → ActorAddress → Bytes
unfolding key
actor_key prefix a =
    key prefix
      (bytes "actors/" ++ (a.actor_type ++ (b'/' ∷ (a.actor_id ++ bytes "/ownership.json"))))

unfoldable pub nodes_prefix : Bytes → Bytes
unfolding key
nodes_prefix prefix = key prefix (bytes "nodes/")

-- `str::strip_prefix`.
unfoldable pub strip_prefix : Bytes → Bytes → Option Bytes
strip_prefix [] s = some s
strip_prefix (p ∷ ps) [] = none
strip_prefix (p ∷ ps) (c ∷ cs) = if p == c then strip_prefix ps cs else none

abbrev cons_option : ℕ → Option Bytes → Option Bytes
cons_option c none = none
cons_option c (some cs) = some (c ∷ cs)

-- `str::strip_suffix`.
unfoldable pub strip_suffix : Bytes → Bytes → Option Bytes
strip_suffix suffix [] = ite (Bytes-discrete [] suffix) (some []) none
strip_suffix suffix (c ∷ cs) =
    ite (Bytes-discrete (c ∷ cs) suffix) (some []) (cons_option c (strip_suffix suffix cs))

abbrev pub contains : ℕ → Bytes → Bool
contains c = any (λ d. d == c)

checked_id : Bytes → Option Bytes
checked_id node_id = if is_empty node_id || contains b'/' node_id then none else some node_id

-- The Node ID that `fetch_nodes` reads off a listed key, if it does not pass the key over.
unfoldable pub listed_node_id : Bytes → Bytes → Option Bytes
unfolding nodes_prefix strip_prefix strip_suffix checked_id
listed_node_id prefix k = elim (strip_prefix (nodes_prefix prefix) k) [
  | none ↦ none
  | some rest ↦ elim (strip_suffix (bytes "/lease.json") rest) [
    | none ↦ none
    | some node_id ↦ checked_id node_id
  ]
]

onto_first : ℕ → List Bytes → List Bytes
onto_first c [] = (c ∷ []) ∷ []
onto_first c (p ∷ ps) = (c ∷ p) ∷ ps

-- `str::split('/')`: the parts, of which there is always one.
split : Bytes → List Bytes
unfolding onto_first
split [] = [] ∷ []
split (c ∷ cs) = let parts = split cs in if c == b'/' then [] ∷ parts else onto_first c parts

bad_part : Bytes → Bool
bad_part [] = true
bad_part (c ∷ []) = c == b'.'
bad_part (c ∷ d ∷ []) = c == b'.' && d == b'.'
bad_part _ = false

-- The test of the prefix in `S3CoordinationStore::new`.
unfoldable pub prefix_ok : Bytes → Bool
unfolding split bad_part
prefix_ok prefix =
    is_empty prefix
    || not (
        first_is (λ c. c == b'/') prefix
        || last_is (λ c. c == b'/') prefix
        || any bad_part (split prefix))
