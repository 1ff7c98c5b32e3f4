-- ===== src/Tests/Buckets.antt =====
-- A bucket in memory under the S3 store.
use coactor.Base.{
  ℕ, ◌+◌, ◌≡◌, refl, Bool, true, false, Option, some, none, List, [], ◌∷◌, Bytes, bytes,
  Bytes-discrete, ℕ_discrete, Result, ok, err, Map, get, insert, remove, get-insert, arith,
  bytes_eq, ite,
}
use coactor.Address.{ActorAddress}
use coactor.Address.Keys.{
  nodes_prefix, listed_node_id, strip_prefix, strip_suffix, node_key, actor_key, key,
}
use coactor.Cluster.{NodeRecord, ActorOwner-discrete, ActorOwnerRecord-discrete}
use coactor.Cluster.S3
use coactor.Cluster.S3.{
  read_node_key, put_node, read_node, read_actor_key, compare_exchange_actor_owner, object_read,
  written, expiry, timed, SdkError, GetObjectOutput, ListObjectsOutput, Condition, if_match,
  if_none_match, Objects, StoredNodeLease, Json,
}
use coactor.Cluster.S3.Ledgers.{Consistent, record_in, resolve_local-record_in}
use coactor.Cluster.S3.Directory.{fetch_pages, read_page, fetch_nodes}
use coactor.Cluster.S3.Directory.Listed.{
  Sorted, Lists, last, more, held, no_key, Named, fetch_nodes-Listed,
}
use mathlib.Core.List.{Perm}
use coactor.Cluster.S3.Ledgers.Leases.{Shown, read_node-put_node}
use coactor.Cluster.Router.{
  Coordination, ClusterRouter, resolve, local_owner, local_claim, is_local_owner,
}
use coactor.Cluster.Router.Owned.{owner_of}
use coactor.Tests.Channels.{permits}
use coactor.Tests.Encodings.{
  split, encoded_owner, decoded_owner, decoded_lease, numbers, numbers_round_trip,
}

-- Each object with its version, the last version and the clock.
record Bucket : Type 0 where
  objects : Map Bytes (Bytes × ℕ)
  version : ℕ
  now : ℕ

abbrev tag : ℕ → Bytes
tag n = n ∷ []

abbrev no_such_key : SdkError
no_such_key = record { is_service_error = true; is_no_such_key = true; status = some 404 }

abbrev failed_condition : SdkError
failed_condition = record { is_service_error = true; is_no_such_key = false; status = some 412 }

abbrev read_of : Option (Bytes × ℕ) → Result SdkError GetObjectOutput
read_of none = err no_such_key
read_of (some (body, n)) = ok (record { e_tag = some (tag n); body = some body })

abbrev holds : Condition → Option (Bytes × ℕ) → Bool
holds if_none_match none = true
holds (if_match r) (some (body, n)) = ite (bytes_eq.dec (tag n) r) true false
holds _ _ = false

abbrev put : Bytes → Bytes → Bool → Bucket → Result SdkError (Option Bytes) × Bucket
put k body true w = (
  ok (some (tag (w.version + 1))),
  record w { objects = insert k (body, w.version + 1) w.objects; version = w.version + 1 },
)
put k body false w = (err failed_condition, w)

abbrev delete : Bytes → Bool → Bucket → Result SdkError (Unit {0}) × Bucket
delete k true w = (ok tt, record w { objects = remove k w.objects })
delete k false w = (err failed_condition, w)

abbrev keys : Map Bytes (Bytes × ℕ) → List (Option Bytes)
keys [] = []
keys ((k, _) ∷ m) = some k ∷ keys m

abbrev bucket : Objects
bucket = record {
  World = Bucket;
  get_object = λ k w. (read_of (get k w.objects), w);
  put_object = λ k body c w. put k body (holds c (get k w.objects)) w;
  delete_object = λ k r w. delete k (holds (if_match r) (get k w.objects)) w;
  list_objects = λ p token w. (
    ok (record {
      contents = keys w.objects;
      is_truncated = some false;
      next_continuation_token = none;
    }),
    w,
  );
  wall_time_millis = λ w. (w.now, w);
}

abbrev body_of : Option (Bytes × ℕ) → Option Bytes
body_of none = none
body_of (some (body, n)) = some body

read_got :
    (x : Option (Bytes × ℕ)) (output : GetObjectOutput) (body : Bytes)
    → read_of x ≡ ok output
    → output.body ≡ some body
    → body_of x ≡ some body
read_got none output body h e = cc
read_got (some (b, n)) output body h e = ground (arith, h, e)

read_missing : (x : Option (Bytes × ℕ)) (e : SdkError) → read_of x ≡ err e → body_of x ≡ none
read_missing none e h = refl
read_missing (some (b, n)) e h = cc

put_got :
    (k body : Bytes) (b : Bool) (w : Bucket) (etag : Option Bytes)
    → (put k body b w).0 ≡ ok etag
    → body_of (get k (put k body b w).1.objects) ≡ some body
put_got k body true w etag h = ground (arith, get-insert k k (body, w.version + 1) w.objects)
put_got k body false w etag h = cc

bucket_consistent : Consistent bucket
bucket_consistent = record {
  body_at = λ k w. body_of (get k w.objects);
  got = λ k w output body h e. read_got (get k w.objects) output body h e;
  missing = λ k w e h m. read_missing (get k w.objects) e h;
  put = λ k body c w etag h. put_got k body (holds c (get k w.objects)) w etag h;
}

abbrev room : ActorAddress
room = record { actor_type = bytes "chat"; actor_id = bytes "room-7" }

abbrev router : ClusterRouter
router = record { node_id = bytes "n1"; session_id = bytes "a" }

-- `n2` has an ownership record in epoch 4, and no lease.
abbrev lobby : Bytes
lobby = actor_key (bytes "prod") room

abbrev stale : Bucket
stale = record {
  objects =
      (
        lobby,
        (
          encoded_owner (record {
            owner = some (record { node_id = bytes "n2"; session_id = bytes "b" });
            ownership_epoch = 4;
          }),
          1,
        ),
      )
      ∷ [];
  version = 1;
  now = 1000;
}

abbrev in_time : Bucket → Bool
in_time w = false

abbrev over_s3 : Coordination
over_s3 = S3.coordination bucket numbers (bytes "prod") in_time

resolve_local-record_in_example :
    owner_of (
      record_in bucket numbers
        (bytes "prod")
        bucket_consistent
        numbers_round_trip
        room
        (resolve permits over_s3 router room 3 stale).2)
    ≡ some (local_owner router)
unfolding get insert resolve is_local_owner local_claim local_owner ActorOwner-discrete
    ActorOwnerRecord-discrete timed read_actor_key compare_exchange_actor_owner object_read written
    actor_key key decoded_owner split Bytes-discrete ℕ_discrete read_node read_node_key node_key
    record_in
resolve_local-record_in_example =
    resolve_local-record_in bucket numbers (bytes "prod") bucket_consistent numbers_round_trip
      in_time permits router room 3 (resolve permits over_s3 router room 3 stale).1 stale
      (resolve permits over_s3 router room 3 stale).2 true refl

abbrev n1 : NodeRecord
n1 = record {
  node_id = bytes "n1";
  session_id = bytes "a";
  advertised_endpoint = bytes "http://n1:7000";
  protocol_version = 2;
  lease_generation = 3;
  sampled_at_unix_ms = 900;
  active_actor_count = 4;
  max_actor_count = 10;
  pressured = false;
  draining = true;
}

read_node-put_node_example :
    Shown bucket numbers
      (bytes "prod")
      bucket_consistent
      numbers_round_trip
      n1
      6000
      1000
      (read_node bucket numbers
        (bytes "prod")
        (bytes "n1")
        (put_node bucket numbers (bytes "prod") n1 5000 none stale).1).0
unfolding get insert put_node written node_key key expiry Bytes-discrete ℕ_discrete actor_key
read_node-put_node_example =
    read_node-put_node bucket numbers (bytes "prod") bucket_consistent numbers_round_trip n1 5000
      none stale (tag 2) refl refl

-- The record that the read shows is not the empty answer.
read_back_test :
    (read_node bucket numbers
      (bytes "prod")
      (bytes "n1")
      (put_node bucket numbers (bytes "prod") n1 5000 none stale).1).0
    ≡ ok (some n1)
unfolding get insert put_node read_node read_node_key object_read written node_key key expiry
    decoded_lease split Bytes-discrete ℕ_discrete actor_key
read_back_test = refl

-- `n2` has a lease, and then `n1`.
abbrev listed : Bucket
listed =
    (put_node bucket numbers (bytes "prod") n1 5000 none
      (put_node bucket numbers (bytes "prod") (record n1 { node_id = bytes "n2" }) 5000 none
        stale).1).1

listed_test :
    (fetch_nodes bucket numbers (bytes "prod") 1 listed).0
    ≡ some (ok (n1 ∷ record n1 { node_id = bytes "n2" } ∷ []))
unfolding get insert put_node read_node_key object_read written node_key key actor_key nodes_prefix
    expiry decoded_lease split fetch_nodes fetch_pages read_page listed_node_id strip_prefix
    strip_suffix Bytes-discrete ℕ_discrete
listed_test = refl

-- The bucket with pages of one key, and the rest under any token.
abbrev page_at : Option Bytes → List (Option Bytes) → ListObjectsOutput
page_at none (k ∷ ks) = record {
  contents = k ∷ [];
  is_truncated = some true;
  next_continuation_token = some (bytes "next");
}
page_at token ks = record {
  contents = ks;
  is_truncated = some false;
  next_continuation_token = none;
}

abbrev rest : List (Option Bytes) → List (Option Bytes)
rest [] = []
rest (k ∷ ks) = ks

abbrev keys_from : Option Bytes → List (Option Bytes) → List (Option Bytes)
keys_from none ks = ks
keys_from (some _) ks = rest ks

abbrev paged : Objects
paged = record bucket {
  list_objects = λ p token w. (ok (page_at token (keys_from token (keys w.objects))), w);
}

abbrev n2 : NodeRecord
n2 = record n1 { node_id = bytes "n2" }

-- The leases of `n2` and then `n1`, and no other object.
abbrev leases : Bucket
leases =
    (put_node bucket numbers (bytes "prod") n1 5000 none
      (put_node bucket numbers (bytes "prod") n2 5000 none
        (record { objects = []; version = 0; now = 1000 })).1).1

abbrev entries : List (Bytes × NodeRecord)
entries = (bytes "n2", n2) ∷ (bytes "n1", n1) ∷ []

two_pages : Lists paged numbers (bytes "prod") 2 none leases entries leases
unfolding get insert put_node read_node_key object_read written node_key key actor_key nodes_prefix
    expiry decoded_lease split Bytes-discrete ℕ_discrete
two_pages =
    more {es = (bytes "n2", n2) ∷ []} {fs = (bytes "n1", n1) ∷ []} (bytes "next") leases leases
      (page_at none (keys leases.objects)) refl refl refl
      (held leases (node_key (bytes "prod") (bytes "n2")) (bytes "n2") (n2, tag 1, 6000)
        (refl, refl, refl) refl no_key)
      (last leases (page_at (some (bytes "next")) (rest (keys leases.objects))) refl (λ h. cc)
        (held leases (node_key (bytes "prod") (bytes "n1")) (bytes "n1") (n1, tag 2, 6000)
          (refl, refl, refl) refl no_key))

fetch_nodes-Listed_example :
    (ns : List NodeRecord) × (fetch_nodes paged numbers (bytes "prod") 2 leases
      ≡ (some (ok ns), leases))
    × Sorted ns
    × Perm ns (n2 ∷ n1 ∷ [])
    × Named paged numbers (bytes "prod") entries
fetch_nodes-Listed_example =
    fetch_nodes-Listed paged numbers (bytes "prod") 2 2 leases leases entries two_pages
      (omega arith)
