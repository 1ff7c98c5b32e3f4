-- ===== src/Tests/Encodings.antt =====
-- An encoding of the objects of the S3 store as lists of numbers.
use coactor.Base.{
  ℕ, zero, suc, ◌==◌, ◌≡◌, refl, Bool, true, false, Option, some, none, [], ◌∷◌, ◌++◌, Bytes, subst,
  length,
}
use coactor.Cluster.{ActorOwner, ActorOwnerRecord}
use coactor.Cluster.S3.{StoredNodeLease, Json}
use coactor.Cluster.S3.Ledgers.{RoundTrips}

-- The two texts of a list, the first of a given length.
unfoldable pub split : ℕ → Bytes → Bytes × Bytes
split zero bs = ([], bs)
split (suc n) [] = ([], [])
split (suc n) (b ∷ bs) = let (l, r) = split n bs in (b ∷ l, r)

split_append : (l r : Bytes) → split (length l) (l ++ r) ≡ (l, r)
unfolding split
split_append [] r = refl
split_append (b ∷ l) r = rw (split_append l r) refl

abbrev bit : Bool → ℕ
bit true = 1
bit false = 0

abbrev pub encoded_owner : ActorOwnerRecord → Bytes
encoded_owner e = elim (e.owner) [
  | none ↦ e.ownership_epoch ∷ []
  | some o ↦ e.ownership_epoch ∷ length o.node_id ∷ o.node_id ++ o.session_id
]

unfoldable pub decoded_owner : Bytes → Option ActorOwnerRecord
unfolding split
decoded_owner [] = none
decoded_owner (epoch ∷ []) = some (record { owner = none; ownership_epoch = epoch })
decoded_owner (epoch ∷ n ∷ bs) = some (record {
  owner = some (record { node_id = (split n bs).0; session_id = (split n bs).1 });
  ownership_epoch = epoch;
})

abbrev pub encoded_lease : StoredNodeLease → Bytes
encoded_lease l =
    l.expires_at_unix_ms
      ∷ l.node.protocol_version
      ∷ l.node.lease_generation
      ∷ l.node.sampled_at_unix_ms
      ∷ l.node.active_actor_count
      ∷ l.node.max_actor_count
      ∷ bit l.node.pressured
      ∷ bit l.node.draining
      ∷ length l.node.session_id
      ∷ l.node.session_id
    ++ l.node.advertised_endpoint

unfoldable pub decoded_lease : Bytes → Option StoredNodeLease
unfolding split
decoded_lease (e ∷ p ∷ g ∷ s ∷ a ∷ m ∷ b ∷ d ∷ n ∷ bs) = some (record {
  node = record {
    node_id = [];
    session_id = (split n bs).0;
    advertised_endpoint = (split n bs).1;
    protocol_version = p;
    lease_generation = g;
    sampled_at_unix_ms = s;
    active_actor_count = a;
    max_actor_count = m;
    pressured = b == 1;
    draining = d == 1;
  };
  expires_at_unix_ms = e;
})
decoded_lease _ = none

bit_back : (b : Bool) → (bit b == 1) ≡ b
bit_back true = refl
bit_back false = refl

abbrev pub numbers : Json
numbers = record {
  lease_to_vec = λ l. some (encoded_lease l);
  lease_from_slice = decoded_lease;
  owner_to_vec = λ e. some (encoded_owner e);
  owner_from_slice = decoded_owner;
}

owner_back :
    (epoch : ℕ) (o : Option ActorOwner)
    → decoded_owner (encoded_owner (record { owner = o; ownership_epoch = epoch }))
      ≡ some (record { owner = o; ownership_epoch = epoch })
unfolding decoded_owner
owner_back epoch none = refl
owner_back epoch (some o) = rw (split_append o.node_id o.session_id) refl

lease_back :
    (l : StoredNodeLease)
    → decoded_lease (encoded_lease l) ≡ some (record l { node = record l.node { node_id = [] } })
unfolding decoded_lease
lease_back l =
    rw
      (
        split_append l.node.session_id l.node.advertised_endpoint,
        bit_back l.node.pressured,
        bit_back l.node.draining,
      )
      refl

bound : Option Bytes → Option StoredNodeLease
bound none = none
bound (some b) = decoded_lease b

owner_bound : Option Bytes → Option ActorOwnerRecord
owner_bound none = none
owner_bound (some b) = decoded_owner b

written_lease_back :
    (l : StoredNodeLease) (body : Bytes)
    → some (encoded_lease l) ≡ some body
    → decoded_lease body ≡ some (record l { node = record l.node { node_id = [] } })
unfolding bound
written_lease_back l body h =
    subst (λ o. bound o ≡ some (record l { node = record l.node { node_id = [] } })) h
      (lease_back l)

written_owner_back :
    (e : ActorOwnerRecord) (body : Bytes)
    → some (encoded_owner e) ≡ some body
    → decoded_owner body ≡ some e
unfolding owner_bound
written_owner_back e body h =
    subst (λ o. owner_bound o ≡ some e) h (owner_back e.ownership_epoch e.owner)

pub numbers_round_trip : RoundTrips numbers
numbers_round_trip = record { lease = written_lease_back; owner = written_owner_back }
