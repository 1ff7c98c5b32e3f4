-- ===== src/Address/Keys/Laws.antt =====
-- Keys of different objects differ, and a listed key gives back its Node ID.
use coactor.Base.{
  ℕ, ◌≡◌, refl, sym, ap, subst, ◌∙◌, ◌≢◌, ◌↔◌, true, false, [], ◌∷◌, ◌++◌, Bytes, bytes, some,
  length, length-append, all, arith, Bytes-discrete, Option-cases, if_pos, if_neg, inl, inr,
  append_assoc, append_cancel,
}
use coactor.Address.{ActorAddress, is_dns_label, is_label_byte}
use coactor.Address.Keys.{
  is_empty, key, node_key, actor_key, nodes_prefix, strip_prefix, strip_suffix, contains,
  listed_node_id,
}

key_cancel : (prefix : Bytes) {a b : Bytes} → key prefix a ≡ key prefix b → a ≡ b
unfolding key
key_cancel [] h = h
key_cancel (c ∷ p) {a} {b} h =
    ground (arith, append_cancel (c ∷ p) {xs = b'/' ∷ a} {ys = b'/' ∷ b} h)

-- Up to the first separator two texts agree.
split_at :
    (sep : ℕ) (x y : Bytes) {r s : Bytes}
    → contains sep x ≡ false
    → contains sep y ≡ false
    → x ++ (sep ∷ r) ≡ y ++ (sep ∷ s)
    → (x ≡ y) × (r ≡ s)
split_at sep [] [] hx hy h = ground arith
split_at sep [] (d ∷ y) hx hy h = absurd (ground arith)
split_at sep (c ∷ x) [] hx hy h = absurd (ground arith)
split_at sep (c ∷ x) (d ∷ y) {r} {s} hx hy h = ground (arith, split_at sep x y {r = r} {s = s})

label_slash_free : (b : Bytes) → all is_label_byte b ≡ true → contains b'/' b ≡ false
label_slash_free [] h = refl
label_slash_free (c ∷ b) h = ground (arith, label_slash_free b)

slash_free : (b : Bytes) → is_dns_label b ≡ true → contains b'/' b ≡ false
unfolding is_dns_label
slash_free b h = label_slash_free b (ground arith)

-- Two addresses of labels that have one ownership object are one address.
pub actor_key_injective :
    (prefix : Bytes) (a b : ActorAddress)
    → is_dns_label a.actor_type ≡ true
    → is_dns_label a.actor_id ≡ true
    → is_dns_label b.actor_type ≡ true
    → is_dns_label b.actor_id ≡ true
    → actor_key prefix a ≡ actor_key prefix b
    → a ≡ b
unfolding actor_key
actor_key_injective prefix a b at ai bt bi h =
    let rest = append_cancel (bytes "actors/") (key_cancel prefix h) in
    let (types, more) =
      split_at b'/' a.actor_type b.actor_type (slash_free _ at) (slash_free _ bt) rest in
    let (ids, _) = split_at b'/' a.actor_id b.actor_id (slash_free _ ai) (slash_free _ bi) more in
    ground arith

strip_prefix-append : (p s : Bytes) → strip_prefix p (p ++ s) ≡ some s
unfolding strip_prefix
strip_prefix-append [] s = refl
strip_prefix-append (c ∷ p) s = ground (arith, strip_prefix-append p s)

append_of_strip_prefix : (p s r : Bytes) → strip_prefix p s ≡ some r → s ≡ p ++ r
unfolding strip_prefix
append_of_strip_prefix [] s r h = ground arith
append_of_strip_prefix (c ∷ p) [] r h = cc
append_of_strip_prefix (c ∷ p) (d ∷ s) r h = ground (arith, append_of_strip_prefix p s r)

strip_suffix_self : (suffix : Bytes) → strip_suffix suffix suffix ≡ some []
unfolding strip_suffix
strip_suffix_self [] = if_pos (Bytes-discrete [] []) refl _ _
strip_suffix_self (c ∷ cs) = if_pos (Bytes-discrete (c ∷ cs) (c ∷ cs)) refl _ _

append_ne : (c : ℕ) (s t : Bytes) → ◌≢◌ {A = Bytes} (c ∷ (s ++ t)) t
append_ne c s t h = omega (arith, ap length h, length-append s t)

strip_suffix-append : (suffix s : Bytes) → strip_suffix suffix (s ++ suffix) ≡ some s
unfolding strip_suffix
strip_suffix-append suffix [] = strip_suffix_self suffix
strip_suffix-append suffix (c ∷ s) =
    if_neg (Bytes-discrete (c ∷ (s ++ suffix)) suffix) (append_ne c s suffix) _ _
    ∙ rw (strip_suffix-append suffix s)

append_of_strip_suffix : (suffix s r : Bytes) → strip_suffix suffix s ≡ some r → s ≡ r ++ suffix
unfolding strip_suffix
append_of_strip_suffix suffix [] r h = ground arith
append_of_strip_suffix suffix (c ∷ s) r h = elim (Bytes-discrete (c ∷ s) suffix) [
  | yes e ↦ ground arith
  | no n ↦ elim (Option-cases (strip_suffix suffix s)) [
    | inl e ↦ absurd (ground arith)
    | inr (r', e) ↦ ground (arith, append_of_strip_suffix suffix s r' e)
  ]
]

key-append : (prefix a b : Bytes) → key prefix (a ++ b) ≡ key prefix a ++ b
unfolding key
key-append [] a b = refl
key-append (c ∷ p) a b = sym (append_assoc (c ∷ p) (b'/' ∷ a) b)

node_key_lem :
    (prefix n : Bytes) → node_key prefix n ≡ nodes_prefix prefix ++ (n ++ bytes "/lease.json")
unfolding node_key nodes_prefix
node_key_lem prefix n = key-append prefix (bytes "nodes/") (n ++ bytes "/lease.json")

listed-node_key :
    (prefix n : Bytes)
    → is_empty n ≡ false
    → contains b'/' n ≡ false
    → listed_node_id prefix (node_key prefix n) ≡ some n
unfolding listed_node_id
listed-node_key prefix n he hs = ground (
  arith,
  node_key_lem prefix n,
  strip_prefix-append (nodes_prefix prefix) (n ++ bytes "/lease.json"),
  strip_suffix-append (bytes "/lease.json") n,
)

node_key_of_listed :
    (prefix k n : Bytes)
    → listed_node_id prefix k ≡ some n
    → (k ≡ node_key prefix n) × (is_empty n ≡ false) × (contains b'/' n ≡ false)
unfolding listed_node_id
node_key_of_listed prefix k n h = elim (Option-cases (strip_prefix (nodes_prefix prefix) k)) [
  | inl e ↦ absurd (ground arith)
  | inr (rest, e) ↦ elim (Option-cases (strip_suffix (bytes "/lease.json") rest)) [
    | inl f ↦ absurd (ground arith)
    | inr (m, f) ↦ ground (
      arith,
      node_key_lem prefix n,
      append_of_strip_prefix (nodes_prefix prefix) k rest e,
      append_of_strip_suffix (bytes "/lease.json") rest m f,
    )
  ]
]

-- A key is listed as a node's lease exactly when it is the key of a Node ID that is not empty and
-- holds no slash; and it gives back that Node ID.
pub listed_node_id_iff :
    (prefix k n : Bytes)
    → (listed_node_id prefix k ≡ some n)
      ↔ ((k ≡ node_key prefix n) × (is_empty n ≡ false) × (contains b'/' n ≡ false))
listed_node_id_iff prefix k n = (
  node_key_of_listed prefix k n,
  λ h. subst (λ j. listed_node_id prefix j ≡ some n) (sym h.0) (listed-node_key prefix n h.1 h.2),
)
