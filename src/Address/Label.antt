-- ===== src/Address/Label.antt =====
-- What the label test accepts.
use coactor.Base.{ℕ, ◌≤◌, ◌≡◌, refl, ◌↔◌, true, ◌∷◌, [], Bytes, length, all, arith}
use coactor.Address.{is_dns_label, is_label_byte, is_alphanumeric, last_is}

-- A lower-case letter or a digit.
pub data IsEdge (c : ℕ) : Type 0 where
  letter : b'a' ≤ c → c ≤ b'z' → IsEdge c
  digit : b'0' ≤ c → c ≤ b'9' → IsEdge c

pub data IsInner (c : ℕ) : Type 0 where
  edge : IsEdge c → IsInner c
  dash : c ≡ b'-' → IsInner c

-- The bytes after the first of a label: inner bytes that end in an edge.
pub data IsTail : Bytes → Type 0 where
  last : {c : ℕ} → IsEdge c → IsTail (c ∷ [])
  more : {c : ℕ} {cs : Bytes} → IsInner c → IsTail cs → IsTail (c ∷ cs)

-- A DNS label: an edge alone, or an edge, inner bytes and an edge.
pub data IsLabel : Bytes → Type 0 where
  one : {c : ℕ} → IsEdge c → IsLabel (c ∷ [])
  longer : {c : ℕ} {cs : Bytes} → IsEdge c → IsTail cs → IsLabel (c ∷ cs)

IsEdge-byte : (c : ℕ) → is_alphanumeric c ≡ true → is_label_byte c ≡ true → IsEdge c
IsEdge-byte c h k = grind (arith, letter, digit)

IsInner-byte : (c : ℕ) → is_label_byte c ≡ true → IsInner c
IsInner-byte c h = grind (arith, edge, dash, letter, digit)

edge_passes : (c : ℕ) → IsEdge c → (is_alphanumeric c ≡ true) × (is_label_byte c ≡ true)
edge_passes c (letter a b) = ground arith
edge_passes c (digit a b) = ground arith

inner_passes : (c : ℕ) → IsInner c → is_label_byte c ≡ true
inner_passes c (edge e) = (edge_passes c e).1
inner_passes c (dash e) = ground arith

IsTail-of :
    (cs : Bytes) → last_is is_alphanumeric cs ≡ true → all is_label_byte cs ≡ true → IsTail cs
IsTail-of [] h k = cc
IsTail-of (c ∷ []) h k = last (IsEdge-byte c h (ground arith))
IsTail-of (c ∷ d ∷ cs) h k =
    more (IsInner-byte c (ground arith)) (IsTail-of (d ∷ cs) h (ground arith))

last_is-tail :
    {cs : Bytes} (c : ℕ) → IsTail cs → last_is is_alphanumeric (c ∷ cs) ≡ last_is is_alphanumeric cs
last_is-tail c (last e) = refl
last_is-tail c (more i t) = refl

tail_passes :
    {cs : Bytes} → IsTail cs → (last_is is_alphanumeric cs ≡ true) × (all is_label_byte cs ≡ true)
tail_passes (last {c} e) = ground (arith, edge_passes c e)
tail_passes (more {c} {cs} i t) = ground (arith, inner_passes c i, tail_passes t, last_is-tail c t)

IsLabel-of : (b : Bytes) → is_dns_label b ≡ true → (length b ≤ 63) × IsLabel b
unfolding is_dns_label
IsLabel-of [] h = cc
IsLabel-of (c ∷ []) h = (omega arith, one (IsEdge-byte c (ground arith) (ground arith)))
IsLabel-of (c ∷ d ∷ cs) h = (
  ground arith,
  longer (IsEdge-byte c (ground arith) (ground arith))
      (IsTail-of (d ∷ cs) (ground arith) (ground arith)),
)

label_passes : {b : Bytes} → length b ≤ 63 → IsLabel b → is_dns_label b ≡ true
unfolding is_dns_label
label_passes h (one {c} e) = ground (arith, edge_passes c e)
label_passes h (longer {c} {cs} e t) =
    ground (arith, edge_passes c e, tail_passes t, last_is-tail c t)

-- The test accepts exactly the DNS labels of at most 63 bytes: lower-case letters, digits and
-- dashes, with a letter or a digit at both ends.
pub is_dns_label_iff : (b : Bytes) → (is_dns_label b ≡ true) ↔ ((length b ≤ 63) × IsLabel b)
is_dns_label_iff b = (IsLabel-of b, λ h. label_passes h.0 h.1)
