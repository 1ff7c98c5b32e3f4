-- ===== src/Address.antt =====
-- Actor Addresses (coactor/src/actor.rs) and the object keys made of them
-- (coactor/src/cluster/s3.rs). A text is its list of bytes.
pub mod Label
pub mod Keys
use coactor.Base.{
  ℕ, ◌==◌, leb, Bool, false, ◌&&◌, ◌||◌, [], ◌∷◌, ◌++◌, Bytes, Option, none, some, Result, ok, err,
  length, all, if◌then◌else◌, Eq, ℕ_discrete,
}

abbrev pub is_lower : ℕ → Bool
is_lower c = leb b'a' c && leb c b'z'

abbrev pub is_upper : ℕ → Bool
is_upper c = leb b'A' c && leb c b'Z'

abbrev pub is_digit : ℕ → Bool
is_digit c = leb b'0' c && leb c b'9'

abbrev pub is_alphanumeric : ℕ → Bool
is_alphanumeric c = is_lower c || is_upper c || is_digit c

-- `bytes.first().is_some_and(p)`.
abbrev pub first_is : (ℕ → Bool) → Bytes → Bool
first_is p [] = false
first_is p (c ∷ cs) = p c

-- `bytes.last().is_some_and(p)`.
abbrev pub last_is : (ℕ → Bool) → Bytes → Bool
last_is p [] = false
last_is p (c ∷ []) = p c
last_is p (c ∷ d ∷ cs) = last_is p (d ∷ cs)

abbrev pub is_label_byte : ℕ → Bool
is_label_byte c = is_lower c || is_digit c || c == b'-'

unfoldable pub is_dns_label : Bytes → Bool
is_dns_label value =
    leb 1 (length value)
    && leb (length value) 63
    && first_is is_alphanumeric value
    && last_is is_alphanumeric value
    && all is_label_byte value

pub record ActorAddress : Type 0 where
  pub actor_type : Bytes
  pub actor_id : Bytes

unfoldable pub ActorAddress-discrete : Discrete ActorAddress
ActorAddress-discrete = hlevel ℕ_discrete

instance abbrev pub address_eq : Eq ActorAddress
address_eq = record { dec = ActorAddress-discrete }

pub data ActorAddressError : Type 0 where
  invalid_actor_type invalid_actor_id : ActorAddressError

-- `ActorAddress::new`.
unfoldable pub new : Bytes → Bytes → Result ActorAddressError ActorAddress
new actor_type actor_id =
    if is_dns_label actor_type
    then (if is_dns_label actor_id
        then ok (record { actor_type = actor_type; actor_id = actor_id })
        else err invalid_actor_id)
    else err invalid_actor_type

-- `impl Display for ActorAddress`.
unfoldable pub display : ActorAddress → Bytes
display a = a.actor_type ++ b'/' ∷ a.actor_id

-- `actor_address_from_envelope` (coactor/src/runtime/core.rs). `from_utf8` checks the bytes.
unfoldable pub from_envelope : (Bytes → Bool) → Bytes → Bytes → Option ActorAddress
unfolding new
from_envelope is_utf8 actor_type actor_id =
    if is_utf8 actor_id
    then elim (new actor_type actor_id) [ ok a ↦ some a | err _ ↦ none ]
    else none
