-- ===== src/Tests/Channels.antt =====
-- A semaphore and a channel in memory that keep the promises of coactor.Tokio.
use coactor.Base.{
  ℕ, zero, suc, ◌-◌, ◌≡◌, refl, Bool, true, Option, none, some, List, [], ◌∷◌, ◌++◌, Result, ok,
  err, length, ltb, if◌then◌else◌, arith,
}
use coactor.Tokio.{Semaphore, Mpsc, TrySendError, full, closed}

abbrev pub take : ℕ → Option ℕ
take zero = none
take (suc n) = some n

pub take-none : (n : ℕ) → n ≡ 0 → take n ≡ none
take-none zero h = refl
take-none (suc n) h = absurd (omega (arith, h))

pub take-some : (n : ℕ) {m : ℕ} → take n ≡ some m → n ≡ suc m
take-some zero h = cc
take-some (suc n) h = ground arith

-- A number of permits.
abbrev pub permits : Semaphore
permits = record {
  Sem = ℕ;
  semaphore = λ n. n;
  available_permits = λ n. n;
  try_acquire = take;
  release = suc;
  available_permits-semaphore = λ n. refl;
  try_acquire-none = take-none;
  try_acquire-some = take-some;
  available_permits-release = λ n. refl;
}

module _ (M : Type 0) where
  pub record Queue : Type 0 where
    pub size : ℕ
    pub queue : List M
    pub is_open : Bool

  abbrev pub push : M → Queue → Result TrySendError (Unit {0}) × Queue
  push m c =
      if c.is_open
      then (if ltb (length c.queue) c.size
          then (ok tt, record c { queue = c.queue ++ m ∷ [] })
          else (err full, c))
      else (err closed, c)

  pub push_ok : (m : M) (c : Queue) → (push m c).0 ≡ ok tt → (push m c).1.queue ≡ c.queue ++ m ∷ []
  push_ok m c h = ground arith

  pub push_err : (m : M) (c : Queue) {e : TrySendError} → (push m c).0 ≡ err e → (push m c).1 ≡ c
  push_err m c h = ground arith

  pub push_new :
      (m : M) (n : ℕ) → (push m (record { size = suc n; queue = []; is_open = true })).0 ≡ ok tt
  push_new m n = ground arith

  -- A queue of at most `size` messages.
  abbrev pub queues : Mpsc M
  queues = record {
    Chan = Queue;
    channel = λ n. record { size = n; queue = []; is_open = true };
    try_send = push;
    waiting = λ c. c.queue;
    capacity = λ c. c.size - length c.queue;
    max_capacity = λ c. c.size;
    waiting-channel = λ n. refl;
    waiting-try_send = push_ok;
    try_send_refused = push_err;
    try_send_new = push_new;
  }
