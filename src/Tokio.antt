-- ===== src/Tokio.antt =====
-- What the program takes from the tokio library, as operations with their documented behaviour.
use coactor.Base.{ℕ, suc, ◌≡◌, Option, none, some, List, [], ◌∷◌, ◌++◌, Result, ok, err}

-- `tokio::sync::Semaphore`: a permit is taken at once or not at all, and given back when dropped.
pub record Semaphore : Type 1 where
  pub Sem : Type 0
  pub semaphore : ℕ → Sem
  pub available_permits : Sem → ℕ
  pub try_acquire : Sem → Option Sem
  pub release : Sem → Sem
  pub available_permits-semaphore : (n : ℕ) → available_permits (semaphore n) ≡ n
  pub try_acquire-none : (s : Sem) → available_permits s ≡ 0 → try_acquire s ≡ none
  pub try_acquire-some :
      (s : Sem) {t : Sem} → try_acquire s ≡ some t → available_permits s ≡ suc (available_permits t)
  pub available_permits-release :
      (s : Sem) → available_permits (release s) ≡ suc (available_permits s)

pub data TrySendError : Type 0 where
  full closed : TrySendError

-- `tokio::sync::mpsc`, one bounded channel of messages: a message is queued at the end, or it is
-- refused and the channel stays as it is.
pub record Mpsc (M : Type 0) : Type 1 where
  pub Chan : Type 0
  pub channel : ℕ → Chan
  pub try_send : M → Chan → Result TrySendError (Unit {0}) × Chan
  pub waiting : Chan → List M
  pub capacity : Chan → ℕ
  pub max_capacity : Chan → ℕ
  pub waiting-channel : (n : ℕ) → waiting (channel n) ≡ []
  pub waiting-try_send :
      (m : M) (c : Chan) → (try_send m c).0 ≡ ok tt → waiting (try_send m c).1 ≡ waiting c ++ m ∷ []
  pub try_send_refused :
      (m : M) (c : Chan) {e : TrySendError} → (try_send m c).0 ≡ err e → (try_send m c).1 ≡ c
  pub try_send_new : (m : M) (n : ℕ) → (try_send m (channel (suc n))).0 ≡ ok tt
