-- ===== src/Calls/Machine.antt =====
-- The state that call.service.ts works on, and calls that may throw after they have changed it.
use time_flow_be.Prelude.{ℕ, Option, none, some, List, Bool, true, false}
use time_flow_be.Prisma.{Prisma}
use time_flow_be.Redis.{SortedSet}
use time_flow_be.RateLimiter
use time_flow_be.Calls.Types.{Call, User, Event, CallError}

-- The clients that the service is given, and its settings.
pub record Env : Type 1 where
  pub prisma : Prisma
  pub redis : SortedSet
  pub ring_timeout_seconds : ℕ
  pub reconnect_grace_seconds : ℕ
  pub rate_limit_call_max : ℕ

-- What a handler sees of the outside while it runs: the clock, and which tabs and users are online.
pub record World : Type 0 where
  pub now : ℕ
  pub is_socket_connected : ℕ → Bool
  pub is_user_online : ℕ → Bool

pub record RingTimer : Type 0 where
  pub call : ℕ
  pub due : ℕ

-- The key of a grace timer is the call and the user; its closure also holds the socket that was lost.
pub record GraceTimer : Type 0 where
  pub call : ℕ
  pub user : ℕ
  pub socket : ℕ
  pub due : ℕ

module _ (env : Env) where
  open env use {prisma, redis}

  pub record State : Type 0 where
    pub calls : prisma.Table Call
    pub users : prisma.Table User
    pub ring_timers : List RingTimer
    pub grace_timers : List GraceTimer
    pub sent : List Event
    pub budget : RateLimiter.Store redis

pub data Result (A : Type 0) : Type 0 where
  ok : A → Result A
  threw : CallError → Result A

-- What a handler did to the state before it threw stays done.
abbrev pub M : Type 0 → Type 0 → Type 0
M S A = S → Result A × S

module _ {S A B : Type 0} where
  abbrev pub then_do : Result A × S → (A → M S B) → Result B × S
  then_do (ok a, s) f = f a s
  then_do (threw e, s) f = (threw e, s)

  infixl 5 ◌>>=◌
  abbrev pub ◌>>=◌ : M S A → (A → M S B) → M S B
  ◌>>=◌ m f s = then_do (m s) f

module _ {S : Type 0} where
  abbrev pub return : {A : Type 0} → A → M S A
  return a s = (ok a, s)

  abbrev pub throw : {A : Type 0} → CallError → M S A
  throw e s = (threw e, s)

  infixl 5 ◌>>◌
  abbrev pub ◌>>◌ : {B : Type 0} → M S (Unit {0}) → M S B → M S B
  m >> k = m >>= λ _. k

  -- `if (!test) throw e`
  abbrev pub guard : Bool → CallError → M S (Unit {0})
  guard true e = return tt
  guard false e = throw e

  abbrev pub require : {A : Type 0} → Option A → CallError → M S A
  require none e = throw e
  require (some a) e = return a

  -- `$transaction`: an error inside takes back what was done inside.
  abbrev pub rolled_back : {A : Type 0} → S → Result A × S → Result A × S
  rolled_back s (ok a, s') = (ok a, s')
  rolled_back s (threw e, s') = (threw e, s)

  abbrev pub transaction : {A : Type 0} → M S A → M S A
  transaction m s = rolled_back s (m s)

  abbrev pub modify : (S → S) → M S (Unit {0})
  modify f s = (ok tt, f s)
