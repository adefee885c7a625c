-- ===== src/Unbounded.antt =====
-- unbounded/unbounded.go: a queue with a channel of one slot that wakes its reader. `Put` works in
-- two steps, since it sends on the channel after it has released the lock; other calls come between.
pub mod Wakeup
mod Tests
use galene.Base.{
  ℕ, suc, ◌+◌, ◌-◌, ◌<◌, ◌≡◌, Bool, true, false, not, List, [], ◌∷◌, ◌++◌, non_empty, if◌then◌else◌,
}

-- The queue; whether the channel `Ch` holds a token; how many calls of `Put` have found the queue
-- empty and are about to send; and how many readers have taken a token and are about to call `Get`.
pub record Channel {ℓ} (A : Type ℓ) : Type ℓ where
  pub queue : List A
  pub ch : Bool
  pub sending : ℕ
  pub woken : ℕ

-- `New`
pub new {ℓ} : {A : Type ℓ} → Channel A
new = record { queue = []; ch = false; sending = 0; woken = 0 }

-- `Put` under the lock: only a call that finds the queue empty goes on to send.
pub put_locked {ℓ} : {A : Type ℓ} → Channel A → A → Channel A
put_locked c v = record c {
  queue = c.queue ++ v ∷ [];
  sending = if non_empty c.queue then c.sending else c.sending + 1;
}

-- The `select` of `Put`: a full channel is left as it is.
pub put_send {ℓ} : {A : Type ℓ} → Channel A → Channel A
put_send c = record c { ch = true; sending = c.sending - 1 }

-- A reader takes the token.
pub receive {ℓ} : {A : Type ℓ} → Channel A → Channel A
receive c = record c { ch = false; woken = c.woken + 1 }

-- `Get`: the state, and the elements.
pub get {ℓ} : {A : Type ℓ} → Channel A → Channel A × List A
get c = (record c { queue = [] }, c.queue)

-- A woken reader has called `Get`.
abbrev pub settled {ℓ} : {A : Type ℓ} → Channel A → Channel A
settled c = record c { woken = c.woken - 1 }

-- One step of some goroutine, with what was put in and what was handed out. `Get` is called by a
-- reader that was woken, or at any other time.
pub data Step {ℓ} {A : Type ℓ} : Channel A → List A → List A → Channel A → Type ℓ where
  puts : (c : Channel A) (v : A) → Step c (v ∷ []) [] (put_locked c v)
  sends : (c : Channel A) → 0 < c.sending → Step c [] [] (put_send c)
  receives : (c : Channel A) → c.ch ≡ true → Step c [] [] (receive c)
  gets : (c : Channel A) → 0 < c.woken → Step c [] (get c).1 (settled (get c).0)
  polls : (c : Channel A) → Step c [] (get c).1 (get c).0

pub data Run {ℓ} {A : Type ℓ} : Channel A → List A → List A → Channel A → Type ℓ where
  start : (c : Channel A) → Run c [] [] c
  next :
      {c d e : Channel A} {ins outs more handed : List A}
      → Run c ins outs d
      → Step d more handed e
      → Run c (ins ++ more) (outs ++ handed) e
