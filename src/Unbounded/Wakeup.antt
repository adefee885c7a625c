-- ===== src/Unbounded/Wakeup.antt =====
-- unbounded/unbounded.go: no element is lost or reordered, and no wake-up is lost.
use mathlib.Core.List.{append-nil, append_assoc}
use galene.Base.{◌<◌, ◌≡◌, refl, sym, ap, ◌∙◌, ◌⊎◌, inl, true, false, List, ◌++◌, non_empty, arith}
use galene.Unbounded.{
  Channel, new, put_locked, put_send, receive, get, Step, puts, sends, receives, gets, polls, Run,
  start, next,
}

-- A queue that is not empty has a token in the channel, a `Put` about to send one, or a reader about
-- to call `Get`.
abbrev pub IsAwake {ℓ} : {A : Type ℓ} → Channel A → Type 0
IsAwake c = (non_empty c.queue ≡ false) ⊎ ((c.ch ≡ true) ⊎ ((0 < c.sending) ⊎ (0 < c.woken)))

Step-IsAwake {ℓ} :
    {A : Type ℓ} {c d : Channel A} {ins outs : List A} → Step c ins outs d → IsAwake c → IsAwake d
unfolding put_locked put_send receive get
Step-IsAwake (puts c v) h = ground arith
Step-IsAwake (sends c p) h = ground arith
Step-IsAwake (receives c p) h = ground arith
Step-IsAwake (gets c p) h = inl refl
Step-IsAwake (polls c) h = inl refl

keeps_IsAwake {ℓ} :
    {A : Type ℓ} {c d : Channel A} {ins outs : List A} → Run c ins outs d → IsAwake c → IsAwake d
keeps_IsAwake (start c) h = h
keeps_IsAwake (next r s) h = Step-IsAwake s (keeps_IsAwake r h)

Step-queue {ℓ} :
    {A : Type ℓ} {c d : Channel A} {ins outs : List A}
    → Step c ins outs d
    → outs ++ d.queue ≡ c.queue ++ ins
unfolding put_locked put_send receive get
Step-queue (puts c v) = refl
Step-queue (sends c p) = sym (append-nil c.queue)
Step-queue (receives c p) = sym (append-nil c.queue)
Step-queue (gets c p) = refl
Step-queue (polls c) = refl

keeps_order {ℓ} :
    {A : Type ℓ} {c d : Channel A} {ins outs : List A}
    → Run c ins outs d
    → outs ++ d.queue ≡ c.queue ++ ins
keeps_order (start c) = sym (append-nil c.queue)
keeps_order (next {c} {d} {e} {ins} {outs} {more} {handed} r s) =
    append_assoc outs handed e.queue
    ∙ (ap (◌++◌ outs) (Step-queue s)
        ∙ (sym (append_assoc outs d.queue more)
            ∙ (ap (λ xs. xs ++ more) (keeps_order r) ∙ append_assoc c.queue ins more)))

-- In every interleaving of the steps of any number of writers and readers, from a new channel, no
-- wake-up is lost: while the queue holds an element, a token is in the channel, or will be sent by
-- a `Put` in progress, or a reader that took one is about to call `Get`.
pub Run-IsAwake {ℓ} :
    {A : Type ℓ} {c : Channel A} {ins outs : List A} → Run new ins outs c → IsAwake c
unfolding new
Run-IsAwake r = keeps_IsAwake r (inl refl)

-- What was handed out, followed by the queue, is what was put in, in the same order.
pub Run-queue {ℓ} :
    {A : Type ℓ} {c : Channel A} {ins outs : List A} → Run new ins outs c → outs ++ c.queue ≡ ins
unfolding new
Run-queue r = keeps_order r
