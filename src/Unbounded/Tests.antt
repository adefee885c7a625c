-- ===== src/Unbounded/Tests.antt =====
-- The theorems about unbounded/unbounded.go at a run of two writers and a reader.
use galene.Base.{ℕ, ◌≡◌, refl, false, List, [], ◌∷◌, ◌++◌, arith}
use galene.Unbounded.{
  Channel, new, put_locked, put_send, receive, get, puts, sends, receives, gets, Run, start, next,
}
use galene.Unbounded.Wakeup.{IsAwake, Run-IsAwake, Run-queue}

-- Two elements are put in before the first writer sends; the reader is woken and takes both; a
-- third element comes in.
abbrev last : Channel ℕ
last = record { queue = 3 ∷ []; ch = false; sending = 1; woken = 0 }

history : Run new (1 ∷ 2 ∷ 3 ∷ []) (1 ∷ 2 ∷ []) last
unfolding new put_locked put_send receive get
history =
    next
      (next
        (next (next (next (next (start new) (puts _ 1)) (puts _ 2)) (sends _ (omega arith)))
          (receives _ refl))
        (gets _ (omega arith)))
      (puts _ 3)

Run-IsAwake_example : IsAwake last
Run-IsAwake_example = Run-IsAwake history

abbrev put_in : List ℕ
put_in = 1 ∷ 2 ∷ 3 ∷ []

abbrev handed_out : List ℕ
handed_out = 1 ∷ 2 ∷ []

Run-queue_example : handed_out ++ last.queue ≡ put_in
Run-queue_example = Run-queue history
