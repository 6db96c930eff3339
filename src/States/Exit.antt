-- ===== src/States/Exit.antt =====
-- `classify_exit` against the two machines and the table in its docstring.
use Prim.Native.Nat.{◌+◌, ◌-◌}
use robot_army.Base.{ℕ, ◌<◌, ℤ, pos, ◌≡◌, some, true, arith}
use robot_army.States.{
  running, active, interrupted, exited_error, is_legal_work_item_transition,
  is_legal_session_transition, classify_exit,
}

-- Whatever the exit status, both states that it is classified into may be entered from a running
-- session and an active item.
pub classify_exit_legal :
    (exit_code : ℤ)
    → (is_legal_session_transition running (classify_exit exit_code).0 ≡ true)
      × (is_legal_work_item_transition active (classify_exit exit_code).1 ≡ true)
unfolding classify_exit is_legal_session_transition is_legal_work_item_transition
classify_exit_legal exit_code = ground arith

-- A status 128 + k with 0 < k < 64 interrupts the item and names the signal k.
pub classify_exit_signal :
    (k : ℕ)
    → 0 < k
    → k < 64
    → classify_exit (pos (128 + k)) ≡ (exited_error, interrupted, some (pos k))
unfolding classify_exit
classify_exit_signal k lo hi = ground arith

-- An exit whose item is classified as interrupted had the status 128 + k for a k with 0 < k < 64.
pub interrupted_by_signal :
    (exit_code : ℤ)
    → (classify_exit exit_code).1 ≡ interrupted
    → (k : ℕ) × (0 < k) × (k < 64) × (exit_code ≡ pos (128 + k))
unfolding classify_exit
interrupted_by_signal (pos n) h = (n - 128, ground arith, ground arith, ground arith)
interrupted_by_signal z h = absurd (ground arith)
