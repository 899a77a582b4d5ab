-- ===== src/Fuse/Interrupt/Tests.antt =====
-- Two requests in flight, and the theorems on src/fuse/interrupt.rs applied to them.
use jfsfuse.Prelude.{ℕ, ◌≡◌, arith}
use jfsfuse.Fuse.Interrupt.{
  InterruptToken, InterruptManager, new, is_interrupted, register_at, register, interrupt,
}
use jfsfuse.Fuse.Interrupt.Isolation.{Reached, Held, interrupt-is_interrupted}

-- Request 1 is registered, and then request 9.
abbrev one_request : (ℕ × InterruptToken) × InterruptManager
one_request = register new

abbrev two_requests : (ℕ × InterruptToken) × InterruptManager
two_requests = register_at 9 one_request.1

-- the token of request 1 while request 9 is interrupted
interrupt-is_interrupted_example :
    is_interrupted (interrupt 9 two_requests.1).1 one_request.0.1
    ≡ is_interrupted two_requests.1 one_request.0.1
unfolding register register_at
interrupt-is_interrupted_example =
    interrupt-is_interrupted two_requests.1 9 one_request.0.1
      (Held.over_register_at 9 (Held.registered Reached.started) (omega arith))
