-- ===== src/Errors.antt =====
-- errors.go and processor_error.go: the errors of the package, and an operation's result.
use disruptor_go.Prelude.{ℕ, Option, none, some}

-- `cancelled` is what ctx.Err() gives once the context is done. `failed` is an error of the
-- caller's own callback, which is only passed on; `panicked` is the value of a recovered panic.
pub data Error : Type 0 where
  invalid_buffer_size invalid_producer_type invalid_producer_wait_mode : Error
  invalid_claim_size insufficient_capacity : Error
  nil_factory nil_translator nil_handler invalid_batch_size : Error
  alerted closed already_running : Error
  cancelled : Error
  failed : ℕ → Error
  handler_error : (sequence err : ℕ) → Error
  handler_panic_error : (sequence value : ℕ) → Error

-- A value, or an error beside the zero value.
pub data Result {ℓ} (A : Type ℓ) : Type ℓ where
  ok : A → Result A
  err : Error → Result A

-- `Unwrap` of the two handler errors, with what an assertion to an error gives for a panic's value;
-- the other errors wrap none.
unfoldable pub unwrap : (ℕ → Option ℕ) → Error → Option Error
unwrap as_error (handler_error sequence e) = some (failed e)
unwrap as_error (handler_panic_error sequence value) = elim (as_error value) [
  | none ↦ none
  | some e ↦ some (failed e)
]
unwrap as_error _ = none
