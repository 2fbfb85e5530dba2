-- ===== src/Application/Errors.antt =====
-- internal/application/errors.go, and `error` values. An error of this program wraps at most one
-- of the sentinels, so `errors.Is` is a test of the kind.
use review_workflow.Base.{Bool, true, false, String, ◌<>◌}

pub data Kind : Type 0 where
  invalid_input unauthorized forbidden not_found conflict idempotency_key_used other : Kind

pub record Error : Type 0 where
  pub kind : Kind
  pub message : String

abbrev pub err_invalid_input : Error
err_invalid_input = record { kind = invalid_input; message = "invalid input" }

abbrev pub err_unauthorized : Error
err_unauthorized = record { kind = unauthorized; message = "unauthorized" }

abbrev pub err_forbidden : Error
err_forbidden = record { kind = forbidden; message = "forbidden" }

abbrev pub err_not_found : Error
err_not_found = record { kind = not_found; message = "not found" }

abbrev pub err_conflict : Error
err_conflict = record { kind = conflict; message = "conflict" }

abbrev pub err_idempotency_key_used : Error
err_idempotency_key_used = record {
  kind = idempotency_key_used;
  message = "idempotency key already used with different payload";
}

-- `fmt.Errorf("%w: ...", e)`
abbrev pub wrap : Error → String → Error
wrap e text = record { kind = e.kind; message = (e.message <> ": ") <> text }

-- `errors.Is(err, ErrNotFound)`, and so on.
abbrev pub is_not_found : Kind → Bool
is_not_found not_found = true
is_not_found _ = false

abbrev pub is_conflict : Kind → Bool
is_conflict conflict = true
is_conflict _ = false

-- The pair of a value and an `error`, of which callers read one.
pub data Result (A : Type 0) : Type 0 where
  ok : A → Result A
  err : Error → Result A
