-- ===== src/Domain/Errors.antt =====
-- internal/core/domain/errors.go, and the error values that the packages return beside them.
use dbbridge.Base.{String}

pub data Error : Type 0 where
  -- `DrainingError`
  draining_error : Error
  -- `ValidationError`: the field and the reason
  validation_error : String → String → Error
  -- `NotFoundError`: the resource and its id
  not_found_error : String → String → Error
  -- `UnavailableError`
  unavailable_error : String → Error
  -- `ResourceExhaustedError`
  resource_exhausted_error : String → Error
  -- `state.ErrNotFound`
  record_missing : Error
  -- `fmt.Errorf("text: %w", err)`
  wrapped_error : String → Error → Error
  -- any other error, by its text
  failure : String → Error
