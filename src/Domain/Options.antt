-- ===== src/Domain/Options.antt =====
-- What `QueryOptions.Validate` accepts.
use dbbridge.Base.{◌≡◌, ◌↔◌, ok, arith, contains_iff, Member}
use dbbridge.Base.Int.{pos, ◌≤ℤ◌}
use dbbridge.Domain.{QueryOptions, validate, valid_modes, valid_result_formats}

-- The options that a query may run with.
pub record IsAcceptable (o : QueryOptions) : Type 0 where
  pub mode_known : Member o.mode valid_modes
  pub format_known : Member o.result_format valid_result_formats
  pub timeout_nonneg : pos 0 ≤ℤ o.timeout
  pub ttl_nonneg : pos 0 ≤ℤ o.result_ttl

-- `Validate` returns no error exactly for a known mode, a format that the encoder can produce, a
-- timeout that is not negative and a retention that is not negative.
pub validate_iff : (o : QueryOptions) → (validate o ≡ ok tt) ↔ IsAcceptable o
unfolding validate
validate_iff o =
    ground
      (arith, contains_iff o.mode valid_modes, contains_iff o.result_format valid_result_formats)
