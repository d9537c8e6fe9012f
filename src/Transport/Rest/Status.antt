-- ===== src/Transport/Rest/Status.antt =====
-- internal/transport/rest/errors.go: the status and the message of an error.
use Prim.Native.String.{◌++◌ as str_append}
use dbbridge.Base.{ℕ, String, Option, none, some}
use dbbridge.Domain.{
  Error, draining_error, validation_error, not_found_error, unavailable_error,
  resource_exhausted_error, record_missing, wrapped_error, failure,
}

-- The error at the end of a chain of `%w`, which `errors.AsType` and `errors.Is` look for.
abbrev pub cause : Error → Error
cause (wrapped_error text e) = cause e
cause draining_error = draining_error
cause (validation_error field reason) = validation_error field reason
cause (not_found_error resource id) = not_found_error resource id
cause (unavailable_error resource) = unavailable_error resource
cause (resource_exhausted_error reason) = resource_exhausted_error reason
cause record_missing = record_missing
cause (failure text) = failure text

-- The methods `Error`.
unfoldable pub error_text : Error → String
error_text draining_error = "service is draining: new queries are not accepted"
error_text (validation_error field reason) =
    str_append "invalid " (str_append field (str_append ": " reason))
error_text (not_found_error resource id) =
    str_append resource (str_append " " (str_append id " not found"))
error_text (unavailable_error resource) = str_append resource " is unreachable"
error_text (resource_exhausted_error reason) = str_append "resource exhausted: " reason
error_text record_missing = "query not found"
error_text (wrapped_error text e) = str_append text (str_append ": " (error_text e))
error_text (failure text) = text

-- The cases of the `switch` below `err == nil`.
abbrev pub status_of : Error → String → ℕ × String
status_of (validation_error field reason) text = (400, text)
status_of (not_found_error resource id) text = (404, "not found")
status_of record_missing text = (404, "not found")
status_of draining_error text = (503, text)
status_of (unavailable_error resource) text = (503, text)
status_of (resource_exhausted_error reason) text = (429, text)
status_of (failure t) text = (500, "internal error")
status_of (wrapped_error t e) text = (500, "internal error")

unfoldable pub classify : Option Error → ℕ × String
unfolding error_text
classify none = (200, "")
classify (some e) = status_of (cause e) (error_text e)
