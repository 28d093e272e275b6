-- ===== src/Limits/Examples.antt =====
-- Tests of the limits.
use minicore_runtime.Base.{◌≡◌, refl, ok, err}
use minicore_runtime.Limits.{validate, default_limits, invalid_bounds}

default_is_valid : validate default_limits ≡ ok tt
unfolding validate
default_is_valid = refl

zero_is_refused :
    validate (record default_limits { max_tool_output_bytes = 0 }) ≡ err invalid_bounds
unfolding validate
zero_is_refused = refl
