-- ===== src/Http/Constants/Tests.antt =====
-- Codes of platform/http/include/http/constants.hpp at enumerators.
use itex_demo.Base.{◌≢◌, arith}
use itex_demo.Http.Constants.{StatusCode}

not_unknown : StatusCode.code_404_not_found ≢ StatusCode.no_code
not_unknown e = ground arith
