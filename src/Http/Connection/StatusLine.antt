-- ===== src/Http/Connection/StatusLine.antt =====
-- The status texts of platform/http/include/http/constants.hpp, as connection.cpp writes them.
use itex_demo.Base.{some-injective, refl, subst, some, true, ◌≡◌}
use itex_demo.Http.Connection.Reading.{without}
use itex_demo.Http.Connection.{Text}
use itex_demo.Http.Constants.{
  status_text, StatusCode, no_code, code_100_continue, code_101_switching_protocols,
  code_102_processing, code_200_ok, code_201_created, code_202_accepted,
  code_203_non_authoritative_information, code_204_no_content, code_205_reset_content,
  code_206_partial_content, code_207_multi_status, code_208_already_reported, code_226_im_used,
  code_300_multiple_choices, code_301_moved_permanently, code_302_found, code_303_see_other,
  code_304_not_modified, code_305_use_proxy, code_307_temporary_redirect,
  code_308_permanent_redirect, code_400_bad_request, code_401_unauthorized,
  code_402_payment_required, code_403_forbidden, code_404_not_found, code_405_method_not_allowed,
  code_406_not_acceptable, code_407_proxy_authentication_required, code_408_request_timeout,
  code_409_conflict, code_410_gone, code_411_length_required, code_412_precondition_failed,
  code_413_payload_too_large, code_414_uri_too_long, code_415_unsupported_media_type,
  code_416_range_not_satisfiable, code_417_expectation_failed, code_422_uprocessable_entity,
  code_423_locked, code_424_failed_dependency, code_426_upgrade_required,
  code_428_precondition_required, code_429_too_many_requests,
  code_431_request_header_fields_too_large, code_511_network_authentication_required,
  code_500_internal_server_error, code_501_not_implemented, code_502_bad_gateway,
  code_503_service_unavailable, code_504_gateway_timeout, code_505_http_version_not_supported,
  code_506_variant_also_negotiates, code_507_insufficient_storage, code_508_loop_detected,
  code_510_not_extended,
}

plain : (s t : Text) → without 13 s ≡ true → some s ≡ some t → without 13 t ≡ true
plain s t h e = subst (λ u. without 13 u ≡ true) (some-injective _ _ e) h

-- A status text stands on one line.
pub status_line : (code : StatusCode) (t : Text) → status_text code ≡ some t → without 13 t ≡ true
unfolding status_text without
status_line no_code t e = cc
status_line code_100_continue t e = plain _ t refl e
status_line code_101_switching_protocols t e = plain _ t refl e
status_line code_102_processing t e = plain _ t refl e
status_line code_200_ok t e = plain _ t refl e
status_line code_201_created t e = plain _ t refl e
status_line code_202_accepted t e = plain _ t refl e
status_line code_203_non_authoritative_information t e = plain _ t refl e
status_line code_204_no_content t e = plain _ t refl e
status_line code_205_reset_content t e = plain _ t refl e
status_line code_206_partial_content t e = plain _ t refl e
status_line code_207_multi_status t e = plain _ t refl e
status_line code_208_already_reported t e = plain _ t refl e
status_line code_226_im_used t e = plain _ t refl e
status_line code_300_multiple_choices t e = plain _ t refl e
status_line code_301_moved_permanently t e = plain _ t refl e
status_line code_302_found t e = plain _ t refl e
status_line code_303_see_other t e = plain _ t refl e
status_line code_304_not_modified t e = plain _ t refl e
status_line code_305_use_proxy t e = plain _ t refl e
status_line code_307_temporary_redirect t e = plain _ t refl e
status_line code_308_permanent_redirect t e = plain _ t refl e
status_line code_400_bad_request t e = plain _ t refl e
status_line code_401_unauthorized t e = plain _ t refl e
status_line code_402_payment_required t e = plain _ t refl e
status_line code_403_forbidden t e = plain _ t refl e
status_line code_404_not_found t e = plain _ t refl e
status_line code_405_method_not_allowed t e = plain _ t refl e
status_line code_406_not_acceptable t e = plain _ t refl e
status_line code_407_proxy_authentication_required t e = plain _ t refl e
status_line code_408_request_timeout t e = plain _ t refl e
status_line code_409_conflict t e = plain _ t refl e
status_line code_410_gone t e = plain _ t refl e
status_line code_411_length_required t e = plain _ t refl e
status_line code_412_precondition_failed t e = plain _ t refl e
status_line code_413_payload_too_large t e = plain _ t refl e
status_line code_414_uri_too_long t e = plain _ t refl e
status_line code_415_unsupported_media_type t e = plain _ t refl e
status_line code_416_range_not_satisfiable t e = plain _ t refl e
status_line code_417_expectation_failed t e = plain _ t refl e
status_line code_422_uprocessable_entity t e = plain _ t refl e
status_line code_423_locked t e = plain _ t refl e
status_line code_424_failed_dependency t e = plain _ t refl e
status_line code_426_upgrade_required t e = plain _ t refl e
status_line code_428_precondition_required t e = plain _ t refl e
status_line code_429_too_many_requests t e = plain _ t refl e
status_line code_500_internal_server_error t e = plain _ t refl e
status_line code_501_not_implemented t e = plain _ t refl e
status_line code_502_bad_gateway t e = plain _ t refl e
status_line code_503_service_unavailable t e = plain _ t refl e
status_line code_504_gateway_timeout t e = plain _ t refl e
status_line code_505_http_version_not_supported t e = plain _ t refl e
status_line code_506_variant_also_negotiates t e = plain _ t refl e
status_line code_507_insufficient_storage t e = plain _ t refl e
status_line code_508_loop_detected t e = plain _ t refl e
status_line code_510_not_extended t e = plain _ t refl e
status_line code_431_request_header_fields_too_large t e = plain _ t refl e
status_line code_511_network_authentication_required t e = plain _ t refl e
