-- ===== src/Http/Constants.antt =====
-- platform/http/include/http/constants.hpp: the HTTP methods and status codes that the program
-- knows, and the tables between them, their numbers and their texts. `http_method`, an enum of the
-- http_parser library, is read by its enumerators, which the source names.
pub mod Tables
mod Tests
use itex_demo.Base.{ℕ, Bool, true, false, Option, none, some, List, [], ◌∷◌, ◌==◌, if◌then◌else◌}
use itex_demo.Base.Text.{Text, text}

-- `enum class Method`; the enumerator `SEARCH` is spelled `m_search`.
pub data Method : Type 0 where
  unknown delete get head post put connect options trace copy lock mkcol move propfind : Method
  proppatch m_search unlock report mkactivity checkout merge msearch notify subscribe : Method
  unsubscribe patch purge : Method

-- `static_cast<size_t>(method)`
unfoldable pub method_index : Method → ℕ
method_index unknown = 0
method_index delete = 1
method_index get = 2
method_index head = 3
method_index post = 4
method_index put = 5
method_index connect = 6
method_index options = 7
method_index trace = 8
method_index copy = 9
method_index lock = 10
method_index mkcol = 11
method_index move = 12
method_index propfind = 13
method_index proppatch = 14
method_index m_search = 15
method_index unlock = 16
method_index report = 17
method_index mkactivity = 18
method_index checkout = 19
method_index merge = 20
method_index msearch = 21
method_index notify = 22
method_index subscribe = 23
method_index unsubscribe = 24
method_index patch = 25
method_index purge = 26

-- `enum class StatusCode`; `UNKNOWN` is spelled `no_code`.
pub data StatusCode : Type 0 where
  no_code code_100_continue code_101_switching_protocols code_102_processing code_200_ok :
      StatusCode
  code_201_created code_202_accepted code_203_non_authoritative_information code_204_no_content :
      StatusCode
  code_205_reset_content code_206_partial_content code_207_multi_status : StatusCode
  code_208_already_reported code_226_im_used code_300_multiple_choices : StatusCode
  code_301_moved_permanently code_302_found code_303_see_other code_304_not_modified : StatusCode
  code_305_use_proxy code_307_temporary_redirect code_308_permanent_redirect : StatusCode
  code_400_bad_request code_401_unauthorized code_402_payment_required code_403_forbidden :
      StatusCode
  code_404_not_found code_405_method_not_allowed code_406_not_acceptable : StatusCode
  code_407_proxy_authentication_required code_408_request_timeout code_409_conflict : StatusCode
  code_410_gone code_411_length_required code_412_precondition_failed : StatusCode
  code_413_payload_too_large code_414_uri_too_long code_415_unsupported_media_type : StatusCode
  code_416_range_not_satisfiable code_417_expectation_failed code_422_uprocessable_entity :
      StatusCode
  code_423_locked code_424_failed_dependency code_426_upgrade_required : StatusCode
  code_428_precondition_required code_429_too_many_requests : StatusCode
  code_431_request_header_fields_too_large code_500_internal_server_error : StatusCode
  code_501_not_implemented code_502_bad_gateway code_503_service_unavailable : StatusCode
  code_504_gateway_timeout code_505_http_version_not_supported code_506_variant_also_negotiates :
      StatusCode
  code_507_insufficient_storage code_508_loop_detected code_510_not_extended : StatusCode
  code_511_network_authentication_required : StatusCode

-- `num_to_status_code`
abbrev pub num_to_status_code : List (ℕ × StatusCode)
num_to_status_code =
    (100, code_100_continue)
    ∷ (101, code_101_switching_protocols)
    ∷ (102, code_102_processing)
    ∷ (200, code_200_ok)
    ∷ (201, code_201_created)
    ∷ (202, code_202_accepted)
    ∷ (203, code_203_non_authoritative_information)
    ∷ (204, code_204_no_content)
    ∷ (205, code_205_reset_content)
    ∷ (206, code_206_partial_content)
    ∷ (207, code_207_multi_status)
    ∷ (208, code_208_already_reported)
    ∷ (226, code_226_im_used)
    ∷ (300, code_300_multiple_choices)
    ∷ (301, code_301_moved_permanently)
    ∷ (302, code_302_found)
    ∷ (303, code_303_see_other)
    ∷ (304, code_304_not_modified)
    ∷ (305, code_305_use_proxy)
    ∷ (307, code_307_temporary_redirect)
    ∷ (308, code_308_permanent_redirect)
    ∷ (400, code_400_bad_request)
    ∷ (401, code_401_unauthorized)
    ∷ (402, code_402_payment_required)
    ∷ (403, code_403_forbidden)
    ∷ (404, code_404_not_found)
    ∷ (405, code_405_method_not_allowed)
    ∷ (406, code_406_not_acceptable)
    ∷ (407, code_407_proxy_authentication_required)
    ∷ (408, code_408_request_timeout)
    ∷ (409, code_409_conflict)
    ∷ (410, code_410_gone)
    ∷ (411, code_411_length_required)
    ∷ (412, code_412_precondition_failed)
    ∷ (413, code_413_payload_too_large)
    ∷ (414, code_414_uri_too_long)
    ∷ (415, code_415_unsupported_media_type)
    ∷ (416, code_416_range_not_satisfiable)
    ∷ (417, code_417_expectation_failed)
    ∷ (422, code_422_uprocessable_entity)
    ∷ (423, code_423_locked)
    ∷ (424, code_424_failed_dependency)
    ∷ (426, code_426_upgrade_required)
    ∷ (428, code_428_precondition_required)
    ∷ (429, code_429_too_many_requests)
    ∷ (431, code_431_request_header_fields_too_large)
    ∷ (500, code_500_internal_server_error)
    ∷ (501, code_501_not_implemented)
    ∷ (502, code_502_bad_gateway)
    ∷ (503, code_503_service_unavailable)
    ∷ (504, code_504_gateway_timeout)
    ∷ (505, code_505_http_version_not_supported)
    ∷ (506, code_506_variant_also_negotiates)
    ∷ (507, code_507_insufficient_storage)
    ∷ (508, code_508_loop_detected)
    ∷ (510, code_510_not_extended)
    ∷ (511, code_511_network_authentication_required)
    ∷ []

-- `num_to_status_code.at(num)`: `none` is `std::out_of_range`.
unfoldable pub status_code_of : ℕ → List (ℕ × StatusCode) → Option StatusCode
status_code_of num [] = none
status_code_of num ((n, code) ∷ rest) = if n == num then some code else status_code_of num rest

-- `status_code_to_sting.at(code)`: `none` is `std::out_of_range`.
unfoldable pub status_text : StatusCode → Option Text
status_text no_code = none
status_text code_100_continue = some (text "100 Continue")
status_text code_101_switching_protocols = some (text "101 Switching Protocols")
status_text code_102_processing = some (text "102 Processing")
status_text code_200_ok = some (text "200 OK")
status_text code_201_created = some (text "201 Created")
status_text code_202_accepted = some (text "202 Accepted")
status_text code_203_non_authoritative_information = some (text "203 Non-Authoritative Information")
status_text code_204_no_content = some (text "204 No Content")
status_text code_205_reset_content = some (text "205 Reset Content")
status_text code_206_partial_content = some (text "206 Partial Content")
status_text code_207_multi_status = some (text "207 Multi-Status")
status_text code_208_already_reported = some (text "208 Already Reported")
status_text code_226_im_used = some (text "226 IM Used")
status_text code_300_multiple_choices = some (text "300 Multiple Choices")
status_text code_301_moved_permanently = some (text "301 Moved Permanently")
status_text code_302_found = some (text "302 Found")
status_text code_303_see_other = some (text "303 See Other")
status_text code_304_not_modified = some (text "304 Not Modified")
status_text code_305_use_proxy = some (text "305 Use Proxy")
status_text code_307_temporary_redirect = some (text "307 Temporary Redirect")
status_text code_308_permanent_redirect = some (text "308 Permanent Redirect")
status_text code_400_bad_request = some (text "400 Bad Request")
status_text code_401_unauthorized = some (text "401 Unauthorized")
status_text code_402_payment_required = some (text "402 Payment Required")
status_text code_403_forbidden = some (text "403 Forbidden")
status_text code_404_not_found = some (text "404 Not Found")
status_text code_405_method_not_allowed = some (text "405 Method Not Allowed")
status_text code_406_not_acceptable = some (text "406 Not Acceptable")
status_text code_407_proxy_authentication_required = some (text "407 Proxy Authentication Required")
status_text code_408_request_timeout = some (text "408 Request Timeout")
status_text code_409_conflict = some (text "409 Conflict")
status_text code_410_gone = some (text "410 Gone")
status_text code_411_length_required = some (text "411 Length Required")
status_text code_412_precondition_failed = some (text "412 Precondition Failed")
status_text code_413_payload_too_large = some (text "413 Payload Too Large")
status_text code_414_uri_too_long = some (text "414 URI Too Long")
status_text code_415_unsupported_media_type = some (text "415 Unsupported Media Type")
status_text code_416_range_not_satisfiable = some (text "416 Range Not Satisfiable")
status_text code_417_expectation_failed = some (text "417 Expectation Failed")
status_text code_422_uprocessable_entity = some (text "422 Unprocessable Entity")
status_text code_423_locked = some (text "423 Locked")
status_text code_424_failed_dependency = some (text "424 Failed Dependency")
status_text code_426_upgrade_required = some (text "426 Upgrade Required")
status_text code_428_precondition_required = some (text "428 Precondition Required")
status_text code_429_too_many_requests = some (text "429 Too Many Requests")
status_text code_431_request_header_fields_too_large =
    some (text "431 Request Header Fields Too Large")
status_text code_500_internal_server_error = some (text "500 Internal Server Error")
status_text code_501_not_implemented = some (text "501 Not Implemented")
status_text code_502_bad_gateway = some (text "502 Bad Gateway")
status_text code_503_service_unavailable = some (text "503 Service Unavailable")
status_text code_504_gateway_timeout = some (text "504 Gateway Timeout")
status_text code_505_http_version_not_supported = some (text "505 HTTP Version Not Supported")
status_text code_506_variant_also_negotiates = some (text "506 Variant Also Negotiates")
status_text code_507_insufficient_storage = some (text "507 Insufficient Storage")
status_text code_508_loop_detected = some (text "508 Loop Detected")
status_text code_510_not_extended = some (text "510 Not Extended")
status_text code_511_network_authentication_required =
    some (text "511 Network Authentication Required")
