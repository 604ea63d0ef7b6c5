-- ===== src/Http/Constants/Tables.antt =====
-- The tables of constants.hpp agree with one another.
use itex_demo.Base.{
  ℕ, ◌+◌, ◌≡◌, refl, ap, ◌∙◌, sym, ◌≢◌, ◌⊎◌, inl, inr, ◌/◌, ◌%◌, some, List, [], ◌∷◌, get_or,
}
use itex_demo.Base.Text.{Text, text}
use itex_demo.Http.Constants.{
  Method, method_index, StatusCode, num_to_status_code, status_code_of, status_text,
}

-- The enumerators of `Method` in order.
abbrev methods : List Method
methods =
    Method.unknown ∷ Method.delete ∷ Method.get ∷ Method.head ∷ Method.post ∷ Method.put
    ∷ Method.connect ∷ Method.options ∷ Method.trace ∷ Method.copy ∷ Method.lock ∷ Method.mkcol
    ∷ Method.move ∷ Method.propfind ∷ Method.proppatch ∷ Method.m_search ∷ Method.unlock
    ∷ Method.report ∷ Method.mkactivity ∷ Method.checkout ∷ Method.merge ∷ Method.msearch
    ∷ Method.notify ∷ Method.subscribe ∷ Method.unsubscribe ∷ Method.patch ∷ Method.purge ∷ []

method_at : (m : Method) → get_or methods (method_index m) Method.unknown ≡ m
unfolding method_index
method_at Method.unknown = refl
method_at Method.delete = refl
method_at Method.get = refl
method_at Method.head = refl
method_at Method.post = refl
method_at Method.put = refl
method_at Method.connect = refl
method_at Method.options = refl
method_at Method.trace = refl
method_at Method.copy = refl
method_at Method.lock = refl
method_at Method.mkcol = refl
method_at Method.move = refl
method_at Method.propfind = refl
method_at Method.proppatch = refl
method_at Method.m_search = refl
method_at Method.unlock = refl
method_at Method.report = refl
method_at Method.mkactivity = refl
method_at Method.checkout = refl
method_at Method.merge = refl
method_at Method.msearch = refl
method_at Method.notify = refl
method_at Method.subscribe = refl
method_at Method.unsubscribe = refl
method_at Method.patch = refl
method_at Method.purge = refl

-- Two methods with one index are one method, so a handler table keyed by the index is keyed by the
-- method.
pub method_index-injective : (m n : Method) → method_index m ≡ method_index n → m ≡ n
method_index-injective m n e =
    sym (method_at m) ∙ ap (λ i. get_or methods i Method.unknown) e ∙ method_at n

-- The number of a code, as its enumerator spells it; none for `UNKNOWN`.
abbrev pub number : StatusCode → ℕ
number StatusCode.no_code = 0
number StatusCode.code_100_continue = 100
number StatusCode.code_101_switching_protocols = 101
number StatusCode.code_102_processing = 102
number StatusCode.code_200_ok = 200
number StatusCode.code_201_created = 201
number StatusCode.code_202_accepted = 202
number StatusCode.code_203_non_authoritative_information = 203
number StatusCode.code_204_no_content = 204
number StatusCode.code_205_reset_content = 205
number StatusCode.code_206_partial_content = 206
number StatusCode.code_207_multi_status = 207
number StatusCode.code_208_already_reported = 208
number StatusCode.code_226_im_used = 226
number StatusCode.code_300_multiple_choices = 300
number StatusCode.code_301_moved_permanently = 301
number StatusCode.code_302_found = 302
number StatusCode.code_303_see_other = 303
number StatusCode.code_304_not_modified = 304
number StatusCode.code_305_use_proxy = 305
number StatusCode.code_307_temporary_redirect = 307
number StatusCode.code_308_permanent_redirect = 308
number StatusCode.code_400_bad_request = 400
number StatusCode.code_401_unauthorized = 401
number StatusCode.code_402_payment_required = 402
number StatusCode.code_403_forbidden = 403
number StatusCode.code_404_not_found = 404
number StatusCode.code_405_method_not_allowed = 405
number StatusCode.code_406_not_acceptable = 406
number StatusCode.code_407_proxy_authentication_required = 407
number StatusCode.code_408_request_timeout = 408
number StatusCode.code_409_conflict = 409
number StatusCode.code_410_gone = 410
number StatusCode.code_411_length_required = 411
number StatusCode.code_412_precondition_failed = 412
number StatusCode.code_413_payload_too_large = 413
number StatusCode.code_414_uri_too_long = 414
number StatusCode.code_415_unsupported_media_type = 415
number StatusCode.code_416_range_not_satisfiable = 416
number StatusCode.code_417_expectation_failed = 417
number StatusCode.code_422_uprocessable_entity = 422
number StatusCode.code_423_locked = 423
number StatusCode.code_424_failed_dependency = 424
number StatusCode.code_426_upgrade_required = 426
number StatusCode.code_428_precondition_required = 428
number StatusCode.code_429_too_many_requests = 429
number StatusCode.code_431_request_header_fields_too_large = 431
number StatusCode.code_500_internal_server_error = 500
number StatusCode.code_501_not_implemented = 501
number StatusCode.code_502_bad_gateway = 502
number StatusCode.code_503_service_unavailable = 503
number StatusCode.code_504_gateway_timeout = 504
number StatusCode.code_505_http_version_not_supported = 505
number StatusCode.code_506_variant_also_negotiates = 506
number StatusCode.code_507_insufficient_storage = 507
number StatusCode.code_508_loop_detected = 508
number StatusCode.code_510_not_extended = 510
number StatusCode.code_511_network_authentication_required = 511

-- A status line's text starts with these three digits and a space.
abbrev pub digits : ℕ → Text → Text
digits n rest = (48 + n / 100) ∷ (48 + n / 10 % 10) ∷ (48 + n % 10) ∷ 32 ∷ rest

abbrev pub Known : StatusCode → Type 0
Known code =
    (status_code_of (number code) num_to_status_code ≡ some code)
    × ((reason : Text) × (status_text code ≡ some (digits (number code) reason)))

known : (code : StatusCode) → (code ≡ StatusCode.no_code) ⊎ Known code
unfolding status_code_of status_text
known StatusCode.no_code = inl refl
known StatusCode.code_100_continue = inr (refl, (text "Continue", refl))
known StatusCode.code_101_switching_protocols = inr (refl, (text "Switching Protocols", refl))
known StatusCode.code_102_processing = inr (refl, (text "Processing", refl))
known StatusCode.code_200_ok = inr (refl, (text "OK", refl))
known StatusCode.code_201_created = inr (refl, (text "Created", refl))
known StatusCode.code_202_accepted = inr (refl, (text "Accepted", refl))
known StatusCode.code_203_non_authoritative_information =
    inr (refl, (text "Non-Authoritative Information", refl))
known StatusCode.code_204_no_content = inr (refl, (text "No Content", refl))
known StatusCode.code_205_reset_content = inr (refl, (text "Reset Content", refl))
known StatusCode.code_206_partial_content = inr (refl, (text "Partial Content", refl))
known StatusCode.code_207_multi_status = inr (refl, (text "Multi-Status", refl))
known StatusCode.code_208_already_reported = inr (refl, (text "Already Reported", refl))
known StatusCode.code_226_im_used = inr (refl, (text "IM Used", refl))
known StatusCode.code_300_multiple_choices = inr (refl, (text "Multiple Choices", refl))
known StatusCode.code_301_moved_permanently = inr (refl, (text "Moved Permanently", refl))
known StatusCode.code_302_found = inr (refl, (text "Found", refl))
known StatusCode.code_303_see_other = inr (refl, (text "See Other", refl))
known StatusCode.code_304_not_modified = inr (refl, (text "Not Modified", refl))
known StatusCode.code_305_use_proxy = inr (refl, (text "Use Proxy", refl))
known StatusCode.code_307_temporary_redirect = inr (refl, (text "Temporary Redirect", refl))
known StatusCode.code_308_permanent_redirect = inr (refl, (text "Permanent Redirect", refl))
known StatusCode.code_400_bad_request = inr (refl, (text "Bad Request", refl))
known StatusCode.code_401_unauthorized = inr (refl, (text "Unauthorized", refl))
known StatusCode.code_402_payment_required = inr (refl, (text "Payment Required", refl))
known StatusCode.code_403_forbidden = inr (refl, (text "Forbidden", refl))
known StatusCode.code_404_not_found = inr (refl, (text "Not Found", refl))
known StatusCode.code_405_method_not_allowed = inr (refl, (text "Method Not Allowed", refl))
known StatusCode.code_406_not_acceptable = inr (refl, (text "Not Acceptable", refl))
known StatusCode.code_407_proxy_authentication_required =
    inr (refl, (text "Proxy Authentication Required", refl))
known StatusCode.code_408_request_timeout = inr (refl, (text "Request Timeout", refl))
known StatusCode.code_409_conflict = inr (refl, (text "Conflict", refl))
known StatusCode.code_410_gone = inr (refl, (text "Gone", refl))
known StatusCode.code_411_length_required = inr (refl, (text "Length Required", refl))
known StatusCode.code_412_precondition_failed = inr (refl, (text "Precondition Failed", refl))
known StatusCode.code_413_payload_too_large = inr (refl, (text "Payload Too Large", refl))
known StatusCode.code_414_uri_too_long = inr (refl, (text "URI Too Long", refl))
known StatusCode.code_415_unsupported_media_type = inr (refl, (text "Unsupported Media Type", refl))
known StatusCode.code_416_range_not_satisfiable = inr (refl, (text "Range Not Satisfiable", refl))
known StatusCode.code_417_expectation_failed = inr (refl, (text "Expectation Failed", refl))
known StatusCode.code_422_uprocessable_entity = inr (refl, (text "Unprocessable Entity", refl))
known StatusCode.code_423_locked = inr (refl, (text "Locked", refl))
known StatusCode.code_424_failed_dependency = inr (refl, (text "Failed Dependency", refl))
known StatusCode.code_426_upgrade_required = inr (refl, (text "Upgrade Required", refl))
known StatusCode.code_428_precondition_required = inr (refl, (text "Precondition Required", refl))
known StatusCode.code_429_too_many_requests = inr (refl, (text "Too Many Requests", refl))
known StatusCode.code_431_request_header_fields_too_large =
    inr (refl, (text "Request Header Fields Too Large", refl))
known StatusCode.code_500_internal_server_error = inr (refl, (text "Internal Server Error", refl))
known StatusCode.code_501_not_implemented = inr (refl, (text "Not Implemented", refl))
known StatusCode.code_502_bad_gateway = inr (refl, (text "Bad Gateway", refl))
known StatusCode.code_503_service_unavailable = inr (refl, (text "Service Unavailable", refl))
known StatusCode.code_504_gateway_timeout = inr (refl, (text "Gateway Timeout", refl))
known StatusCode.code_505_http_version_not_supported =
    inr (refl, (text "HTTP Version Not Supported", refl))
known StatusCode.code_506_variant_also_negotiates =
    inr (refl, (text "Variant Also Negotiates", refl))
known StatusCode.code_507_insufficient_storage = inr (refl, (text "Insufficient Storage", refl))
known StatusCode.code_508_loop_detected = inr (refl, (text "Loop Detected", refl))
known StatusCode.code_510_not_extended = inr (refl, (text "Not Extended", refl))
known StatusCode.code_511_network_authentication_required =
    inr (refl, (text "Network Authentication Required", refl))

-- Every code but `UNKNOWN` is what its number is read as, and is written as a text that starts with
-- that number and a space.
pub status_tables : (code : StatusCode) → code ≢ StatusCode.no_code → Known code
status_tables code h = elim (known code) [ inl e ↦ absurd (h e) | inr k ↦ k ]
