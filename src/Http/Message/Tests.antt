-- ===== src/Http/Message/Tests.antt =====
-- A flag set with the value false is raised all the same.
use itex_demo.Base.{◌≡◌, refl, true, false}
use itex_demo.Http.Message.{f_chunked, no_flags, get_flag, set_flag}

chunked_false : get_flag f_chunked (set_flag f_chunked false no_flags) ≡ true
unfolding get_flag set_flag
chunked_false = refl
