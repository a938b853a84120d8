-- ===== src/Filter/Tests.antt =====
-- The filter at concrete exceptions.
use backend_boilerplate.Base.{http, none, refl, ◌≡◌}
use backend_boilerplate.Filter.{not_found, known, catch_exception, thrown}

filter_tests :
    ((catch_exception (thrown (http 404 "User not found")) none).code ≡ known not_found)
    × ((catch_exception (thrown (http 404 "User not found")) none).message ≡ "User not found")
unfolding catch_exception
filter_tests = (refl, refl)
