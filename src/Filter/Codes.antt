-- ===== src/Filter/Codes.antt =====
-- What clients are told of an exception.
use backend_boilerplate.Base.{
  All, Exception, List, Option, String, [], arith, error, http, refl, ℕ, ◌∷◌, ◌≡◌, ◌≢◌,
}
use backend_boilerplate.Filter.{
  internal_server_error, validation_error, error_message, many, object, http_exception, known,
  validation, catch_exception, thrown,
}

-- The status of an exception that the services throw is kept, and any that is no HTTP exception is
-- a 500 whose own message is shown to the client.
pub catch_exception-thrown :
    (x : Exception) (id : Option String)
    → ((catch_exception (thrown x) id).status ≡ (elim x [ http status m ↦ status | error m ↦ 500 ]))
      × ((catch_exception (thrown x) id).request_id ≡ id)
      × ((m : String) → x ≡ error m → (catch_exception (thrown x) id).message ≡ m)
unfolding catch_exception
catch_exception-thrown (http status m) id = (refl, refl, λ n e. cc)
catch_exception-thrown (error m) id = (refl, refl, λ n e. ground arith)

-- A status that the table does not list, such as 409 of a taken address, is reported under the code
-- of an internal error, although its status is not 500.
pub catch_exception-unlisted :
    (status : ℕ) (message : String) (id : Option String)
    → All (λ n. status ≢ n) (400 ∷ 401 ∷ 403 ∷ 404 ∷ 429 ∷ 503 ∷ [])
    → ((catch_exception (thrown (http status message)) id).code ≡ known internal_server_error)
      × ((catch_exception (thrown (http status message)) id).status ≡ status)
unfolding catch_exception
catch_exception-unlisted status message id h = ground arith

-- A list of failed validations is reported as such, whatever the status: the code and the message
-- are the validation error's, and the details are the list.
pub catch_exception-validation :
    (status : ℕ) (failures : List String) (c d id : Option String)
    → ((catch_exception (http_exception status (object (many failures) c d)) id).code
        ≡ known validation_error)
      × ((catch_exception (http_exception status (object (many failures) c d)) id).message
          ≡ error_message validation_error)
      × ((catch_exception (http_exception status (object (many failures) c d)) id).details
          ≡ validation failures)
      × ((catch_exception (http_exception status (object (many failures) c d)) id).status ≡ status)
unfolding catch_exception
catch_exception-validation status failures c d id = (refl, refl, refl, refl)
