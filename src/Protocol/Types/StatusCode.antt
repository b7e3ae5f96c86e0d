-- ===== src/Protocol/Types/StatusCode.antt =====
-- `StatusCode` of crates/protocol/src/types.rs.
use zeroio.Common.{ℕ, ◌≡◌, refl, Bool, true, false, ◌&&◌, ◌||◌, [], ◌∷◌, All, ltb, leb, arith}

pub record StatusCode : Type 0 where
  pub code : ℕ

-- The named codes.
abbrev pub ok : StatusCode
ok = record { code = 200 }

abbrev pub created : StatusCode
created = record { code = 201 }

abbrev pub accepted : StatusCode
accepted = record { code = 202 }

abbrev pub no_content : StatusCode
no_content = record { code = 204 }

abbrev pub bad_request : StatusCode
bad_request = record { code = 400 }

abbrev pub unauthorized : StatusCode
unauthorized = record { code = 401 }

abbrev pub forbidden : StatusCode
forbidden = record { code = 403 }

abbrev pub not_found : StatusCode
not_found = record { code = 404 }

abbrev pub method_not_allowed : StatusCode
method_not_allowed = record { code = 405 }

abbrev pub request_timeout : StatusCode
request_timeout = record { code = 408 }

abbrev pub conflict : StatusCode
conflict = record { code = 409 }

abbrev pub payload_too_large : StatusCode
payload_too_large = record { code = 413 }

abbrev pub too_many_requests : StatusCode
too_many_requests = record { code = 429 }

abbrev pub internal_server_error : StatusCode
internal_server_error = record { code = 500 }

abbrev pub not_implemented : StatusCode
not_implemented = record { code = 501 }

abbrev pub bad_gateway : StatusCode
bad_gateway = record { code = 502 }

abbrev pub service_unavailable : StatusCode
service_unavailable = record { code = 503 }

abbrev pub gateway_timeout : StatusCode
gateway_timeout = record { code = 504 }

abbrev pub client_not_found : StatusCode
client_not_found = record { code = 600 }

abbrev pub topic_not_found : StatusCode
topic_not_found = record { code = 601 }

abbrev pub invalid_routing : StatusCode
invalid_routing = record { code = 602 }

abbrev pub subscription_failed : StatusCode
subscription_failed = record { code = 603 }

abbrev pub authentication_failed : StatusCode
authentication_failed = record { code = 604 }

abbrev pub join_rejected : StatusCode
join_rejected = record { code = 605 }

-- `(lo..hi).contains(&n)`
abbrev in_range : ℕ → ℕ → ℕ → Bool
in_range lo hi n = leb lo n && ltb n hi

unfoldable pub is_success : StatusCode → Bool
is_success s = in_range 200 300 s.code

unfoldable pub is_client_error : StatusCode → Bool
is_client_error s = in_range 400 500 s.code

unfoldable pub is_server_error : StatusCode → Bool
is_server_error s = in_range 500 600 s.code

unfoldable pub is_protocol_error : StatusCode → Bool
is_protocol_error s = in_range 600 700 s.code

-- The four ranges do not meet.
pub classes_apart :
    (s : StatusCode)
    → ((is_success s && is_client_error s) ≡ false)
      × ((is_server_error s && is_protocol_error s) ≡ false)
      × (((is_success s || is_client_error s) && (is_server_error s || is_protocol_error s))
          ≡ false)
unfolding is_success is_client_error is_server_error is_protocol_error
classes_apart s = ground arith

-- The named codes are in the ranges that their names are listed under.
named_classes :
    All (λ s. is_success s ≡ true) (ok ∷ created ∷ accepted ∷ no_content ∷ [])
    × All
        (λ s. is_client_error s ≡ true)
        (bad_request ∷ unauthorized ∷ forbidden ∷ not_found ∷ method_not_allowed ∷ request_timeout
          ∷ conflict ∷ payload_too_large ∷ too_many_requests ∷ [])
    × All
        (λ s. is_server_error s ≡ true)
        (internal_server_error ∷ not_implemented ∷ bad_gateway ∷ service_unavailable
          ∷ gateway_timeout ∷ [])
    × All
        (λ s. is_protocol_error s ≡ true)
        (client_not_found ∷ topic_not_found ∷ invalid_routing ∷ subscription_failed
          ∷ authentication_failed ∷ join_rejected ∷ [])
unfolding is_success is_client_error is_server_error is_protocol_error
named_classes = (
  (refl, (refl, (refl, (refl, tt)))),
  (refl, (refl, (refl, (refl, (refl, (refl, (refl, (refl, (refl, tt))))))))),
  (refl, (refl, (refl, (refl, (refl, tt))))),
  (refl, (refl, (refl, (refl, (refl, (refl, tt)))))),
)
