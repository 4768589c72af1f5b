-- ===== src/Api/Tests.antt =====
-- Concrete calls.
use go_drive.Base.{String, Option, none, some, [], ◌∷◌, ◌≡◌, ◌↔◌, refl, true, get, put, put?}
use go_drive.Api.{
  RequestInit, json, form_data, Response, Body, object, error, rejected, resolved, is_ok,
  tenant_request, api_request, api_headers, api_result, unwrap, api_failure,
}
use go_drive.Api.Results.{Silent, api_result_resolved_iff}

abbrev rename_init : RequestInit
rename_init = record { method = "PATCH"; headers = ("Accept", "*/*") ∷ []; body = json "{}" }

abbrev upload_init : RequestInit
upload_init = record { method = "POST"; headers = []; body = form_data }

json_content_type :
    get
      (tenant_request (some "t0k") "/api/t/files/1" "acme" rename_init).init.headers
      "Content-Type"
    ≡ some "application/json"
unfolding tenant_request api_request api_headers get put put?
json_content_type = refl

form_content_type :
    get (tenant_request none "/api/t/upload" "acme" upload_init).init.headers "Content-Type" ≡ none
unfolding tenant_request api_request api_headers get put put?
form_content_type = refl

abbrev created_response : Response String
created_response = record { status = 201; body = object none (some "f1") }

abbrev denied_response : Response String
denied_response = record { status = 403; body = object (some "forbidden") none }

api_result_resolved_iff_example : (api_result created_response ≡ resolved (some "f1")) ↔ (
    (is_ok 201 ≡ true)
    × ((m : Option String) × (◌≡◌ {A = Body String}
          (object none (some "f1"))
          (object m (some "f1")))
        × Silent m))
api_result_resolved_iff_example = api_result_resolved_iff created_response (some "f1")

denied : api_result denied_response ≡ rejected (error "forbidden")
unfolding api_result unwrap api_failure
denied = refl
