-- ===== src/Transport/Http/Routes/Laws.antt =====
-- What internal/transport/http registers.
use review_workflow.Base.{◌≡◌, refl, String, List, [], ◌∷◌, map}
use review_workflow.Application.Errors.{ok}
use review_workflow.Transport.Http.{
  Endpoint, health, ready_check, create_requests, list_all, get_one, submit_one, approve_one,
  reject_one, execution_result, audit_of,
}
use review_workflow.Transport.Http.Routes.{
  Embedded, Registration, get, post, static_fs, endpoint, page, index_page, register_ui, routes,
}

abbrev endpoints : List Endpoint
endpoints =
    health ∷ ready_check ∷ create_requests ∷ list_all ∷ get_one ∷ submit_one ∷ approve_one
    ∷ reject_one ∷ execution_result ∷ audit_of ∷ []

module _ {Dir : Type 0} where
  -- The interface of README.md.
  abbrev pub documented : Endpoint → Registration Dir
  documented health = get "/healthz" (endpoint health)
  documented ready_check = get "/readyz" (endpoint ready_check)
  documented create_requests = post "/v1/requests" (endpoint create_requests)
  documented list_all = get "/v1/requests" (endpoint list_all)
  documented get_one = get "/v1/requests/:id" (endpoint get_one)
  documented submit_one = post "/v1/requests/:id/submit" (endpoint submit_one)
  documented approve_one = post "/v1/requests/:id/approve" (endpoint approve_one)
  documented reject_one = post "/v1/requests/:id/reject" (endpoint reject_one)
  documented execution_result = post "/v1/requests/:id/execution-result" (endpoint execution_result)
  documented audit_of = get "/v1/requests/:id/audit" (endpoint audit_of)

  -- Where the embedded files of the user interface are there, the index, the assets and the
  -- documented interface are registered.
  routes-documented :
      (ui : Embedded Dir) (assets : Dir) (index_html : String)
      → ui.sub "ui/assets" ≡ ok assets
      → ui.read_file "ui/index.html" ≡ ok index_html
      → routes ui
        ≡ ok (
            get "/" (page (index_page index_html))
            ∷ static_fs "/assets" assets
            ∷ map documented endpoints)
  unfolding routes register_ui
  routes-documented ui assets index_html listed found = rw (listed, found) refl
