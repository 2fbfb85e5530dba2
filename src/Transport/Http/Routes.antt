-- ===== src/Transport/Http/Routes.antt =====
-- The registration of the routes: `Routes` of internal/transport/http/server.go and `registerUI` of
-- internal/transport/http/ui.go. The embedded files are parameters, and so is what Gin makes of the
-- calls that register a route, which are listed in their order. A panic is an error. The
-- middlewares for recovery and tracing are left out.
pub mod Laws
use review_workflow.Base.{ℕ, String, ◌<>◌, List, [], ◌∷◌, ◌++◌, map}
use review_workflow.Application.Errors.{Result, ok, err}
use review_workflow.Transport.Http.{
  Endpoint, health, ready_check, create_requests, list_all, get_one, submit_one, approve_one,
  reject_one, execution_result, audit_of,
}

-- `uiFiles`, with directories of the type `Dir`.
pub record Embedded (Dir : Type 0) : Type 0 where
  pub sub : String → Result Dir
  pub read_file : String → Result String

-- What the handler of the index answers.
pub record Page : Type 0 where
  pub status : ℕ
  pub cache_control : String
  pub content_type : String
  pub content : String

pub data Target (Dir : Type 0) : Type 0 where
  endpoint : Endpoint → Target Dir
  page : Page → Target Dir

-- A call of a router's `GET`, `POST` or `StaticFS`.
pub data Registration (Dir : Type 0) : Type 0 where
  get post : String → Target Dir → Registration Dir
  static_fs : String → Dir → Registration Dir

abbrev pub index_page : String → Page
index_page index_html = record {
  status = 200;
  cache_control = "no-store";
  content_type = "text/html; charset=utf-8";
  content = index_html;
}

module _ {Dir : Type 0} where
  abbrev pub with_index : Dir → Result String → Result (List (Registration Dir))
  with_index assets (err e) = err e
  with_index assets (ok index_html) =
      ok (get "/" (page (index_page index_html)) ∷ static_fs "/assets" assets ∷ [])

  abbrev pub with_assets : Embedded Dir → Result Dir → Result (List (Registration Dir))
  with_assets ui (err e) = err e
  with_assets ui (ok assets) = with_index assets (ui.read_file "ui/index.html")

  unfoldable pub register_ui : Embedded Dir → Result (List (Registration Dir))
  register_ui ui = with_assets ui (ui.sub "ui/assets")

  -- `router.Group(prefix)`
  abbrev pub grouped : String → Registration Dir → Registration Dir
  grouped prefix (get path target) = get (prefix <> path) target
  grouped prefix (post path target) = post (prefix <> path) target
  grouped prefix (static_fs path dir) = static_fs (prefix <> path) dir

  abbrev pub v1 : List (Registration Dir)
  v1 =
      post "/requests" (endpoint create_requests)
      ∷ get "/requests" (endpoint list_all)
      ∷ get "/requests/:id" (endpoint get_one)
      ∷ post "/requests/:id/submit" (endpoint submit_one)
      ∷ post "/requests/:id/approve" (endpoint approve_one)
      ∷ post "/requests/:id/reject" (endpoint reject_one)
      ∷ post "/requests/:id/execution-result" (endpoint execution_result)
      ∷ get "/requests/:id/audit" (endpoint audit_of)
      ∷ []

  abbrev pub with_ui : Result (List (Registration Dir)) → Result (List (Registration Dir))
  with_ui (err e) = err e
  with_ui (ok registered) = ok (
      registered
      ++ (get "/healthz" (endpoint health)
          ∷ get "/readyz" (endpoint ready_check)
          ∷ map (grouped "/v1") v1))

  unfoldable pub routes : Embedded Dir → Result (List (Registration Dir))
  unfolding register_ui
  routes ui = with_ui (register_ui ui)
