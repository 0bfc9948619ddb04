-- ===== src/Api/Middleware.antt =====
-- `logAndMetricsMiddleware` in internal/api/server.go, around the mux: it gives a request its
-- correlation, and counts it. The trace, the log and the request's own ID leave no state here.
use mathlib.Core.List.{reverse}
use pixrail_go_payment_switc.Prelude.{
  ℕ, ◌≡◌, refl, Bool, true, false, ◌&&◌, ◌++◌, Text, str, is_empty, trim, ℤ, Option, none, some,
  if◌then◌else◌,
}
use pixrail_go_payment_switc.Switch.{Env}
use pixrail_go_payment_switc.Metrics.{observe_request}
use pixrail_go_payment_switc.Api.{Server, Endpoint, Request, Libraries, Body, State}
use pixrail_go_payment_switc.Api.Auth.{after_prefix}
use pixrail_go_payment_switc.Api.Handlers.{Answer, serve}

-- `strings.HasPrefix` and `strings.HasSuffix`
unfoldable pub has_prefix : Text → Text → Bool
unfolding after_prefix
has_prefix s prefix = elim (after_prefix prefix s) [ none ↦ false | some rest ↦ true ]

unfoldable pub has_suffix : Text → Text → Bool
unfolding has_prefix
has_suffix s suffix = has_prefix (reverse s) (reverse suffix)

-- `routeLabel` of a path.
unfoldable pub route_label : Text → Text
unfolding has_prefix has_suffix
route_label path =
    let transfers = has_prefix path (str "/v1/pix/transfers/") in
    if transfers && has_suffix path (str "/spi-callbacks")
    then str "/v1/pix/transfers/{id}/spi-callbacks"
    else if transfers && has_suffix path (str "/spi-submissions")
    then str "/v1/pix/transfers/{id}/spi-submissions"
    else if transfers && has_suffix path (str "/reviews")
    then str "/v1/pix/transfers/{id}/reviews"
    else if transfers
    then str "/v1/pix/transfers/{id}"
    else path

-- `http.ServeMux`: the endpoint of a method and a path, or the status of its own answer; and the
-- time that `headerOrNew` writes.
pub record Mux : Type 0 where
  pub endpoint : Text → Text → Option Endpoint
  pub own_status : Text → Text → ℕ
  pub stamp : Text

-- `headerOrNew`
unfoldable pub header_or_new : Mux → Text → Text → Text
header_or_new mux given prefix =
    if is_empty (trim given) then prefix ++ (str "_" ++ mux.stamp) else trim given

module _ (env : Env) (lib : Libraries) (mux : Mux) (s : Server) (st : State) where
  -- The mux behind the middleware.
  unfoldable pub dispatch : Text → Text → Request → Answer
  dispatch method path r = elim (mux.endpoint method path) [
    | none ↦ (record { status = mux.own_status method path; body = Body.unmatched }, st)
    | some endpoint ↦ serve env lib s st endpoint r
  ]

  unfoldable pub arrive : Text → Text → ℤ → Request → Answer
  unfolding dispatch header_or_new route_label
  arrive method path elapsed r =
      let (response, st') =
        dispatch method path
          (record r { correlation_id = header_or_new mux r.correlation_id (str "corr") }) in
      (
        response,
        record st' {
          metrics = observe_request st'.metrics method (route_label path) response.status elapsed;
        },
      )

  -- The world is the handler's.
  pub arrive-world :
      (method path : Text) (elapsed : ℤ) (r : Request)
      → (arrive method path elapsed r).1.world
        ≡ (dispatch method path
            (record r { correlation_id = header_or_new mux r.correlation_id (str "corr") })).1.world
  unfolding arrive
  arrive-world method path elapsed r = refl
