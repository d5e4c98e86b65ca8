-- ===== src/Proxy/ActionMapper.antt =====
-- src/proxy/action-mapper.ts: the RBAC action of an HTTP method. The
-- argument is the method's text, since the `default` branch guards against other texts.
use zuul_proxy.Prelude.{String, ◌≡◌, ◌↔◌, Any, refl, [], ◌==◌, if◌then◌else◌}
use zuul_proxy.Prelude.Text.{concat}
use zuul_proxy.Types.{PermissionAction, read, create, update, action_to_methods, Result, ok, err}
use zuul_proxy.Errors.{ZuulError, new_request_error, errors, malformed_request}
use zuul_proxy.Auth.Guards.{method_text}
use zuul_proxy.Rbac.Permission

unfoldable pub infer_action : String → Result ZuulError PermissionAction
unfolding new_request_error errors
infer_action method =
    if method == "GET"
    then ok read
    else if method == "HEAD"
    then ok read
    else if method == "POST"
    then ok create
    else if method == "PUT"
    then ok update
    else if method == "PATCH"
    then ok update
    else if method == "DELETE"
    then ok PermissionAction.delete
    else err (
        new_request_error (concat "Unknown HTTP method: " method) (errors malformed_request).code
          (errors malformed_request).http_status (errors malformed_request).error_type [])

infer_action-infer_action : (method : String) → infer_action method ≡ Permission.infer_action method
unfolding infer_action Permission.infer_action
infer_action-infer_action method = refl

-- The methods that lead to an action are exactly those that the table `ACTION_TO_METHODS` lists for
-- it, in both copies of the mapping, which agree on every text; no other text leads to an action.
pub infer_action_methods_iff :
    (method : String) (a : PermissionAction)
    → (infer_action method ≡ Permission.infer_action method)
      × ((infer_action method ≡ ok a) ↔ Any (λ m. method_text m ≡ method) (action_to_methods a))
infer_action_methods_iff method a = (
  infer_action-infer_action method,
  rw (infer_action-infer_action method) (Permission.infer_action_iff method a),
)
