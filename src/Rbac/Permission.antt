-- ===== src/Rbac/Permission.antt =====
-- src/rbac/permission.ts: the RBAC action of an HTTP method. The
-- argument is the method's text, since the `default` branches guard against other texts.
use zuul_proxy.Prelude.{
  String, ◌≡◌, ◌↔◌, inl, inr, refl, List, [], ◌∷◌, All, ◌==◌, eq_iff, arith, Any, if◌then◌else◌,
}
use zuul_proxy.Prelude.Text.{concat}
use zuul_proxy.Types.{
  PermissionAction, read, create, update, HttpMethod, action_to_methods, Result, ok, err,
}
use zuul_proxy.Errors.{ZuulError, new_request_error, minus}
use zuul_proxy.Auth.Guards.{method_text}

unfoldable pub infer_action : String → Result ZuulError PermissionAction
unfolding new_request_error
infer_action method =
    if method == "GET"
    then ok read
    else if method == "HEAD"
    then ok read
    else if method == "POST"
    then ok create
    else if method == "PUT"
    then ok update
    else if method == "PATCH"
    then ok update
    else if method == "DELETE"
    then ok PermissionAction.delete
    else err (
        new_request_error (concat "Unknown HTTP method: " method) (minus 32600) 400
          "request/malformed" [])

infer_action_sound :
    (method : String) (a : PermissionAction)
    → infer_action method ≡ ok a
    → Any (λ m. method_text m ≡ method) (action_to_methods a)
unfolding infer_action action_to_methods
infer_action_sound s read e = ground (arith, eq_iff s "GET", eq_iff s "HEAD")
infer_action_sound s create e = ground (arith, eq_iff s "POST")
infer_action_sound s update e = ground (arith, eq_iff s "PUT", eq_iff s "PATCH")
infer_action_sound s PermissionAction.delete e = ground (arith, eq_iff s "DELETE")

infer_action_listed :
    (a : PermissionAction) → All (λ m. infer_action (method_text m) ≡ ok a) (action_to_methods a)
unfolding infer_action action_to_methods
infer_action_listed read = (refl, (refl, tt))
infer_action_listed create = (refl, tt)
infer_action_listed update = (refl, (refl, tt))
infer_action_listed PermissionAction.delete = (refl, tt)

infer_action_of_Any :
    (method : String) (a : PermissionAction) (ms : List HttpMethod)
    → All (λ m. infer_action (method_text m) ≡ ok a) ms
    → Any (λ m. method_text m ≡ method) ms
    → infer_action method ≡ ok a
infer_action_of_Any method a [] h k = absurd k
infer_action_of_Any method a (m ∷ ms) (e, h) (inl here) = rw (← here) e
infer_action_of_Any method a (m ∷ ms) (e, h) (inr later) = infer_action_of_Any method a ms h later

-- The methods that lead to an action are exactly those that the table `ACTION_TO_METHODS` lists
-- for it, and no other text leads to one.
pub infer_action_iff :
    (method : String) (a : PermissionAction)
    → (infer_action method ≡ ok a) ↔ Any (λ m. method_text m ≡ method) (action_to_methods a)
infer_action_iff method a =
    (infer_action_sound method a, infer_action_of_Any method a _ (infer_action_listed a))
