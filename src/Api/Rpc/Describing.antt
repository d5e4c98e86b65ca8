-- ===== src/Api/Rpc/Describing.antt =====
-- What tools/describe answers, and which bodies the RPC handler cannot answer
-- (src/api/handlers/rpc.ts).
use zuul_proxy.Prelude.{
  ℕ, String, ◌≡◌, ◌≢◌, refl, ◌↔◌, ◌⊎◌, inl, inr, true, false, none, some, arith, eq_iff, Bool-cases,
  Option-cases,
}
use zuul_proxy.Prelude.Json.{
  Json, null, bool, number, fraction, text, arr, obj, is_truthy, has_no_text,
}
use zuul_proxy.Types.{Result-cases, Role, Result, ok, err}
use zuul_proxy.Errors.{ZuulError}
use zuul_proxy.Config.{ToolConfig}
use zuul_proxy.Proxy.Registry.{ToolRegistry, get_tool}
use zuul_proxy.Rbac.Cache.{RoleWithPermissions, PermissionCache}
use zuul_proxy.Api.Rpc.{
  RpcResponse, description, param, find_described, rejected_id, RpcInput, unreadable, value,
  tools_list, tools_describe, dispatch, rpc_handler,
}
use zuul_proxy.Api.RpcSchema.{RpcMethod, list, describe, RpcRequest, parse_request}

module _ (registry : ToolRegistry) (chain_id : ℕ)
    (other_role : Json → Result ZuulError RoleWithPermissions) (other_text : Json → String)
    (request_id : String) (reply_s now later : ℕ) (outcomes : ℕ → Result String Role)
    (cache : PermissionCache) where
  abbrev handled : RpcInput → RpcResponse × PermissionCache
  handled input =
      rpc_handler registry chain_id other_role other_text request_id reply_s now later outcomes
        input cache

  -- A request to describe the tool of a key that is a text and not empty is answered, without a
  -- look at the cache, with that tool and status 200 exactly if the registry has it, and with
  -- status 404 exactly if it has not.
  rpc_describes_iff :
      (body : Json) (r : RpcRequest) (key : String)
      → parse_request body ≡ some r
      → r.method ≡ describe
      → param "tool_key" r ≡ text key
      → key ≢ ""
      → (t : ToolConfig)
      → (((handled (value body)).0.status ≡ 200) × ((handled (value body)).0.body ≡ description t)
          ↔ (get_tool registry key ≡ ok t))
        × (((handled (value body)).0.status ≡ 404)
            ↔ ((e : ZuulError) × (get_tool registry key ≡ err e)))
        × ((handled (value body)).1 ≡ cache)
  unfolding rpc_handler dispatch tools_describe find_described has_no_text
  rpc_describes_iff body r key parsed method named filled t =
      let printable : has_no_text (param "tool_key" r) ≡ false = rw (named, has_no_text) refl in
      let truthy : is_truthy (text key) ≡ true = ground (arith, eq_iff key "") in
      elim (Result-cases (get_tool registry key)) [
        | inl (u, found) ↦
            rw (parsed, method, named, truthy, found, rpc_handler, tools_describe, find_described)
              (
                (λ (_, h). cc, λ h. (refl, cc)),
                (λ h. absurd (omega arith), λ (e, h). absurd (cc)),
                refl,
              )
        | inr (e, missing) ↦
            rw
              (
                parsed, method, named, truthy, missing, rpc_handler, tools_describe, find_described,
                printable,
              )
              (
                (λ (h, _). absurd (omega arith), λ h. absurd (cc)),
                (λ _. (e, refl), λ _. refl),
                refl,
              )
      ]

  -- A request to describe the tool of a key that has no text.
  abbrev pub HasNoText : RpcRequest → Type 0
  HasNoText r = (r.method ≡ describe) × (has_no_text (param "tool_key" r) ≡ true)

  unnamed :
      (v : Json) → has_no_text v ≡ true → (is_truthy v ≡ true) × (find_described registry v ≡ none)
  unfolding find_described has_no_text
  unnamed null e = cc
  unnamed (bool b) e = absurd (cc)
  unnamed (number n) e = absurd (cc)
  unnamed (fraction s) e = absurd (cc)
  unnamed (text s) e = absurd (cc)
  unnamed (arr vs) e = (refl, refl)
  unnamed (obj fs) e = (refl, refl)

  dispatched : (m : RpcMethod) (r : RpcRequest) (agent : Json) → RpcResponse × PermissionCache
  dispatched m r agent =
      dispatch registry chain_id other_role other_text request_id reply_s m now later outcomes r
        agent cache

  dispatch_internal_iff :
      (m : RpcMethod) (r : RpcRequest) (agent : Json)
      → ((dispatched m r agent).0.status ≡ 500)
        ↔ ((m ≡ describe) × (has_no_text (param "tool_key" r) ≡ true))
  unfolding dispatched dispatch tools_list tools_describe
  dispatch_internal_iff list r agent = elim (Bool-cases (is_truthy agent)) [
    | inl named ↦ rw (named, tools_list) (λ h. absurd (omega arith), λ (h, _). absurd (cc))
    | inr anonymous ↦ rw (anonymous, tools_list) (λ h. absurd (omega arith), λ (h, _). absurd (cc))
  ]
  dispatch_internal_iff describe r agent = elim (Bool-cases (has_no_text (param "tool_key" r))) [
    | inl bad ↦
        let (filled, missing) = unnamed (param "tool_key" r) bad in
        rw (filled, missing, bad, tools_describe) (λ _. (refl, refl), λ _. refl)
    | inr good ↦ elim (Bool-cases (is_truthy (param "tool_key" r))) [
      | inr empty ↦
          rw (empty, good, tools_describe) (λ h. absurd (omega arith), λ (_, h). absurd (cc))
      | inl filled ↦ elim (Option-cases (find_described registry (param "tool_key" r))) [
        | inl unknown ↦
            rw (filled, unknown, good, tools_describe)
              (λ h. absurd (omega arith), λ (_, h). absurd (cc))
        | inr (t, found) ↦
            rw (filled, found, good, tools_describe)
              (λ h. absurd (omega arith), λ (_, h). absurd (cc))
      ]
    ]
  ]

  -- The bodies that the handler cannot answer.
  abbrev pub Breaks : RpcInput → Type 0
  Breaks unreadable = Unit
  Breaks (value body) =
      (body ≡ null) ⊎ ((r : RpcRequest) × (parse_request body ≡ some r) × HasNoText r)

  rejected_iff :
      (body : Json)
      → parse_request body ≡ none
      → ((handled (value body)).0.status ≡ 500) ↔ (body ≡ null)
  unfolding rpc_handler rejected_id
  rejected_iff null bad = rw (bad, rpc_handler) (λ _. refl, λ _. refl)
  rejected_iff (bool b) bad = rw (bad, rpc_handler) (λ h. absurd (omega arith), λ h. absurd (cc))
  rejected_iff (number n) bad = rw (bad, rpc_handler) (λ h. absurd (omega arith), λ h. absurd (cc))
  rejected_iff (fraction s) bad =
      rw (bad, rpc_handler) (λ h. absurd (omega arith), λ h. absurd (cc))
  rejected_iff (text s) bad = rw (bad, rpc_handler) (λ h. absurd (omega arith), λ h. absurd (cc))
  rejected_iff (arr vs) bad = rw (bad, rpc_handler) (λ h. absurd (omega arith), λ h. absurd (cc))
  rejected_iff (obj fs) bad = rw (bad, rpc_handler) (λ h. absurd (omega arith), λ h. absurd (cc))

  null_rejected : parse_request null ≡ none
  unfolding parse_request
  null_rejected = refl

  -- The handler answers with status 500 exactly if the body is no JSON; is the value null, which it
  -- takes apart before it answers that the request is invalid; or is a request to describe the tool
  -- of a key that throws in the template of the message: an object with a field `toString`, or an
  -- array with such an item.
  pub rpc_internal_iff : (input : RpcInput) → ((handled input).0.status ≡ 500) ↔ Breaks input
  unfolding rpc_handler dispatched
  rpc_internal_iff unreadable = (λ _. tt, λ _. refl)
  rpc_internal_iff (value body) = elim (Option-cases (parse_request body)) [
    | inl bad ↦
        let (to, from) = rejected_iff body bad in
        (λ h. inl (to h), λ h. elim h [ inl e ↦ from e | inr (r, parsed, _) ↦ absurd (cc) ])
    | inr (r, parsed) ↦
        let (to, from) = dispatch_internal_iff r.method r (param "agent_address" r) in
        (
          λ h. inr (r, parsed, to (rw (parsed, rpc_handler) at h)),
          λ h. elim h [
            | inl e ↦ absurd (cc (null_rejected, parsed, e))
            | inr (q, again, broken) ↦
                let same : q ≡ r = cc in rw (parsed, rpc_handler) (from (rw (same) at broken))
          ],
        )
  ]
