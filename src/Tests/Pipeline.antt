-- ===== src/Tests/Pipeline.antt =====
-- The route `/forward/*` at concrete requests.
use zuul_proxy.Prelude.{◌≡◌, ◌↔◌, refl, none, some, false}
use zuul_proxy.Prelude.Dict.{get, set}
use zuul_proxy.Prelude.Number.{◌-ℤ◌}
use zuul_proxy.Prelude.Text.{codes_eq, lower, decimal, is_hex, js_length, matches, show}
use zuul_proxy.Prelude.ParseInt.{parse_int}
use zuul_proxy.Errors.{
  create_auth_error, errors, new_auth_error, new_request_error, new_service_error,
}
use zuul_proxy.Types.{read, Role}
use zuul_proxy.Auth.Guards.{is_raw_signature_headers, is_http_method, is_agent_address}
use zuul_proxy.Auth.Signature.{
  verify_signed_request, verify_recovered, recover_signer, check_replay, validate_and_store,
  validate, build_canonical_payload, number_text,
}
use zuul_proxy.Custody.{get_key, inject, inject_pieces, split_colon}
use zuul_proxy.Proxy.ActionMapper.{infer_action}
use zuul_proxy.Proxy.Registry.{find_tool, scan, unknown_url}
use zuul_proxy.Proxy.Executor.{
  build_call, execute, finish, includes, parse_response, service_failure, upstream_failure,
}
use zuul_proxy.Rbac.Cache
use zuul_proxy.Rbac.Cache.{
  add_all, add_permissions, attempts_from, convert_to_role_with_permissions, get_role,
  read_from_chain_with_retry, store, unavailable,
}
use zuul_proxy.Audit.Payload.{build_audit_payload, hash_body, hash_payload}
use zuul_proxy.Audit.Queue.{enqueue}
use zuul_proxy.Api.Context.{Context, new_context}
use zuul_proxy.Api.Signature.{forward_path, attach, build_signed_request, signature_middleware}
use zuul_proxy.Api.Rbac.{authorise, after_lookup, rbac_middleware, with_role, with_unknown_tool}
use zuul_proxy.Api.Forward.{answer, forward, forward_handler, ready}
use zuul_proxy.Api.Audit.{audit_entry, audit_middleware, audit_payload, error_type, observed}
use zuul_proxy.Api.Pipeline.{handle, after_rbac, after_signature, audited, run_handler}
use zuul_proxy.Api.Pipeline.Authorisation.{IsAuthorised, handle_call_iff}
use zuul_proxy.Api.Pipeline.Accounting.{handle_call-Queued}
use zuul_proxy.Api.Pipeline.Settled.{IsVerified, Queued, summary}
use zuul_proxy.Api.Pipeline.Refusal.{handle_refuses, revoked}
use zuul_proxy.Tests.Data.{server, platform, run_with, reader, users, shared, call, agent, github}

pub handle_call : (handle server platform (run_with reader) users shared).call ≡ some call
unfolding handle is_raw_signature_headers get forward_path is_http_method attach
    verify_signed_request verify_recovered recover_signer build_signed_request is_agent_address
    codes_eq lower check_replay validate_and_store validate ◌-ℤ◌ authorise audit_entry
    audit_middleware audit_payload error_type observed answer forward forward_handler ready
    after_rbac after_signature audited run_handler after_lookup rbac_middleware with_role
    with_unknown_tool signature_middleware build_audit_payload hash_body hash_payload enqueue
    build_canonical_payload number_text get_key inject inject_pieces split_colon create_auth_error
    errors new_auth_error new_request_error new_service_error set parse_int decimal is_hex js_length
    matches show infer_action build_call execute finish includes parse_response service_failure
    upstream_failure find_tool scan unknown_url add_all add_permissions attempts_from
    convert_to_role_with_permissions get_role Cache.includes read_from_chain_with_retry store
    unavailable
handle_call = refl

handle_call_iff_example :
    ((handle server platform (run_with reader) users shared).call ≡ some call)
    ↔ IsAuthorised server platform (run_with reader) users shared call
handle_call_iff_example = handle_call_iff server platform (run_with reader) users shared call

handle_call-Queued_example :
    (a : IsAuthorised server platform (run_with reader) users shared call) × Queued a.agent
      (build_signed_request users a.target).signature
      shared.audit
      (handle server platform (run_with reader) users shared).shared.audit
handle_call-Queued_example =
    handle_call-Queued server platform (run_with reader) users shared call handle_call
      (λ p. (p.id, refl))

abbrev revoked_role : Role
revoked_role = record reader { is_active = false }

abbrev pub verified : Context
unfolding build_signed_request parse_int get
verified = record (new_context "r1") {
  recovered_address = some agent;
  signed_request = some (build_signed_request users "https://api.github.com/users");
}

is_verified : IsVerified server platform (run_with revoked_role) users shared verified
unfolding handle is_raw_signature_headers get forward_path is_http_method attach
    verify_signed_request verify_recovered recover_signer build_signed_request is_agent_address
    codes_eq lower check_replay validate_and_store validate ◌-ℤ◌ authorise audit_entry
    audit_middleware audit_payload error_type observed answer forward forward_handler ready
    after_rbac after_signature audited run_handler after_lookup rbac_middleware with_role
    with_unknown_tool signature_middleware build_audit_payload hash_body hash_payload enqueue
    build_canonical_payload number_text get_key inject inject_pieces split_colon create_auth_error
    errors new_auth_error new_request_error new_service_error set parse_int decimal is_hex js_length
    matches show infer_action build_call execute finish includes parse_response service_failure
    upstream_failure find_tool scan unknown_url add_all add_permissions attempts_from
    convert_to_role_with_permissions get_role Cache.includes read_from_chain_with_retry store
    unavailable
is_verified = record {
  encoded = "https://api.github.com/users";
  target = "https://api.github.com/users";
  agent = agent;
  headers = refl;
  path = refl;
  decoded = refl;
  method = refl;
  verified = refl;
  context = refl;
}

handle_refuses_example :
    (summary (handle server platform (run_with revoked_role) users shared).answer
      ≡ (403, some "permission/agent_revoked"))
    × ((handle server platform (run_with revoked_role) users shared).call ≡ none)
    × Queued agent "0xgood" shared.audit
        (handle server platform (run_with revoked_role) users shared).shared.audit
unfolding handle is_raw_signature_headers get forward_path is_http_method attach
    verify_signed_request verify_recovered recover_signer build_signed_request is_agent_address
    codes_eq lower check_replay validate_and_store validate ◌-ℤ◌ authorise audit_entry
    audit_middleware audit_payload error_type observed answer forward forward_handler ready
    after_rbac after_signature audited run_handler after_lookup rbac_middleware with_role
    with_unknown_tool signature_middleware build_audit_payload hash_body hash_payload enqueue
    build_canonical_payload number_text get_key inject inject_pieces split_colon create_auth_error
    errors new_auth_error new_request_error new_service_error set parse_int decimal is_hex js_length
    matches show infer_action build_call execute finish includes parse_response service_failure
    upstream_failure find_tool scan unknown_url add_all add_permissions attempts_from
    convert_to_role_with_permissions get_role Cache.includes read_from_chain_with_retry store
    unavailable is_verified
handle_refuses_example =
    handle_refuses server platform (run_with revoked_role) users shared verified is_verified read
      403 "permission/agent_revoked" (λ p. (p.id, refl)) refl
      (revoked github (convert_to_role_with_permissions revoked_role) refl (λ h. absurd (cc)) refl
        refl)
