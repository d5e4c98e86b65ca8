-- ===== src/Auth/Guards.antt =====
-- src/auth/guards.ts: the type guards. A guard's argument is an `unknown` value.
use Prim.Native.String.{String}
use zuul_proxy.Prelude.{ℕ, Bool, false, ◌&&◌, ◌||◌, List, [], ◌∷◌, Option, some, ◌==◌, eqb, ltb}
use zuul_proxy.Prelude.Dict.{Dict, get}
use zuul_proxy.Prelude.Number.{gt, nat}
use zuul_proxy.Prelude.Text.{codes, js_length, is_hex, matches, times}
use zuul_proxy.Types.{HttpMethod, Value, text, number}

abbrev is : ℕ → ℕ → Bool
is k c = eqb c k

abbrev address_pattern : List (ℕ → Bool)
address_pattern = is b'0' ∷ is b'x' ∷ times 40 is_hex []

unfoldable pub is_agent_address : Value → Bool
unfolding is_hex matches
is_agent_address (text s) = matches address_pattern (codes s)
is_agent_address _ = false

-- `[89ab]` without regard to case
abbrev is_variant : ℕ → Bool
is_variant c = is b'8' c || (is b'9' c || (is b'a' c || (is b'b' c || (is b'A' c || is b'B' c))))

abbrev uuid_pattern : List (ℕ → Bool)
uuid_pattern = times 8 is_hex (
    is b'-'
    ∷ times 4 is_hex (
        is b'-'
        ∷ is b'4'
        ∷ times 3 is_hex (is b'-' ∷ is_variant ∷ times 3 is_hex (is b'-' ∷ times 12 is_hex []))))

unfoldable pub is_nonce : Value → Bool
unfolding is_hex matches
is_nonce (text s) = matches uuid_pattern (codes s)
is_nonce _ = false

-- `value > 0 && Number.isInteger(value)`; NaN is no integer, and fails the first test too
unfoldable pub is_timestamp : Value → Bool
is_timestamp (number n) = gt n (nat 0)
is_timestamp _ = false

-- `list.includes(value)`
abbrev includes : List String → String → Bool
includes [] s = false
includes (x ∷ xs) s = x == s || includes xs s

unfoldable pub is_http_method : Value → Bool
is_http_method (text s) = includes ("GET" ∷ "HEAD" ∷ "POST" ∷ "PUT" ∷ "PATCH" ∷ "DELETE" ∷ []) s
is_http_method _ = false

unfoldable pub is_permission_action : Value → Bool
is_permission_action (text s) = includes ("read" ∷ "create" ∷ "update" ∷ "delete" ∷ []) s
is_permission_action _ = false

-- `typeof headers[name] === 'string' && headers[name].length > 0`
abbrev is_filled : Option Value → Bool
is_filled (some (text s)) = ltb 0 (js_length s)
is_filled _ = false

unfoldable pub is_raw_signature_headers : Dict Value → Bool
unfolding js_length
is_raw_signature_headers headers =
    is_filled (get "x-agent-address" headers)
    && (is_filled (get "x-signature" headers)
        && (is_filled (get "x-nonce" headers) && is_filled (get "x-timestamp" headers)))

-- The text of a method, and the method that a text names: a checked text is used as an
-- `HttpMethod` from then on.
abbrev pub method_text : HttpMethod → String
method_text HttpMethod.get = "GET"
method_text HttpMethod.head = "HEAD"
method_text HttpMethod.post = "POST"
method_text HttpMethod.put = "PUT"
method_text HttpMethod.patch = "PATCH"
method_text HttpMethod.delete = "DELETE"
