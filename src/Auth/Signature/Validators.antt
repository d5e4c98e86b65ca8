-- ===== src/Auth/Signature/Validators.antt =====
-- What the nonce and timestamp validators do to one nonce of one agent (src/auth/signature.ts).
use zuul_proxy.Prelude.{
  ◌↔◌, ℕ, String, ◌+◌, ◌≤◌, ◌≡◌, refl, inl, inr, Bool, true, false, Option, none, some, [], ◌∷◌,
  arith, eq_iff, ◌==◌, ◌&&◌, Bool-cases, if◌then◌else◌,
}
use zuul_proxy.Prelude.Dict.{Dict, get, set, get-set}
use zuul_proxy.Prelude.Number.{Number, nan, int, pos, negsuc, ◌-ℤ◌}
use zuul_proxy.Types.{Result, ok, err}
use zuul_proxy.Errors.{ZuulError}
use zuul_proxy.Auth.Signature.{
  NonceValidator, or_empty, validate_and_store, is_expired, drop_expired, drop_agents, cleanup,
  seconds, validate, window_seconds,
}

-- The timestamp stored for a nonce of an agent.
abbrev pub stored : String → String → NonceValidator → Option Number
stored agent nonce v = get nonce (or_empty (get agent v.nonce_store))

abbrev pub is_err : {A : Type 0} → Result ZuulError A → Bool
is_err (ok a) = false
is_err (err e) = true

stored-set :
    (agent nonce : String) (ts : Number) (m : Dict (Dict Number)) (a n : String)
    → get n (or_empty (get a (set agent (set nonce ts (or_empty (get agent m))) m)))
      ≡ (if agent == a && nonce == n then some ts else get n (or_empty (get a m)))
stored-set agent nonce ts m a n = ground (
  arith,
  get-set agent a (set nonce ts (or_empty (get agent m))) m,
  get-set nonce n ts (or_empty (get agent m)),
  eq_iff agent a,
)

-- A nonce that is stored for its agent is refused, and nothing changes.
pub validate_and_store_reuse :
    (agent nonce : String) (ts : Number) (v : NonceValidator) {old : Number}
    → stored agent nonce v ≡ some old
    → (is_err (validate_and_store agent nonce ts v).0 ≡ true)
      × ((validate_and_store agent nonce ts v).1 ≡ v)
unfolding validate_and_store
validate_and_store_reuse agent nonce ts v h = (ground arith, ground arith)

-- Any other nonce is accepted and stored under its agent, and no other entry changes.
pub validate_and_store_fresh :
    (agent nonce : String) (ts : Number) (v : NonceValidator)
    → stored agent nonce v ≡ none
    → ((validate_and_store agent nonce ts v).0 ≡ ok tt)
      × ((a n : String)
          → stored a n (validate_and_store agent nonce ts v).1
            ≡ (if agent == a && nonce == n then some ts else stored a n v))
unfolding validate_and_store
validate_and_store_fresh agent nonce ts v h =
    (ground arith, λ a n. ground (arith, stored-set agent nonce ts v.nonce_store a n))

pub is_expired_mono :
    (now later : ℕ) (ts : Number)
    → now ≤ later
    → is_expired (seconds now) ts ≡ true
    → is_expired (seconds later) ts ≡ true
unfolding is_expired ◌-ℤ◌
is_expired_mono now later nan le h = cc
is_expired_mono now later (int (pos n)) le h = ground arith
is_expired_mono now later (int (negsuc n)) le h = ground arith

-- An expired timestamp is outside the window.
pub validate_expired :
    (now : ℕ) (ts : Number) → is_expired (seconds now) ts ≡ true → is_err (validate now ts) ≡ true
unfolding is_expired validate ◌-ℤ◌
validate_expired now nan h = cc
validate_expired now (int (pos n)) h = ground arith
validate_expired now (int (negsuc n)) h = ground arith

get-drop_expired :
    (now : ℕ) (nonce : String) (m : Dict Number) (ts : Number)
    → get nonce m ≡ some ts
    → is_expired now ts ≡ false
    → get nonce (drop_expired now m) ≡ some ts
unfolding drop_expired get
get-drop_expired now nonce [] ts h k = cc
get-drop_expired now nonce ((j, t) ∷ m) ts h k = ground (arith, get-drop_expired now nonce m ts)

get-drop_agents :
    (now : ℕ) (agent nonce : String) (m : Dict (Dict Number)) (ts : Number)
    → get nonce (or_empty (get agent m)) ≡ some ts
    → is_expired now ts ≡ false
    → get nonce (or_empty (get agent (drop_agents now m))) ≡ some ts
unfolding drop_agents get
get-drop_agents now agent nonce [] ts h k = h
get-drop_agents now agent nonce ((a, d) ∷ m) ts h k = elim (Bool-cases (a == agent)) [
  | inl same ↦ ground (arith, get-drop_expired now nonce d ts)
  | inr other ↦ ground (arith, get-drop_agents now agent nonce m ts)
]

-- The sweep keeps every nonce whose timestamp has not expired.
pub stored-cleanup :
    (now : ℕ) (agent nonce : String) (v : NonceValidator) (ts : Number)
    → stored agent nonce v ≡ some ts
    → is_expired (seconds now) ts ≡ false
    → stored agent nonce (cleanup now v) ≡ some ts
unfolding cleanup
stored-cleanup now agent nonce v ts = get-drop_agents (seconds now) agent nonce v.nonce_store ts

-- The timestamps that the window admits at a time in seconds: those at most five minutes away, and
-- NaN.
abbrev pub IsFresh : ℕ → Number → Type 0
IsFresh now nan = Unit
IsFresh now (int (pos n)) = (n ≤ now + window_seconds) × (now ≤ n + window_seconds)
IsFresh now (int (negsuc n)) = now + n + 1 ≤ window_seconds

-- The timestamp validator accepts exactly the timestamps at most five minutes from its clock in
-- either direction, and NaN, which it accepts at every time.
pub validate_iff :
    (now : ℕ) (ts : Number) → (is_err (validate now ts) ≡ false) ↔ IsFresh (seconds now) ts
unfolding validate ◌-ℤ◌
validate_iff now nan = (λ _. tt, λ _. refl)
validate_iff now (int (pos n)) = ground arith
validate_iff now (int (negsuc n)) = ground arith
