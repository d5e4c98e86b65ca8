-- ===== src/Proxy/Registry/Longest.antt =====
-- The longest prefix match of the tool registry (src/proxy/tool-registry.ts).
use mathlib.Core.List.{append_assoc, append-nil}
use zuul_proxy.Prelude.{
  String, ◌≤◌, ◌≡◌, ◌≢◌, ◌↔◌, inl, inr, refl, sym, ap, ◌∙◌, true, false, List, [], ◌∷◌, ◌++◌, some,
  map, arith, All, Any, All-map, Bool-cases, starts_with, eq_iff, eq_refl,
}
use zuul_proxy.Prelude.Dict.{Dict, get, get-set}
use zuul_proxy.Prelude.Text.{js_length}
use zuul_proxy.Types.{ok, err}
use zuul_proxy.Config.{ToolConfig}
use zuul_proxy.Proxy.Registry.{
  Entry, ToolRegistry, load, new_tool_registry, unknown_url, scan, find_tool,
}
use zuul_proxy.Proxy.Registry.Sorting.{IsSorted, All-sort, All-of_sort, sort-IsSorted}

-- No two tools share a key.
abbrev pub DistinctKeys : List ToolConfig → Type 0
DistinctKeys [] = Unit
DistinctKeys (t ∷ ts) = All (λ u. u.key ≢ t.key) ts × DistinctKeys ts

abbrev entry : ToolConfig → Entry
entry t = (t.base_url, t.key)

base_urls-load :
    (ts : List ToolConfig) (r : ToolRegistry) → (load ts r).base_urls ≡ r.base_urls ++ map entry ts
unfolding load
base_urls-load [] r = sym (append-nil _)
base_urls-load (t ∷ ts) r = base_urls-load ts _ ∙ append_assoc r.base_urls (entry t ∷ []) _

get-load_other :
    (k : String) (ts : List ToolConfig) (r : ToolRegistry)
    → All (λ u. u.key ≢ k) ts
    → get k (load ts r).tools ≡ get k r.tools
unfolding load
get-load_other k [] r h = refl
get-load_other k (t ∷ ts) r (ne, h) =
    get-load_other k ts _ h ∙ ground (arith, get-set t.key k t r.tools, eq_iff t.key k)

-- What the registry holds for an entry: the tool of the configuration that has its key and its URL.
record IsKnown (tools : Dict ToolConfig) (config : List ToolConfig) (e : Entry) : Type 0 where
  tool : ToolConfig
  found : get e.1 tools ≡ some tool
  url : tool.base_url ≡ e.0
  listed : Any (λ u. u ≡ tool) config

IsKnown-load :
    (ts : List ToolConfig) (r : ToolRegistry)
    → DistinctKeys ts
    → All (λ t. get t.key (load ts r).tools ≡ some t) ts
unfolding load
IsKnown-load [] r d = tt
IsKnown-load (t ∷ ts) r (ne, d) = (
  get-load_other t.key ts _ ne ∙ ground (arith, get-set t.key t.key t r.tools, eq_refl t.key),
  IsKnown-load ts _ d,
)

All-entries :
    (tools : Dict ToolConfig) (config ts : List ToolConfig)
    → ((t : ToolConfig) → Any (λ u. u ≡ t) ts → Any (λ u. u ≡ t) config)
    → All (λ t. get t.key tools ≡ some t) ts
    → All (IsKnown tools config) (map entry ts)
All-entries tools config [] sub h = tt
All-entries tools config (t ∷ ts) sub (found, h) = (
  record { tool = t; found = found; url = refl; listed = sub t (inl refl) },
  All-entries tools config ts (λ u m. sub u (inr m)) h,
)

All-of_map :
    (P : Entry → Type 0) (ts : List ToolConfig) → All P (map entry ts) → All (λ t. P (entry t)) ts
All-of_map P [] h = tt
All-of_map P (t ∷ ts) (p, h) = (p, All-of_map P ts h)

All-to_map :
    (P : Entry → Type 0) (ts : List ToolConfig) → All (λ t. P (entry t)) ts → All P (map entry ts)
All-to_map P [] h = tt
All-to_map P (t ∷ ts) (p, h) = (p, All-to_map P ts h)

module _ (target : String) where
  -- A tool of the configuration whose base URL is a prefix of the target, and no shorter than any
  -- other configured base URL that is one.
  pub record IsLongest (config : List ToolConfig) (c : ToolConfig) : Type 0 where
    pub listed : Any (λ u. u ≡ c) config
    pub prefix : starts_with target c.base_url ≡ true
    pub longest :
        All
          (λ (t : ToolConfig).
            starts_with target t.base_url ≡ true → js_length t.base_url ≤ js_length c.base_url)
          config

  record IsBest (config : List ToolConfig) (l : List Entry) (c : ToolConfig) : Type 0 where
    listed : Any (λ u. u ≡ c) config
    prefix : starts_with target c.base_url ≡ true
    longest :
        All (λ (e : Entry). starts_with target e.0 ≡ true → js_length e.0 ≤ js_length c.base_url) l

  module _ (tools : Dict ToolConfig) (config : List ToolConfig) where
    scan-IsBest :
        (l : List Entry) (c : ToolConfig)
        → IsSorted l
        → All (IsKnown tools config) l
        → scan tools target l ≡ ok c
        → IsBest config l c
    unfolding scan
    scan-IsBest [] c s k e = cc
    scan-IsBest (f ∷ l) c (first, s) (known, k) e = elim (Bool-cases (starts_with target f.0)) [
      | inl hit ↦
          let same : known.tool ≡ c = ground (arith, known.found) in
          let url : c.base_url ≡ f.0 = ap (λ (t : ToolConfig). t.base_url) (sym same) ∙ known.url in
          record {
            listed = rw (← same) known.listed;
            prefix = rw url hit;
            longest = (λ _. rw url (omega arith), All-map _ _ (λ g le _. rw url le) l first);
          }
      | inr miss ↦
          let rest = scan-IsBest l c s k (rw miss at e) in
          record {
            listed = rest.listed;
            prefix = rest.prefix;
            longest = (λ hit. absurd (cc), rest.longest);
          }
    ]

    scan_unknown :
        (l : List Entry)
        → All (IsKnown tools config) l
        → (scan tools target l ≡ err (unknown_url target))
          ↔ All (λ (e : Entry). starts_with target e.0 ≡ false) l
    unfolding scan
    scan_unknown [] k = (λ _. tt, λ _. refl)
    scan_unknown (f ∷ l) (known, k) =
        let (to, from) = scan_unknown l k in
        elim (Bool-cases (starts_with target f.0)) [
          | inl hit ↦ (λ e. absurd (ground (arith, known.found)), λ (miss, _). absurd (cc))
          | inr miss ↦ (λ e. (miss, to (rw miss at e)), λ (_, h). rw miss (from h))
        ]

abbrev loaded : List ToolConfig → ToolRegistry
loaded config = load config (record { tools = []; base_urls = [] })

new_tool_registry-IsKnown :
    (config : List ToolConfig)
    → DistinctKeys config
    → All (IsKnown (new_tool_registry config).tools config) (new_tool_registry config).base_urls
unfolding new_tool_registry
new_tool_registry-IsKnown config d =
    All-sort (IsKnown (loaded config).tools config) (loaded config).base_urls (
      rw (base_urls-load config) (All-entries _ config config (λ t m. m) (IsKnown-load config _ d)))

-- A property of every entry of the registry holds of every configured tool, and the other way
-- round.
All-new_tool_registry :
    (P : Entry → Type 0) (config : List ToolConfig)
    → All P (new_tool_registry config).base_urls ↔ All (λ t. P (entry t)) config
unfolding new_tool_registry
All-new_tool_registry P config = (
  λ h.
      All-of_map P config
        (rw (base_urls-load config) at (All-of_sort P (loaded config).base_urls h)),
  λ h. All-sort P (loaded config).base_urls (rw (base_urls-load config) (All-to_map P config h)),
)

-- With distinct tool keys, a target URL is resolved to a configured tool whose base URL is a prefix
-- of it and is at least as long as every other configured base URL that is a prefix of it.
pub find_tool-IsLongest :
    (config : List ToolConfig) (target : String) (c : ToolConfig)
    → DistinctKeys config
    → find_tool (new_tool_registry config) target ≡ ok c
    → IsLongest target config c
unfolding find_tool new_tool_registry
find_tool-IsLongest config target c d e =
    let best =
      scan-IsBest target (new_tool_registry config).tools config
        (new_tool_registry config).base_urls c (sort-IsSorted (loaded config).base_urls)
        (new_tool_registry-IsKnown config d) e in
    record {
      listed = best.listed;
      prefix = best.prefix;
      longest = (All-new_tool_registry _ config).0 best.longest;
    }

-- With distinct tool keys, a target URL is refused as an unknown tool exactly if no configured base
-- URL is a prefix of it.
pub find_tool_unknown_iff :
    (config : List ToolConfig) (target : String)
    → DistinctKeys config
    → (find_tool (new_tool_registry config) target ≡ err (unknown_url target))
      ↔ All (λ (t : ToolConfig). starts_with target t.base_url ≡ false) config
unfolding find_tool
find_tool_unknown_iff config target d =
    let (to, from) = scan_unknown target _ config _ (new_tool_registry-IsKnown config d) in
    let (down, up) = All-new_tool_registry (λ e. starts_with target e.0 ≡ false) config in
    (λ e. down (to e), λ h. from (up h))
