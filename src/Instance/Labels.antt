-- ===== src/Instance/Labels.antt =====
-- agent/commands/instance.py: `_build_traefik_labels`.
use Prim.Native.String.{◌++◌ as str_append}
use relay_agent.Base.{
  Bool, List, Option, String, [], discard, if◌then◌else◌, none, some, str_eq, suc, ℕ, ◌++◌, ◌∷◌,
}
use relay_agent.Base.Dict.{Dict, put}

unfoldable pub concat : List String → String
concat [] = ""
concat (s ∷ ss) = str_append s (concat ss)

-- `list(dict.fromkeys(hosts))`: every host once, where it stands first
unfoldable pub unique_hosts : List String → List String
unfolding discard
unique_hosts [] = []
unique_hosts (h ∷ hs) = h ∷ discard h (unique_hosts hs)

unfoldable pub rule_of : List String → String
unfolding concat
rule_of [] = ""
rule_of (h ∷ []) = concat ("Host(`" ∷ h ∷ "`)" ∷ [])
rule_of (h ∷ g ∷ hs) = concat ("Host(`" ∷ h ∷ "`) || " ∷ rule_of (g ∷ hs) ∷ [])

-- The name of a label of a router or of a middleware
unfoldable pub router_key : String → String → String
unfolding concat
router_key router last = concat ("traefik.http.routers." ∷ router ∷ "." ∷ last ∷ [])

unfoldable pub middleware_key : String → String → String
unfolding concat
middleware_key middleware last = concat ("traefik.http.middlewares." ∷ middleware ∷ "." ∷ last ∷ [])

-- Several assignments to one dictionary, in order
unfoldable pub put_all : List (String × String) → Dict String → Dict String
unfolding put
put_all [] labels = labels
put_all ((k, v) ∷ items) labels = put_all items (put k v labels)

abbrev pub base_labels : String → String → String → String → List (String × String)
base_labels slug router rule cert_resolver =
    ("traefik.enable", "true")
    ∷ (router_key router "rule", rule)
    ∷ (router_key router "entrypoints", "websecure")
    ∷ (router_key router "tls", "true")
    ∷ (router_key router "tls.certresolver", cert_resolver)
    ∷ (router_key router "priority", "1")
    ∷ (concat ("traefik.http.services." ∷ router ∷ ".loadbalancer.server.port" ∷ []), "8069")
    ∷ ("saas.instance", slug)
    ∷ ("saas.managed", "true")
    ∷ []

-- A router besides the instance's own
abbrev pub side_router :
    String → String → String → String → String → String → List (String × String)
side_router name rule cert_resolver priority service middleware =
    (router_key name "rule", rule)
    ∷ (router_key name "entrypoints", "websecure")
    ∷ (router_key name "tls", "true")
    ∷ (router_key name "tls.certresolver", cert_resolver)
    ∷ (router_key name "priority", priority)
    ∷ (router_key name "service", service)
    ∷ (router_key name "middlewares", middleware)
    ∷ []

abbrev pub xmlrpc_labels : String → String → String → List (String × String)
xmlrpc_labels router rule cert_resolver =
    let block_all = concat (router ∷ "-block-all" ∷ []) in
    side_router (concat (router ∷ "-xmlrpc" ∷ []))
      (concat ("(" ∷ rule ∷ ") && PathPrefix(`/xmlrpc`)" ∷ [])) cert_resolver "20" router block_all
    ++ ((middleware_key block_all "ipallowlist.sourcerange", "127.0.0.1/32") ∷ [])

-- The labels of one hostname that redirects; `i` is its number as text.
abbrev pub redirect_labels : String → String → String → String → String → List (String × String)
redirect_labels router host cert_resolver i redirect_host =
    let name = concat (router ∷ "-redirect-" ∷ i ∷ []) in
    let middleware = concat (name ∷ "-mw" ∷ []) in
    side_router name (concat ("Host(`" ∷ redirect_host ∷ "`)" ∷ [])) cert_resolver "5" router
      middleware
    ++ ((middleware_key middleware "redirectregex.regex", "^https?://[^/]+/(.*)")
        ∷ (
          middleware_key middleware "redirectregex.replacement",
          concat ("https://" ∷ host ∷ "/${1}" ∷ []),
        )
        ∷ (middleware_key middleware "redirectregex.permanent", "true")
        ∷ [])

-- `show` writes a number as Python does.
module _ (show : ℕ → String) where
  unfoldable pub put_redirects :
      String → String → String → ℕ → List String → Dict String → Dict String
  unfolding put_all concat router_key middleware_key
  put_redirects router host cert_resolver i [] labels = labels
  put_redirects router host cert_resolver i (r ∷ rs) labels =
      put_redirects router host cert_resolver (suc i) rs
        (put_all (redirect_labels router host cert_resolver (show i) r) labels)

  abbrev pub host_of : Option String → String → String → String
  host_of none slug domain = concat (slug ∷ "." ∷ domain ∷ [])
  host_of (some h) slug domain = if str_eq h "" then concat (slug ∷ "." ∷ domain ∷ []) else h

  unfoldable pub traefik_labels :
      String → String → Option String → List String → String → List String → Bool → Dict String
  unfolding put_all concat router_key middleware_key unique_hosts rule_of put_redirects
  traefik_labels slug domain hostname extra_hostnames cert_resolver redirect_hostnames
        block_xmlrpc =
      let host = host_of hostname slug domain in
      let rule = rule_of (unique_hosts (host ∷ extra_hostnames)) in
      let router = concat ("saas-" ∷ slug ∷ []) in
      let labels = put_all (base_labels slug router rule cert_resolver) [] in
      let guarded =
        if block_xmlrpc then put_all (xmlrpc_labels router rule cert_resolver) labels else labels in
      put_redirects router host cert_resolver 0 redirect_hostnames guarded
