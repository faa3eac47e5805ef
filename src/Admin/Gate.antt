-- ===== src/Admin/Gate.antt =====
-- The host gate and the CSRF check (internal/api/hostgate.go, internal/api/csrf.go). Case folding is that
-- of ASCII.
use mathlib.Core.List.{reverse}
use morpheus_uplink.Base.{
  ℕ, Bool, true, false, ◌&&◌, ◌||◌, not, Option, none, some, [], ◌∷◌, Text, same, codes,
  if◌then◌else◌, ◌==◌, any, has_prefix, contains, trim_space, to_lower,
}
use morpheus_uplink.Admin.{Url, Outside, Config, Request}

abbrev drop_leading : ℕ → Text → Text
drop_leading b [] = []
drop_leading b (c ∷ s) = if c == b then drop_leading b s else c ∷ s

-- `strings.TrimRight(s, "/")`
pub trim_slashes : Text → Text
trim_slashes s = reverse (drop_leading b'/' (reverse s))

abbrev drop_one : ℕ → Text → Text
drop_one b [] = []
drop_one b (c ∷ s) = if c == b then s else c ∷ s

pub norm_host : Text → Text
norm_host h = to_lower (reverse (drop_one b'.' (reverse h)))

pub default_port : Text → Text
default_port scheme =
    if same (to_lower scheme) (codes "https")
    then codes "443"
    else if same (to_lower scheme) (codes "http")
    then codes "80"
    else []

abbrev ends_with : ℕ → Text → Bool
ends_with b s = has_prefix (reverse s) (b ∷ [])

abbrev tail : Text → Text
tail [] = []
tail (c ∷ s) = s

-- A host without a port, out of its brackets; `none` is the answer false.
bare_host : Text → Option (Text × Text)
unfolding norm_host
bare_host h =
    if has_prefix h (codes "[") && ends_with b']' h
    then (let inner : Text = tail (reverse (tail (reverse h))) in
        if same inner [] then none else some (norm_host inner, []))
    else if contains h (codes ":")
    then none
    else some (norm_host h, [])

with_port : Option (Text × Text) → Text → Option (Text × Text)
unfolding bare_host norm_host
with_port none h = bare_host h
with_port (some (host, port)) h =
    if same port [] || same host [] then none else some (norm_host host, port)

-- The normalised host and the port of a Host header, empty when absent.
pub split_request_host : Outside → Text → Option (Text × Text)
unfolding with_port
split_request_host out given =
    let h : Text = trim_space given in
    if same h [] then none else with_port (out.split_host_port h) h

-- `want` is the configured port, empty for the default one.
pub port_matches : Text → Text → Text → Bool
port_matches want def got =
    if same want [] then same got [] || (not (same def []) && same got def) else same got want

host_matches : Option (Text × Text) → Text → Text → Text → Bool
unfolding port_matches
host_matches none want_host want_port def = false
host_matches (some (host, port)) want_host want_port def =
    same host want_host && port_matches want_port def port

matches_url : Option Url → Outside → Text → Bool
unfolding host_matches norm_host default_port split_request_host
matches_url none out req_host = false
matches_url (some u) out req_host =
    let def : Text = default_port u.scheme in
    not (same u.hostname [])
    && host_matches (split_request_host out req_host) (norm_host u.hostname)
        (if same u.port def then [] else u.port) def

unfoldable pub console_host_allowed : Outside → Text → Text → Bool
unfolding matches_url trim_slashes
console_host_allowed out web_public_url req_host =
    let raw : Text = trim_space web_public_url in
    if same raw [] then true else matches_url (out.parse_url (trim_slashes raw)) out req_host

-- One of the cleaned and the raw path of a request.
pub is_console : Text → Bool
is_console p =
    same p (codes "/admin")
    || has_prefix p (codes "/admin/")
    || same p (codes "/gui")
    || has_prefix p (codes "/gui/")
    || has_prefix p (codes "/node/")

pub is_console_path : Text → Text → Bool
unfolding is_console
is_console_path cleaned raw = any is_console (cleaned ∷ raw ∷ [])

same_origin : Option Url → Option Url → Bool
same_origin (some o) (some w) =
    same (to_lower o.scheme) (to_lower w.scheme) && same (to_lower o.host) (to_lower w.host)
same_origin _ _ = false

pub origins_match : Outside → Text → Text → Bool
unfolding same_origin trim_slashes
origins_match out origin web_public =
    same_origin (out.parse_url (trim_slashes origin)) (out.parse_url (trim_slashes web_public))

pub is_safe : Text → Bool
is_safe method =
    same method (codes "GET") || same method (codes "HEAD") || same method (codes "OPTIONS")

pub check_csrf : Outside → Config → Request → Bool
unfolding origins_match is_safe
check_csrf out c r =
    if is_safe r.method
    then true
    else if not (same r.sec_fetch_site (codes "same-origin"))
    then false
    else if same r.origin [] || same c.web_public_url []
    then false
    else origins_match out r.origin c.web_public_url
