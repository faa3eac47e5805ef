-- ===== src/Admin/Access/Tests.antt =====
-- A console with one session, and an instance of the theorem (internal/api/admin_login.go).
use morpheus_uplink.Base.{
  ◌≡◌, refl, true, false, none, some, [], ◌∷◌, codes, dec_text, lookup, has_prefix, contains,
}
use morpheus_uplink.Adminauth.Lockout.{allow_bearer}
use morpheus_uplink.Adminauth.Factor.{Crypto}
use morpheus_uplink.Admin.{Outside, Config, Request, State}
use morpheus_uplink.Admin.Gate.{console_host_allowed}
use morpheus_uplink.Admin.Access.{bearer, passes, require_admin, cut_prefix}
use morpheus_uplink.Admin.Access.Laws.{require_admin-ByKey_or_ByCookie}

-- Every step has the same code, and a MAC is the normalized code.
abbrev toy : Crypto
toy = record {
  generate = λ secret step. some (codes "123456");
  mac = λ pepper salt n. n;
  unhex = λ t. some t;
  decrypt = λ blob salt. some blob;
  pepper = some (codes "k");
}

abbrev pub outside : Outside
outside = record {
  crypto = toy;
  hash_raw = λ t. some t;
  hash_any = λ t. some t;
  parse_url = λ t. some (record {
    scheme = codes "https";
    host = codes "c.example";
    hostname = codes "c.example";
    port = [];
  });
  split_host_port = λ t. none;
  fingerprint = [];
}

abbrev pub config : Config
config = record {
  admin_password = codes "secret";
  master_key = codes "mk";
  master_key_admin = true;
  web_public_url = codes "https://c.example/";
  reset_2fa = false;
}

abbrev pub console : State
console = record {
  lockout = record {
    per_ip = [];
    bearer_ip = [];
    global = [];
    global_until = 0;
    global_backoff = 60;
    global_last_trip = 0;
  };
  auth = record {
    totp_blob = codes "s";
    totp_salt = [];
    recovery_codes = [];
    password_fingerprint = [];
    enrolled = true;
    last_totp_step = 0;
    break_glass_done = false;
    pending_secret_enc = [];
    pending_expires = 0;
    two_factor_on = true;
  };
  sessions =
      (codes "t", record { created_at = 1; last_seen = 1; ip = codes "1.2.3.4"; step_up_at = 0 })
      ∷ [];
}

abbrev pub with_cookie : Request
with_cookie = record {
  ip = codes "1.2.3.4";
  method = codes "POST";
  basic_auth = false;
  authorization = [];
  cookie = codes "t";
  poll = false;
  sec_fetch_site = codes "same-origin";
  origin = codes "https://c.example";
}

abbrev with_key : Request
with_key = record with_cookie { authorization = codes "Bearer mk" ∷ []; cookie = [] }

key_passes : (require_admin outside config 5 with_key console).1 ≡ passes bearer
unfolding require_admin cut_prefix allow_bearer dec_text lookup
key_passes = refl

-- The default port of the public URL is accepted, another host is not.
host_gate :
    (console_host_allowed outside config.web_public_url (codes "C.Example.") ≡ true)
    × (console_host_allowed outside config.web_public_url (codes "d.example") ≡ false)
unfolding console_host_allowed dec_text has_prefix contains
host_gate = (refl, refl)

require_admin-ByKey_or_ByCookie_example : with_key.basic_auth ≡ false
require_admin-ByKey_or_ByCookie_example =
    (require_admin-ByKey_or_ByCookie outside config 5 with_key console bearer key_passes).0
