-- ===== src/Admin.antt =====
-- The door of the admin console (package internal/api): which requests reach an admin handler, and how a
-- session begins and steps up. The admin components that the handlers call are those of Adminauth. The
-- client's address, the parse of a URL, the decoding and hashing of a cookie and the decoding of a body
-- are given; headers of answers and audit events are left out.
pub mod Gate
pub mod Access
pub mod Login
use morpheus_uplink.Base.{ℕ, Bool, List, Option, Text}
use morpheus_uplink.Adminauth.Lockout.{Lockout}
use morpheus_uplink.Adminauth.Factor.{AuthState, Crypto}
use morpheus_uplink.Adminauth.Sessions.{Store}

pub record Url : Type 0 where
  pub scheme : Text
  pub host : Text
  pub hostname : Text
  pub port : Text

pub record Outside : Type 0 where
  pub crypto : Crypto
  pub hash_raw : Text → Option Text  -- the hash of a token of 32 bytes in hex
  pub hash_any : Text → Option Text  -- the hash of any token in hex
  pub parse_url : Text → Option Url  -- url.Parse
  pub split_host_port : Text → Option (Text × Text)  -- net.SplitHostPort
  pub fingerprint : Text  -- that of the configured password

pub record Config : Type 0 where
  pub admin_password : Text
  pub master_key : Text
  pub master_key_admin : Bool
  pub web_public_url : Text
  pub reset_2fa : Bool

pub record Request : Type 0 where
  pub ip : Text
  pub method : Text
  pub basic_auth : Bool
  pub authorization : List Text
  pub cookie : Text
  pub poll : Bool
  pub sec_fetch_site : Text
  pub origin : Text

pub record State : Type 0 where
  pub lockout : Lockout
  pub auth : AuthState
  pub sessions : Store
