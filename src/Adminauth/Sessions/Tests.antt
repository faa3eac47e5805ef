-- ===== src/Adminauth/Sessions/Tests.antt =====
-- Sessions of one admin (internal/adminauth/session.go), and instances of the theorems.
use morpheus_uplink.Base.{◌≡◌, refl, true, Option, some, [], Text, codes, lookup, insert, dec_text}
use morpheus_uplink.Adminauth.Lockout.{hour}
use morpheus_uplink.Adminauth.Sessions.{Session, Store, create, look_up}
use morpheus_uplink.Adminauth.Sessions.Laws.{look_up-IsLive}

-- Tokens that are their own hashes.
abbrev plain : Text → Option Text
plain raw = some raw

abbrev first_login : Session
first_login = record { created_at = 1; last_seen = 1; ip = codes "10.0.0.7"; step_up_at = 0 }

abbrev one : Store
one = create [] 1 (codes "aa") (codes "10.0.0.7")

one_found : lookup (codes "aa") one ≡ some first_login
unfolding create dec_text lookup insert
one_found = refl

look_up-IsLive_example :
    lookup (codes "aa") (look_up plain one hour (codes "aa") true).0
    ≡ (look_up plain one hour (codes "aa") true).1
look_up-IsLive_example =
    (look_up-IsLive plain one hour (codes "aa") (codes "aa") true first_login (codes "cc") refl
      one_found).1
