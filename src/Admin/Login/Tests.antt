-- ===== src/Admin/Login/Tests.antt =====
-- A login and a step-up on a small console, and instances of the theorems (internal/api/admin_login.go,
-- internal/api/stepup.go).
use morpheus_uplink.Base.{◌⊎◌, true, Option, some, [], codes, ◌≡◌, refl, dec_text, lookup}
use morpheus_uplink.Adminauth.Lockout.{allow}
use morpheus_uplink.Admin.Access.Tests.{outside, config, console, with_cookie}
use morpheus_uplink.Admin.Login.{LoginRequest, login, refused, step_up}
use morpheus_uplink.Admin.Login.Laws.{Kept, Begun, login-Begun}
use morpheus_uplink.Admin.Login.StepUp.{Stepped, step_up-Stepped}

abbrev body : Option LoginRequest
body = some (record { password = codes "secret"; code = codes "123 456" })

-- The right password without the code is refused.
no_code :
    (login outside config true
      (some (codes "new"))
      3000
      (codes "1.2.3.4")
      (some (record { password = codes "secret"; code = [] }))
      console).1
    ≡ refused
unfolding login allow dec_text lookup
no_code = refl

login-Begun_example :
    Kept console
      (login outside config true (some (codes "new")) 3000 (codes "1.2.3.4") body console)
    ⊎ Begun outside config true
        (some (codes "new"))
        3000
        (codes "1.2.3.4")
        body
        console
        (login outside config true (some (codes "new")) 3000 (codes "1.2.3.4") body console).0
login-Begun_example =
    login-Begun outside config true (some (codes "new")) 3000 (codes "1.2.3.4") body console

step_up-Stepped_example :
    Stepped outside config true 3000 body console.auth
      (step_up outside config true 3000 with_cookie body console)
step_up-Stepped_example = step_up-Stepped outside config true 3000 with_cookie body console
