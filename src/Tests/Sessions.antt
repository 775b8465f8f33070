-- ===== src/Tests/Sessions.antt =====
-- Sessions and passwords at concrete inputs.
use dmail.Prelude.{◌≡◌, refl, some, ok}
use dmail.Prelude.Bytes.{codes}
use dmail.Auth.{hash_password}
use dmail.Tests.Toys.{toy_ciphers}

hashed : hash_password toy_ciphers (codes "pw") (some (codes "s")) ≡ ok (codes "pws", codes "s")
unfolding hash_password
hashed = refl
