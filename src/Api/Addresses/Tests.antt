-- ===== src/Api/Addresses/Tests.antt =====
-- A forged header, and an instance of the theorem on apps/api/app/core/net.py.
use sahucodex.Prelude.{◌≤◌, ◌≡◌, refl, [], ◌∷◌, ◌++◌, some, arith, length}
use sahucodex.Prelude.Texts.{Text, codes}
use sahucodex.Strings.{strip, split_at}
use sahucodex.Api.Addresses.{client_ip_from_scope, hops_of}
use sahucodex.Api.Addresses.Spoofing.{client_ip_from_scope_unforgeable}

-- Two proxies have appended the client's address and that of the first of them.
abbrev appended : Text
appended = codes " 9.9.9.9, 10.0.0.1"

two_hops : 2 ≤ length (hops_of appended)
unfolding hops_of strip split_at
two_hops = omega arith

client_is_seen :
    client_ip_from_scope
      (some (codes "10.0.0.2"))
      ((codes "x-forwarded-for", codes "1.1.1.1," ++ appended) ∷ [])
      2
    ≡ codes "9.9.9.9"
unfolding client_ip_from_scope strip split_at
client_is_seen = refl

client_ip_from_scope_unforgeable_example :
    client_ip_from_scope
      (some (codes "10.0.0.2"))
      ((codes "x-forwarded-for", codes "1.1.1.1" ++ 44 ∷ appended) ∷ [])
      2
    ≡ client_ip_from_scope (some (codes "10.0.0.2")) ((codes "x-forwarded-for", appended) ∷ []) 2
client_ip_from_scope_unforgeable_example =
    client_ip_from_scope_unforgeable (some (codes "10.0.0.2")) (codes "1.1.1.1") appended [] 2
      two_hops
