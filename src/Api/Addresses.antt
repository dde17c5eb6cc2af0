-- ===== src/Api/Addresses.antt =====
-- apps/api/app/core/net.py: the address of a client behind trusted proxies.
pub mod Spoofing
mod Tests
use sahucodex.Prelude.{
  ℕ, ◌-◌, Bool, true, false, not, List, [], ◌∷◌, map, Option, none, some, leb, ◌==◌, if◌then◌else◌,
  keep_if, first_of?, length, get_elem?,
}
use sahucodex.Prelude.Texts.{Text, codes, eq_text}
use sahucodex.Strings.{strip, split_at}

abbrev pub is_text : Text → Bool
is_text [] = false
is_text (c ∷ text) = true

-- `[part.strip() for part in value.split(",") if part.strip()]`
unfoldable pub hops_of : Text → List Text
unfolding strip split_at
hops_of value = keep_if is_text (map strip (split_at 44 value))

abbrev pub or_unknown : Option Text → Text
or_unknown none = codes "unknown"
or_unknown (some ip) = ip

abbrev pub or_peer : Option Text → Text → Text
or_peer none peer = peer
or_peer (some ip) peer = ip

-- `hops[-count]` when there are so many, the peer otherwise.
abbrev pub hop_from_right : ℕ → List Text → Text → Text
hop_from_right count hops peer =
    if leb count (length hops) then or_peer (get_elem? hops (length hops - count)) peer else peer

-- The first header of that name decides.
unfoldable pub client_ip_from_scope : Option Text → List (Text × Text) → ℕ → Text
unfolding hops_of
client_ip_from_scope client headers trusted_proxy_count =
    let peer = or_unknown client in
    if trusted_proxy_count == 0
    then peer
    else elim (first_of? (λ h. eq_text h.0 (codes "x-forwarded-for")) headers) [
      | none ↦ peer
      | some h ↦ hop_from_right trusted_proxy_count (hops_of h.1) peer
    ]
