-- ===== src/Ingress/Access.antt =====
-- Who may submit to crates/ingress-smtp: the whitelist of the configuration, and the need to log in.
use oxid_relay.Prelude.{
  ◌≡◌, ◌↔◌, ◌⊎◌, inl, inr, true, false, Option-cases, none, some, List, [], ◌∷◌, arith,
  if◌then◌else◌,
}
use oxid_relay.Prelude.Text.{Text}
use oxid_relay.Config.{Config}
use oxid_relay.Ingress.{
  Outside, RelayHandler, Response, context, is_allowed, parse_entry, parse_whitelist,
}
use oxid_relay.Ingress.Session.{is_none, mail, service_not_available}

module _ {Ip Net Regex W : Type 0} (o : Outside Ip Net Regex W) where
  -- An entry covers an address: as a range that contains it, or, where it is no range, as a bare
  -- address of which the network of the full prefix contains it.
  abbrev pub Covers : Text → Ip → Type 0
  Covers entry ip =
      ((net : Net) × (o.parse_net entry ≡ some net) × (o.net_contains net ip ≡ true))
      ⊎ ((bare : Ip) × (net : Net) × (o.parse_net entry ≡ none)
          × (o.parse_ip entry ≡ some bare)
          × (o.new_net bare (if o.is_ipv4 bare then 32 else 128) ≡ some net)
          × (o.net_contains net ip ≡ true))

  abbrev pub Listed : List Text → Ip → Type 0
  Listed [] ip = ⊥
  Listed (entry ∷ entries) ip = Covers entry ip ⊎ Listed entries ip

  parse_entry_iff :
      (entry : Text) (ip : Ip)
      → ((net : Net) × (parse_entry o entry ≡ some net) × (o.net_contains net ip ≡ true))
        ↔ Covers entry ip
  unfolding parse_entry
  parse_entry_iff entry ip = elim (Option-cases (o.parse_net entry)) [
    | inr (net, e) ↦ ground arith
    | inl e ↦ elim (Option-cases (o.parse_ip entry)) [
      | inl f ↦ ground arith
      | inr (bare, f) ↦ ground arith
    ]
  ]

  is_allowed_iff :
      (entries : List Text) (ip : Ip)
      → (is_allowed o (parse_whitelist o entries) ip ≡ true) ↔ Listed entries ip
  unfolding parse_whitelist is_allowed
  is_allowed_iff [] ip = (λ h. absurd (ground arith), λ h. absurd h)
  is_allowed_iff (entry ∷ entries) ip = elim (Option-cases (parse_entry o entry)) [
    | inl e ↦ ground (arith, parse_entry_iff entry ip, is_allowed_iff entries ip)
    | inr (net, e) ↦ ground (arith, parse_entry_iff entry ip, is_allowed_iff entries ip)
  ]

  -- Under a configuration, MAIL is answered with OK exactly when an entry of the whitelist covers
  -- the address of the client, and anonymous submission is on or the session has logged in. Exactly
  -- where no entry covers the address the answer is 421, with the session left as it is.
  pub mail-Listed :
      (config : Config) (ip : Ip) (domain from : Text) (h : RelayHandler)
      → (((mail o (context o config) ip domain from h).0 ≡ Response.ok) ↔ (
          Listed config.security.ip_whitelist ip
          × ((config.auth.anonymous.enabled ≡ true) ⊎ (is_none h.authenticated_as ≡ false))))
        × ((mail o (context o config) ip domain from h ≡ (service_not_available, h))
            ↔ (Listed config.security.ip_whitelist ip → ⊥))
  unfolding mail context
  mail-Listed config ip domain from h =
      ground (arith, is_allowed_iff config.security.ip_whitelist ip)
