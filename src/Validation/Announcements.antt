-- ===== src/Validation/Announcements.antt =====
-- When `ValidateAnnouncement` accepts.
use listserver.Base.{
  Bool, In, List, Option, Text, [], any-In, any-witness, ap, arith, false, inl, inr, length, negsuc,
  none, pos, refl, some, subst, true, ℤ, ◌↔◌, ◌∷◌, ◌≡◌, ◌≤◌, ◌⊎◌,
}
use listserver.Db.Model.{SessionInfo}
use listserver.Net.{Ip, Net, ip_equal}
use listserver.Regex.Language.{Lang, re_match_iff}
use listserver.Validation.{
  AnnouncementValidationRules, check_hostname, check_resolved, hostname_re, is_local_ip,
  is_valid_protocol, validate_announcement, validate_hostname, validate_rest,
}

-- The port is 0, for the default, or in the range that the rules allow.
abbrev pub IsValidPort : Bool → ℤ → Type 0
IsValidPort well_known (pos p) = (p ≤ 65535) × ((well_known ≡ true) ⊎ (p ≡ 0) ⊎ (1024 ≤ p))
IsValidPort well_known (negsuc p) = ⊥

module _ ⦃net : Net⦄ where
  -- The client is local, or its address is one of these.
  abbrev pub Resolves : Bool → Ip → List Ip → Type 0
  Resolves local client_ip ips =
      (local ≡ true) ⊎ ((ip : Ip) × In ip ips × (ip_equal ip client_ip ≡ true))

  -- The conditions on an announced host: none given by a client that is not local, or a name of the
  -- right form that resolves, for a client that is not local to the client's own address.
  abbrev pub IsValidName : Bool → Text → Ip → Type 0
  IsValidName local [] client_ip = local ≡ false
  IsValidName local (c ∷ hostname) client_ip =
      Lang hostname_re (c ∷ hostname)
      × ((ips : List Ip) × (net.lookup_ip (c ∷ hostname) ≡ some ips) × Resolves local client_ip ips)

  -- The interfaces of the machine tell whether the client is local.
  abbrev pub IsValidHost : Text → Ip → Type 0
  IsValidHost hostname client_ip =
      (local : Bool) × (is_local_ip client_ip ≡ some local) × IsValidName local hostname client_ip

  pub record IsValidAnnouncement (session : SessionInfo) (rules : AnnouncementValidationRules)
      : Type 0 where
    pub host_ok : IsValidHost session.host rules.client_ip
    pub port_ok : IsValidPort rules.allow_well_known_ports session.port
    pub id_ok : (1 ≤ length session.id) × (length session.id ≤ 36)
    pub protocol_ok : is_valid_protocol session.protocol rules.protocol_whitelist ≡ true

  resolved_sound :
      (local : Bool) (client_ip : Ip) (ips : List Ip)
      → check_resolved local client_ip (some ips) ≡ none
      → Resolves local client_ip ips
  unfolding check_resolved
  resolved_sound true client_ip ips e = inl refl
  resolved_sound false client_ip ips e =
      inr (any-witness (λ ip. ip_equal ip client_ip) ips (ground arith))

  resolved_complete :
      (local : Bool) (client_ip : Ip) (ips : List Ip)
      → Resolves local client_ip ips
      → check_resolved local client_ip (some ips) ≡ none
  unfolding check_resolved
  resolved_complete local client_ip ips (inl l) = rw l
  resolved_complete local client_ip ips (inr (ip, i, same)) =
      let found = any-In (λ x. ip_equal x client_ip) ips ip i same in ground arith

  resolved_iff :
      (local : Bool) (client_ip : Ip) (r : Option (List Ip))
      → (check_resolved local client_ip r ≡ none)
        ↔ ((ips : List Ip) × (r ≡ some ips) × Resolves local client_ip ips)
  unfolding check_resolved
  resolved_iff local client_ip none = ground arith
  resolved_iff local client_ip (some ips) = (
    λ e. (ips, refl, resolved_sound local client_ip ips e),
    λ (x, q, h). resolved_complete local client_ip ips (subst (Resolves local client_ip) (cc) h),
  )

  check_hostname_iff :
      (local : Bool) (hostname : Text) (client_ip : Ip)
      → (check_hostname local hostname client_ip ≡ none) ↔ IsValidName local hostname client_ip
  unfolding check_hostname
  check_hostname_iff local [] client_ip = ground arith
  check_hostname_iff local (c ∷ hostname) client_ip = grind (
    arith,
    resolved_iff local client_ip (net.lookup_ip (c ∷ hostname)),
    re_match_iff hostname_re (c ∷ hostname),
  )

  pub validate_hostname_iff :
      (hostname : Text) (client_ip : Ip)
      → (validate_hostname hostname client_ip ≡ some none) ↔ IsValidHost hostname client_ip
  unfolding validate_hostname
  validate_hostname_iff hostname client_ip = go (is_local_ip client_ip)
    where
      go :
          (l : Option Bool)
          → ((elim l [ none ↦ none | some local ↦ some (check_hostname local hostname client_ip) ])
              ≡ some none)
            ↔ ((local : Bool) × (l ≡ some local) × IsValidName local hostname client_ip)
      go none = ((λ e. cc), (λ (local, e, h). cc))
      go (some local) =
          let named = check_hostname_iff local hostname client_ip in
          (
            (λ e. (local, refl, named.0 (cc))),
            (λ (local', e, h).
                ap some (named.1 (subst (λ b. IsValidName b hostname client_ip) (cc) h))),
          )

  validate_rest_iff :
      (session : SessionInfo) (rules : AnnouncementValidationRules) (port : ℤ)
      → session.port ≡ port
      → (validate_rest session rules ≡ none) ↔ (
          IsValidPort rules.allow_well_known_ports port
          × ((1 ≤ length session.id) × (length session.id ≤ 36))
          × (is_valid_protocol session.protocol rules.protocol_whitelist ≡ true))
  unfolding validate_rest
  validate_rest_iff session rules (pos p) e = ground arith
  validate_rest_iff session rules (negsuc p) e = ground arith

  -- An announcement passes exactly if its host is valid for the client, its port is 0 or one that
  -- the rules allow, its id has 1 to 36 bytes, and its protocol is supported.
  pub validate_announcement_iff :
      (session : SessionInfo) (rules : AnnouncementValidationRules)
      → (validate_announcement session rules ≡ some none) ↔ IsValidAnnouncement session rules
  unfolding validate_announcement
  validate_announcement_iff session rules =
      let host = validate_hostname_iff session.host rules.client_ip in
      let others = validate_rest_iff session rules session.port refl in
      (
        λ e.
            let h : (validate_hostname session.host rules.client_ip ≡ some none)
                × (validate_rest session rules ≡ none) =
              ground arith in
            let r = others.0 h.1 in
            record { host_ok = host.0 h.0; port_ok = r.0; id_ok = r.1; protocol_ok = r.2 },
        λ v. rw (host.1 v.host_ok) (ap some (others.1 (v.port_ok, v.id_ok, v.protocol_ok))),
      )

  -- Whatever bytes a session id consists of, only its length matters: the comment in
  -- `ValidateAnnouncement` restricts them to letters and '-'.
  validate_announcement_any_id :
      (session : SessionInfo) (rules : AnnouncementValidationRules) (id : Text)
      → length id ≡ length session.id
      → validate_announcement (record session { id = id }) rules
        ≡ validate_announcement session rules
  unfolding validate_announcement validate_rest
  validate_announcement_any_id session rules id e = rw e
