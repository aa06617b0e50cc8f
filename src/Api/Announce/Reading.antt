-- ===== src/Api/Announce/Reading.antt =====
-- What the first part of an announcement has found out when it goes on.
use listserver.Api.Announce.{
  AnnounceRequest, check_valid, client_of, parse_ip, read_announcement, read_body, with_defaults,
}
use listserver.Api.Checks.{Looks, bind-Looks, fail_if-Looks, pure-Looks}
use listserver.Api.Http.{World, decoded_body, fail_if}
use listserver.Base.{Bool, Option, false, none, not, refl, some, true, ◌&&◌, ◌≡◌}
use listserver.Config.{Config}
use listserver.Db.Model.{SessionInfo, Sqlite}
use listserver.Db.Monad.{SqliteDb, plain, refresh_error, validation_error}
use listserver.Drawpile.{Peers}
use listserver.Net.{Ip, Net, is_unspecified}
use listserver.Validation.{AnnouncementValidationRules, Verdict, validate_announcement}
use native.Mathlib.Omega.{arith}

module _ ⦃net : Net⦄ ⦃sq : Sqlite⦄ ⦃peers : Peers⦄ (w : World) (db : SqliteDb) (cfg : Config) where
  abbrev pub rules_for : Ip → AnnouncementValidationRules
  rules_for ip = record {
    client_ip = ip;
    allow_well_known_ports = cfg.allow_well_known_ports;
    protocol_whitelist = cfg.protocol_whitelist;
  }

  -- What the first part has found out when it goes on.
  pub record IsRead (r : AnnounceRequest) (ip : Ip) (sent info : SessionInfo) : Type 0 where
    pub from : parse_ip r.remote_addr ≡ some ip
    pub known : is_unspecified ip ≡ false
    pub body : r.body ≡ some sent
    pub not_private : sent.private ≡ false
    pub public_list : cfg.public ≡ true
    pub valid : validate_announcement sent (rules_for ip) ≡ some none
    pub defaults : info ≡ with_defaults cfg ip sent

  client-Looks : (a : Option Ip) → Looks w db (λ ip. a ≡ some ip) (client_of a)
  client-Looks none o = (o, refl)
  client-Looks (some ip) o = (refl, (o, refl))

  decoded-Looks : (a : Option SessionInfo) → Looks w db (λ info. a ≡ some info) (decoded_body a)
  decoded-Looks none o = (o, refl)
  decoded-Looks (some info) o = (refl, (o, refl))

  check_valid-Looks : (e : Verdict) → Looks w db (λ _. e ≡ some none) (check_valid e)
  check_valid-Looks none o = (o, refl)
  check_valid-Looks (some none) o = (refl, (o, refl))
  check_valid-Looks (some (some (plain m))) o = (o, refl)
  check_valid-Looks (some (some (refresh_error m))) o = (o, refl)
  check_valid-Looks (some (some (validation_error name m))) o = (o, refl)

  is_public :
      (private public : Bool)
      → private ≡ false
      → (not private && not public) ≡ false
      → public ≡ true
  is_public private public e h = ground arith

  abbrev pub ReadAs : AnnounceRequest → Ip × SessionInfo → Type 0
  ReadAs r (ip, info) = (sent : SessionInfo) × IsRead r ip sent info

  read_body-Looks :
      (r : AnnounceRequest) (ip : Ip) (sent : SessionInfo)
      → parse_ip r.remote_addr ≡ some ip
      → is_unspecified ip ≡ false
      → r.body ≡ some sent
      → Looks w db (ReadAs r) (read_body cfg ip sent)
  unfolding read_body
  read_body-Looks r ip sent from known body =
      bind-Looks w db (λ _. sent.private ≡ false) (ReadAs r)
        (fail_if sent.private "Private listings not enabled on this server" 404) _
        (fail_if-Looks w db _ _ _)
        λ _ open_one.
          bind-Looks w db (λ _. (not sent.private && not cfg.public) ≡ false) (ReadAs r)
            (fail_if (not sent.private && not cfg.public)
              "Public listings not enabled on this server" 404)
            _ (fail_if-Looks w db _ _ _)
            λ _ listed.
              bind-Looks w db (λ _. validate_announcement sent (rules_for ip) ≡ some none)
                (ReadAs r) (check_valid (validate_announcement sent (rules_for ip))) _
                (check_valid-Looks _)
                λ _ valid.
                  pure-Looks w db (ReadAs r) (ip, with_defaults cfg ip sent)
                    (
                      sent,
                      record {
                        from = from;
                        known = known;
                        body = body;
                        not_private = open_one;
                        public_list = is_public sent.private cfg.public open_one listed;
                        valid = valid;
                        defaults = refl;
                      },
                    )

  pub read-Looks : (r : AnnounceRequest) → Looks w db (ReadAs r) (read_announcement cfg r)
  unfolding read_announcement
  read-Looks r =
      bind-Looks w db (λ ip. parse_ip r.remote_addr ≡ some ip) (ReadAs r)
        (client_of (parse_ip r.remote_addr)) _ (client-Looks (parse_ip r.remote_addr))
        λ ip from.
          bind-Looks w db (λ _. is_unspecified ip ≡ false) (ReadAs r)
            (fail_if (is_unspecified ip) "Server is misconfigured" 500) _ (fail_if-Looks w db _ _ _)
            λ _ known.
              bind-Looks w db (λ sent. r.body ≡ some sent) (ReadAs r) (decoded_body r.body) _
                (decoded-Looks r.body) (λ sent. read_body-Looks r ip sent from known)
