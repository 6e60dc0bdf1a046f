-- ===== src/Credentials/Guarded.antt =====
-- To whom the credential server gives credentials.
use finch_daemon.Prelude.{
  ℕ, ◌≡◌, ◌≢◌, refl, inl, inr, true, String, Option, none, some, List, [], ◌∷◌, arith, nat_eq_iff,
  ◌==◌, Option-cases, Bool-cases,
}
use finch_daemon.Errors.{GoError, plain}
use finch_daemon.Act.{Result, ok, err, Result-cases}
use finch_daemon.Go.Maps.{Map, lookup}
use finch_daemon.Http.{Writer, value, fresh, set_json_type, send_error_response}
use finch_daemon.Credentials.Cache.{Urls, Cache, get_credentials}
use finch_daemon.Credentials.Matching.{Suits, get_credentials_sound}
use finch_daemon.Credentials.Server.{
  Ucred, Conn, Host, validate_peer_creds, build_request_auth_middleware, CredentialRequest,
  get_credentials_handler, respond, check_parent,
}

-- The peer at the other end of the connection runs as the daemon's user and group, and the parent
-- of its parent is the daemon.
pub record IsTrusted (host : Host) (conn : Conn) : Type 0 where
  pub unix : conn.is_unix ≡ true
  pub peer : Ucred
  pub at_socket : conn.ucred ≡ ok peer
  pub same_user : peer.uid ≡ host.own.uid
  pub same_group : peer.gid ≡ host.own.gid
  pub parent : ℕ
  pub has_parent : host.parent peer.pid ≡ ok parent
  pub below_daemon : host.parent parent ≡ ok host.own.pid

module _ (host : Host) where
  check_parent_sound :
      (pid : ℕ)
      → check_parent host (host.parent pid) ≡ none
      → (pp : ℕ) × (host.parent pid ≡ ok pp) × (host.parent pp ≡ ok host.own.pid)
  check_parent_sound pid h = elim (Result-cases (host.parent pid)) [
    | inr (e, failed) ↦ absurd (ground arith)
    | inl (pp, found) ↦ elim (Result-cases (host.parent pp)) [
      | inr (e, failed) ↦ absurd (ground arith)
      | inl (ppp, found') ↦ (pp, found, ground (arith, nat_eq_iff ppp host.own.pid))
    ]
  ]

  -- A connection that passes is trusted.
  pub validate_peer_creds-IsTrusted :
      (conn : Conn) → validate_peer_creds host conn ≡ none → IsTrusted host conn
  unfolding validate_peer_creds
  validate_peer_creds-IsTrusted conn h = elim (Result-cases conn.ucred) [
    | inr (e, failed) ↦ absurd (ground arith)
    | inl (peer, found) ↦
        let (pp, has_parent, below) = check_parent_sound peer.pid (ground arith) in
        record {
          unix = ground arith;
          peer = peer;
          at_socket = found;
          same_user = ground (arith, nat_eq_iff peer.uid host.own.uid);
          same_group = ground (arith, nat_eq_iff peer.gid host.own.gid);
          parent = pp;
          has_parent = has_parent;
          below_daemon = below;
        }
  ]

module _ {A : Type 0} (encode_error : A → Option GoError) (urls : Urls)
    (order : List String → List String) where
  refusal_gives_none :
      (code : ℕ) (e : GoError) (w : Writer A) (a : A)
      → w.body ≡ []
      → (send_error_response code e w).body ≢ value a ∷ []
  unfolding send_error_response
  refusal_gives_none code e w a empty h = ground arith

  respond_gives :
      (r : Result A) (a : A) → (respond encode_error r fresh).body ≡ value a ∷ [] → r ≡ ok a
  respond_gives (err e) a h = absurd (refusal_gives_none _ _ _ a refl h)
  respond_gives (ok b) a h = elim (Option-cases (encode_error b)) [
    | inl fine ↦ ground arith
    | inr (e, bad) ↦ absurd (
        ground (
          arith,
          refusal_gives_none 500 (plain "failed to encode response") (set_json_type fresh) a refl,
        ))
  ]

  handler_gives :
      (req : Result CredentialRequest) (cache : Cache A) (a : A)
      → (get_credentials_handler encode_error urls order req cache fresh).body ≡ value a ∷ []
      → (r : CredentialRequest) × (req ≡ ok r)
        × (get_credentials urls order r.build_id r.server_addr cache ≡ ok a)
  unfolding get_credentials_handler
  handler_gives (err e) cache a h = absurd (refusal_gives_none _ _ _ a refl h)
  handler_gives (ok r) cache a h = elim (Bool-cases (r.build_id == "")) [
    | inl no_id ↦ absurd (
        ground
          (arith, refusal_gives_none 400 (plain "request rejected: missing build ID") fresh a refl))
    | inr id_ ↦ elim (Bool-cases (r.server_addr == "")) [
      | inl no_addr ↦ absurd (
          ground (
            arith,
            refusal_gives_none 400 (plain "request rejected: missing server address") fresh a refl,
          ))
      | inr addr_ ↦ (r, refl, respond_gives _ a (ground arith))
    ]
  ]

  -- When the credential server answers with credentials, the peer of the connection is trusted, and
  -- they are credentials of the build that the request names, under a key that suits its address.
  pub credentials_guarded :
      (host : Host) (conn : Conn) (req : Result CredentialRequest) (cache : Cache A) (a : A)
      → (build_request_auth_middleware host conn
          (get_credentials_handler encode_error urls order req cache)
          fresh).body
        ≡ value a ∷ []
      → IsTrusted host conn
        × (r : CredentialRequest) × (creds : Map A) × (key : String) × (req ≡ ok r)
        × (lookup r.build_id cache ≡ some creds)
        × (lookup key creds ≡ some a)
        × Suits urls r.server_addr key
  unfolding build_request_auth_middleware
  credentials_guarded host conn req cache a h =
      elim (Option-cases (validate_peer_creds host conn)) [
        | inr (e, refused) ↦
            absurd
              (ground (arith, refusal_gives_none 401 (plain "unauthorized access") fresh a refl))
        | inl passes ↦
            let (r, parsed, got) = handler_gives req cache a (ground arith) in
            let (creds, key, found, at_key, suits) =
              get_credentials_sound urls order r.build_id r.server_addr cache a got in
            (
              validate_peer_creds-IsTrusted host conn passes,
              r,
              creds,
              key,
              parsed,
              found,
              at_key,
              suits,
            )
      ]
