-- ===== src/System/Bounded.antt =====
-- How many requests a login sends, and what one that succeeds has seen.
use finch_daemon.Prelude.{
  ℕ, zero, suc, ◌+◌, ◌*◌, ◌/◌, ◌≤◌, String, ◌≡◌, refl, ap, sym, ◌∙◌, inl, inr, Option, none, some,
  List, [], ◌∷◌, ◌++◌, map, ◌==◌, Bool, true, false, nat_eq, nat_eq_iff, arith, Bool-cases,
}
use finch_daemon.Errors.{GoError}
use finch_daemon.Act.{Result, ok, Act, and_then, Result-cases}
use finch_daemon.Go.Maps.{lookup}
use finch_daemon.System.Login.{
  RegistryHost, Request, LoginBackend, token_or_empty, new_request, sent_request, check_code,
  trials, login_reg_host, login_hosts, registry_hosts, auth, or_default, creds_for,
}

module _ {W A O : Type 0} (b : LoginBackend W A O) where
  -- The world after a response with a code from 200 to 299 of the host.
  abbrev pub IsWelcomed : RegistryHost → W → Type 0
  IsWelcomed rh w' =
      (req : Request) × (w : W) × (resp : A) × ((b.do_request rh req w).0 ≡ ok resp)
      × (b.status_code resp / 100 ≡ 2)
      × ((b.do_request rh req w).1 ≡ w')

  -- A host of the list welcomed the login, and the token is the one fetched of it.
  abbrev pub IsLoggedIn : List RegistryHost → String → Type 0
  IsLoggedIn hosts token =
      (before : List RegistryHost) × (rh : RegistryHost) × (after : List RegistryHost) × (hosts
        ≡ before ++ rh ∷ after)
      × ((w : W) × IsWelcomed rh w × (token ≡ token_or_empty (lookup rh.host (b.refresh_tokens w))))

  check_code-eq-ok : (code : ℕ) → check_code b code ≡ ok tt → code / 100 ≡ 2
  check_code-eq-ok code h = elim (Bool-cases (nat_eq (code / 100) 2)) [
    | inl two ↦ (nat_eq_iff (code / 100) 2).0 two
    | inr other ↦ absurd (ground arith)
  ]

  sent_request-eq-ok :
      (rh : RegistryHost) (w : W) (resp : A)
      → (sent_request b rh w).0 ≡ ok resp
      → (req : Request) × (w1 : W) × ((b.do_request rh req w1).0 ≡ ok resp)
        × ((sent_request b rh w).1 ≡ (b.do_request rh req w1).1)
  unfolding sent_request
  sent_request-eq-ok rh w resp h = elim (Result-cases (new_request b rh)) [
    | inr (e, failed) ↦ absurd (ground arith)
    | inl (req, made) ↦ elim (Result-cases (b.authorize rh req w).0) [
      | inr (e, failed) ↦ absurd (ground arith)
      | inl (with_auth, authorized) ↦
          elim (Result-cases (b.do_request rh with_auth (b.authorize rh req w).1).0) [
            | inr (e, failed) ↦ absurd (ground arith)
            | inl (a, done) ↦ (with_auth, (b.authorize rh req w).1, ground arith, ground arith)
          ]
    ]
  ]

  trials-eq-ok :
      (n : ℕ) (rh : RegistryHost) (resps : List A) (w w' : W)
      → (trials b n rh resps w).0 ≡ ok tt
      → (trials b n rh resps w).1 ≡ w'
      → IsWelcomed rh w'
  unfolding trials
  trials-eq-ok zero rh resps w w' h at = absurd (ground arith)
  trials-eq-ok (suc n) rh resps w w' h at = elim (Result-cases (sent_request b rh w).0) [
    | inr (e, failed) ↦ absurd (ground arith)
    | inl (resp, got) ↦
        let w1 = (sent_request b rh w).1 in
        let all = resps ++ resp ∷ [] in
        elim (Bool-cases (nat_eq (b.status_code resp) 401)) [
          | inr other ↦
              let (req, w0, done, ends) = sent_request-eq-ok rh w resp got in
              (
                req,
                w0,
                resp,
                done,
                check_code-eq-ok (b.status_code resp) (ground arith),
                sym ends ∙ ground arith,
              )
          | inl again ↦ elim (Result-cases (b.add_responses rh all w1).0) [
            | inr (e, failed) ↦ absurd (ground arith)
            | inl (t, added) ↦
                trials-eq-ok n rh all (b.add_responses rh all w1).1 w' (ground arith) (ground arith)
          ]
        ]
  ]

  login_reg_host-eq-ok :
      (rh : RegistryHost) (w : W)
      → (login_reg_host b rh w).0 ≡ ok tt
      → IsWelcomed rh (login_reg_host b rh w).1
  unfolding login_reg_host
  login_reg_host-eq-ok rh w h = elim (Bool-cases rh.has_authorizer) [
    | inr no_ ↦ absurd (ground arith)
    | inl yes_ ↦ trials-eq-ok 3 rh [] w (login_reg_host b rh w).1 (ground arith) (ground arith)
  ]

  one_more :
      (rh : RegistryHost) (rhs : List RegistryHost) (token : String)
      → IsLoggedIn rhs token
      → IsLoggedIn (rh ∷ rhs) token
  one_more rh rhs token (before, found, after, split_, rest) =
      (rh ∷ before, found, after, ap (λ xs. rh ∷ xs) split_, rest)

  login_hosts-IsLoggedIn :
      (rhs : List RegistryHost) (last : Option GoError) (w : W) (token : String)
      → (login_hosts b rhs last w).0 ≡ ok token
      → IsLoggedIn rhs token
  unfolding login_hosts
  login_hosts-IsLoggedIn [] last w token h = absurd (ground arith)
  login_hosts-IsLoggedIn (rh ∷ rhs) last w token h =
      let w1 = (login_reg_host b rh w).1 in
      elim (Result-cases (login_reg_host b rh w).0) [
        | inl (tt, welcomed) ↦
            ([], rh, rhs, refl, (w1, login_reg_host-eq-ok rh w welcomed, ground arith))
        | inr (e, failed) ↦
            one_more rh rhs token (login_hosts-IsLoggedIn rhs (some e) w1 token (ground arith))
      ]

abbrev one : Bool → ℕ
one true = 1
one false = 0

-- `n` times, where the test holds
abbrev hits : ℕ → Bool → ℕ
hits zero hit = 0
hits (suc n) hit = one hit + hits n hit

-- How often a text stands in a list.
abbrev pub times : String → List String → ℕ
times name [] = 0
times name (s ∷ ss) = one (s == name) + times name ss

-- A count that goes up by one at a call of Do for a host with the name, and stays at other calls.
module _ {W A O : Type 0} (b : LoginBackend W A O) (name : String) (sent : W → ℕ)
    (authorize-sends : (rh : RegistryHost) (req : Request) (w : W)
      → sent (b.authorize rh req w).1 ≡ sent w)
    (do_request-sends : (rh : RegistryHost) (req : Request) (w : W)
      → sent (b.do_request rh req w).1 ≡ one (rh.host == name) + sent w)
    (add_responses-sends : (rh : RegistryHost) (resps : List A) (w : W)
      → sent (b.add_responses rh resps w).1 ≡ sent w) where
  sent_request-sends :
      (rh : RegistryHost) (w : W) → sent (sent_request b rh w).1 ≤ one (rh.host == name) + sent w
  unfolding sent_request
  sent_request-sends rh w = elim (Result-cases (new_request b rh)) [
    | inr (e, failed) ↦ ground arith
    | inl (req, made) ↦
        let w1 = (b.authorize rh req w).1 in
        elim (Result-cases (b.authorize rh req w).0) [
          | inr (e, failed) ↦ ground (arith, authorize-sends rh req w)
          | inl (with_auth, authorized) ↦
              ground (arith, authorize-sends rh req w, do_request-sends rh with_auth w1)
        ]
  ]

  trials-sends :
      (n : ℕ) (rh : RegistryHost) (resps : List A) (w : W)
      → sent (trials b n rh resps w).1 ≤ sent w + hits n (rh.host == name)
  unfolding trials
  trials-sends zero rh resps w = ground arith
  trials-sends (suc n) rh resps w =
      let w1 = (sent_request b rh w).1 in
      elim (Result-cases (sent_request b rh w).0) [
        | inr (e, failed) ↦ ground (arith, sent_request-sends rh w)
        | inl (resp, got) ↦
            let all = resps ++ resp ∷ [] in
            ground (
              arith,
              sent_request-sends rh w,
              add_responses-sends rh all w1,
              trials-sends n rh all (b.add_responses rh all w1).1,
            )
      ]

  login_reg_host-sends :
      (rh : RegistryHost) (w : W)
      → sent (login_reg_host b rh w).1 ≤ sent w + 3 * one (rh.host == name)
  unfolding login_reg_host
  login_reg_host-sends rh w = ground (arith, trials-sends 3 rh [] w)

  login_hosts-sends :
      (rhs : List RegistryHost) (last : Option GoError) (w : W)
      → sent (login_hosts b rhs last w).1
        ≤ sent w + 3 * times name (map (λ (rh : RegistryHost). rh.host) rhs)
  unfolding login_hosts
  login_hosts-sends [] last w = ground arith
  login_hosts-sends (rh ∷ rhs) last w =
      let w1 = (login_reg_host b rh w).1 in
      elim (Result-cases (login_reg_host b rh w).0) [
        | inl (t, done) ↦ ground (arith, login_reg_host-sends rh w)
        | inr (e, failed) ↦
            ground (arith, login_reg_host-sends rh w, login_hosts-sends rhs (some e) w1)
      ]

abbrev beside : {W B : Type 0} → Result B × W → List String → Result B × (W × List String)
beside (r, w) log = (r, (w, log))

-- The same backend, which beside notes the host of each call of Do.
abbrev pub noting : {W A O : Type 0} → LoginBackend W A O → LoginBackend (W × List String) A O
noting b = record {
  parse = b.parse;
  new_host_options = λ host creds (w, log). beside (b.new_host_options host creds w) log;
  configure_hosts = λ ho host (w, log). beside (b.configure_hosts ho host w) log;
  refresh_tokens = λ (w, log). b.refresh_tokens w;
  url_string = b.url_string;
  check_url = b.check_url;
  authorize = λ rh req (w, log). beside (b.authorize rh req w) log;
  do_request = λ rh req (w, log). beside (b.do_request rh req w) (rh.host ∷ log);
  add_responses = λ rh resps (w, log). beside (b.add_responses rh resps w) log;
  status_code = b.status_code;
  unexpected_status = b.unexpected_status;
  quoted = b.quoted;
}

from_zero : (m n : ℕ) → m ≤ 0 + n → m ≤ n
from_zero m n h = omega arith

module _ {W A O : Type 0} (b : LoginBackend W A O) where
  registry_hosts-noting :
      (username password server_addr : String) (w : W)
      → registry_hosts (noting b) username password server_addr (w, [])
        ≡ beside (registry_hosts b username password server_addr w) []
  unfolding registry_hosts
  registry_hosts-noting username password server_addr w =
      elim (Result-cases (b.parse (or_default server_addr))) [
        | inr (e, failed) ↦ rw (registry_hosts, failed) refl
        | inl (host, parsed) ↦
            let creds = creds_for b host username password in
            let w1 = (b.new_host_options host.0 creds w).1 in
            elim (Result-cases (b.new_host_options host.0 creds w).0) [
              | inr (e, failed) ↦ rw (registry_hosts, parsed, failed) refl
              | inl (ho, made) ↦ elim (Result-cases (b.configure_hosts ho host.0 w1).0) [
                | inr (e, failed) ↦ rw (registry_hosts, parsed, made, failed) refl
                | inl (hosts, configured) ↦ rw (registry_hosts, parsed, made, configured) refl
              ]
            ]
      ]

  -- A login whose hosts are configured calls Do at most three times for each host: for every name,
  -- at most three times as often as hosts of the list have it. If it succeeds, a host of the list has
  -- answered a request with a code from 200 to 299, and the token is what was fetched for that host
  -- by then, empty if nothing was.
  pub auth_lem :
      (username password server_addr : String) (w w1 : W) (hosts : List RegistryHost)
      → registry_hosts b username password server_addr w ≡ (ok hosts, w1)
      → ((name : String)
          → times name (auth (noting b) username password server_addr (w, [])).1.1
            ≤ 3 * times name (map (λ (rh : RegistryHost). rh.host) hosts))
        × ((token : String)
            → (auth b username password server_addr w).0 ≡ ok token
            → IsLoggedIn b hosts token)
  unfolding auth
  auth_lem username password server_addr w w1 hosts configured =
      let after : List RegistryHost → Act W String = λ hosts. login_hosts b hosts none in
      let noted : registry_hosts (noting b) username password server_addr (w, [])
          ≡ (ok hosts, (w1, [])) =
        registry_hosts-noting username password server_addr w ∙ ap (λ r. beside r []) configured in
      (
        λ name.
            let bound =
              login_hosts-sends (noting b) name (λ v. times name v.1) (λ rh req v. refl)
                (λ rh req v. refl) (λ rh resps v. refl) hosts none (w1, []) in
            rw noted (from_zero _ _ bound),
        λ token h. login_hosts-IsLoggedIn b hosts none w1 token (
            sym (ap (λ (r : Result (List RegistryHost) × W). (and_then r.0 after r.1).0) configured)
            ∙ h),
      )
