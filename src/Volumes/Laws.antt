-- ===== src/Volumes/Laws.antt =====
-- What the handlers of api/handlers/volume answer.
use finch_daemon.Prelude.{
  ℕ, String, ◌≡◌, refl, inl, inr, false, none, some, List, [], ◌∷◌, if◌then◌else◌, arith,
}
use finch_daemon.Errors.{GoError, message, as_err_with_type}
use finch_daemon.Act.{Result, ok, err, Result-cases}
use finch_daemon.Go.Strings.{is_empty}
use finch_daemon.Go.Strconv.{parse_bool}
use finch_daemon.Http.{Body, error_body, value}
use finch_daemon.Http.Stream.{contains}
use finch_daemon.Volumes.Service.{VolumeBackend}
use finch_daemon.Volumes.Handlers.{
  FilterJsonRequest, Reply, volumes, list_handler, remove_handler, parsed_force,
}

-- The code for nerdctl's error by its text: not found, then in use, then not removable.
abbrev pub removal_verdict : GoError → ℕ
removal_verdict e =
    if contains (message e) "not found"
    then 404
    else if contains (message e) "in use"
    then 409
    else if contains (message e) "could not be removed"
    then 400
    else 500

module _ {W V : Type 0} (b : VolumeBackend W V) where
  abbrev pub list_body : Result (List V) → Body (Reply V)
  list_body (ok vols) = value (volumes vols)
  list_body (err e) = error_body (message e)

  -- A list request whose filters are there and do not parse is answered twice: the error with status
  -- 500, and then, after a second WriteHeader, what a list with no filter gives.
  pub list_answers_twice :
      (unmarshal : String → Result FilterJsonRequest) (raw : String) (w : W) (e : GoError)
      → is_empty raw ≡ false
      → unmarshal raw ≡ err e
      → ((list_handler b unmarshal raw w).code ≡ some 500)
        × ((list_handler b unmarshal raw w).header_calls ≡ 2)
        × ((list_handler b unmarshal raw w).body
            ≡ error_body (message e) ∷ list_body (b.list_volumes [] w) ∷ [])
  unfolding list_handler
  list_answers_twice unmarshal raw w e given bad = elim (Result-cases (b.list_volumes [] w)) [
    | inl (vols, listed) ↦
        (rw (bad, given, listed) refl, rw (bad, given, listed) refl, rw (bad, given, listed) refl)
    | inr (f, failed) ↦
        (rw (bad, given, failed) refl, rw (bad, given, failed) refl, rw (bad, given, failed) refl)
  ]

  abbrev pub removal_code : Result (Unit {0}) → ℕ
  removal_code (ok u) = 204
  removal_code (err e) = removal_verdict e

  -- A removal makes the one call of nerdctl and answers 204, or by the text of nerdctl's error, if
  -- that error has no type of the daemon: 404, 409, 400 or 500.
  pub remove_handler_lem :
      (name force : String) (w : W)
      → ((e : GoError)
          → (b.remove_volume name (parsed_force (parse_bool force)) w).0 ≡ err e
          → as_err_with_type e ≡ none)
      → ((remove_handler b name force w).1
          ≡ (b.remove_volume name (parsed_force (parse_bool force)) w).1)
        × ((remove_handler b name force w).0.code
            ≡ some (removal_code (b.remove_volume name (parsed_force (parse_bool force)) w).0))
  unfolding remove_handler
  remove_handler_lem name force w untyped =
      let result = (b.remove_volume name (parsed_force (parse_bool force)) w).0 in
      (
        refl,
        elim (Result-cases result) [
          | inl (u, done) ↦ ground arith
          | inr (e, failed) ↦ let none_ = untyped e failed in ground arith
        ],
      )
