-- ===== src/Containers/Handlers/Answers.antt =====
-- What renaming, restarting and waiting for a container answer (api/handlers/container).
use finch_daemon.Prelude.{
  String, ◌≡◌, refl, ◌⊎◌, inl, inr, false, List, [], ◌∷◌, ◌++◌, eq_iff, arith, Option, some,
}
use finch_daemon.Prelude.Int.{ℤ, pos}
use finch_daemon.Errors.{not_modified, GoError, as_err_with_type}
use finch_daemon.Act.{ok, err, Act, Result-cases}
use finch_daemon.Http.{value}
use finch_daemon.Go.Strconv.{atoi_value}
use finch_daemon.Go.Strings.{trim_space}
use finch_daemon.Containers.Backend.{Container, Backend, no_writer, dev_null, discard}
use finch_daemon.Containers.Handlers.{
  Request, wait_resp, Config, var, captured, rename_handler, restart_handler, wait_handler,
  timeout_of,
}

module _ {W G : Type 0} (backends : String → Backend W G) (open_dev_null : W → Option GoError)
    (config : Config G) where
  abbrev b : Backend W G
  b = backends config.namespace

  -- A rename to a name or an id prefix that finds exactly one container is answered by 409, whatever
  -- the container to rename, and changes nothing.
  pub rename_taken :
      (r : Request) (w : W) (d : Container)
      → b.search_container (r.query "name") w ≡ ok (d ∷ [])
      → ((rename_handler backends open_dev_null config r w).0.code ≡ some 409)
        × ((rename_handler backends open_dev_null config r w).1 ≡ w)
  unfolding rename_handler
  rename_taken r w d found = ground arith

  abbrev rename_call : Request → Container → Act W (Unit {0})
  rename_call r c =
      b.rename_container c (r.query "name")
        (record { g_options = config.global; stdout = no_writer })

  -- A rename to a name that finds several containers is not answered by 409: it is handed to the
  -- backend, whose effect stays, as if the name were free.
  rename_ambiguous :
      (r : Request) (w : W) (c d d' : Container) (ds : List Container)
      → b.search_container (r.query "name") w ≡ ok (d ∷ d' ∷ ds)
      → b.search_container (var r.id) w ≡ ok (c ∷ [])
      → (rename_handler backends open_dev_null config r w).1 ≡ (rename_call r c w).1
  unfolding rename_handler
  rename_ambiguous r w c d d' ds taken found = ground arith

  abbrev stop_call : Request → Container → Act W (Unit {0})
  stop_call r c = b.stop_container c.id (record {
    g_options = config.global;
    stdout = discard;
    stderr = discard;
    timeout = timeout_of (r.query "t");
    signal = "";
  })

  abbrev start_call : Request → Act W (Unit {0})
  start_call r =
      b.start_container (var r.id)
        (record { g_options = config.global; stdout = dev_null; attach = false; detach_keys = "" })

  -- A restart that is answered by 204 has stopped the container or found it stopped, and has then
  -- started it; the world is the one that the start left.
  pub restart_done :
      (r : Request) (w : W) (c : Container)
      → b.search_container (var r.id) w ≡ ok (c ∷ [])
      → (restart_handler backends open_dev_null config r w).0.code ≡ some 204
      → (((stop_call r c w).0 ≡ ok tt)
          ⊎ ((e : GoError) × ((stop_call r c w).0 ≡ err e)
              × (as_err_with_type e ≡ some not_modified)))
        × ((start_call r (stop_call r c w).1).0 ≡ ok tt)
        × ((restart_handler backends open_dev_null config r w).1
            ≡ (start_call r (stop_call r c w).1).1)
  unfolding restart_handler
  restart_done r w c found done = (
    elim (Result-cases (stop_call r c w).0) [
      | inl (u, stopped) ↦ inl stopped
      | inr (e, failed) ↦ inr (e, failed, ground arith)
    ],
    ground arith,
    ground arith,
  )

  captured-append :
      (n : ℤ) (texts : List String) (t : String)
      → captured n (texts ++ t ∷ []) ≡ atoi_value (trim_space t)
  captured-append n [] t = refl
  captured-append n (s ∷ texts) t = captured-append (atoi_value (trim_space s)) texts t

  -- A wait that ends well is answered by 200 and one JSON value: the number in the last text that
  -- the backend wrote.
  wait_exit_code :
      (r : Request) (w w' : W) (c : Container) (texts : List String) (t : String)
      → r.query "condition" ≡ ""
      → b.search_container (var r.id) w ≡ ok (c ∷ [])
      → b.container_wait c.id config.global w ≡ (ok tt, texts ++ t ∷ [], w')
      → ((wait_handler backends open_dev_null config r w).0.code ≡ some 200)
        × ((wait_handler backends open_dev_null config r w).0.body
            ≡ value (wait_resp (atoi_value (trim_space t))) ∷ [])
  unfolding wait_handler
  wait_exit_code r w w' c texts t condition found waited =
      ground (arith, eq_iff (r.query "condition") "", captured-append (pos 0) texts t)
