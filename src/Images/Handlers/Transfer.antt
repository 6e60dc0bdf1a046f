-- ===== src/Images/Handlers/Transfer.antt =====
-- The handlers of api/handlers/image that stream: export, pull and push; DecodeAuthConfig of
-- api/auth/auth.go.
use Prim.Native.String.{◌++◌}
use finch_daemon.Prelude.{ℕ, String, Option, none, some, if◌then◌else◌}
use finch_daemon.Errors.{GoError, plain, wrap, message}
use finch_daemon.Act.{Result, ok, err}
use finch_daemon.Go.Strings.{is_empty}
use finch_daemon.Http.{Writer, fresh, send_error_response}
use finch_daemon.Http.Stream.{StreamResponse, StreamWriter, write_error, write_aux}
use finch_daemon.Http.Stream.Pull.{PullJobWriter, pull_write}
use finch_daemon.Images.Backend.{ImageBackend}
use finch_daemon.Images.Auth.{AuthConfig}
use finch_daemon.Images.Reference.{parse_name_and_tag}
use finch_daemon.Images.Service.{export_}
use finch_daemon.Images.Transfer.{PushResult, pull, push}
use finch_daemon.Images.Handlers.{Reply, Request, inspect_code, transfer_code}

-- base64 with json.Decoder, over a header that is not empty
unfoldable pub decode_auth_config : (String → Result AuthConfig) → String → Result AuthConfig
decode_auth_config decode auth_encoded =
    if is_empty auth_encoded
    then ok (record {
      username = "";
      password = "";
      server_address = "";
      identity_token = "";
      registry_token = "";
    })
    else elim (decode auth_encoded) [
      | ok ac ↦ ok ac
      | err e ↦ err (wrap "invalid X-Registry-Auth header: " e "")
    ]

-- The export goes to the ResponseWriter, which is part of the world; `unmarshal` is json.Unmarshal.
module _ {W P R I : Type 0} (b : ImageBackend (Writer (Reply I) × W) P R I)
    (unmarshal : String → Result P) where
  abbrev platform_of : String → Result (Option P)
  platform_of text_ =
      if is_empty text_
      then ok none
      else elim (unmarshal text_) [ ok platform ↦ ok (some platform) | err e ↦ err e ]

  abbrev exported : Result (Unit {0}) × (Writer (Reply I) × W) → Writer (Reply I) × W
  exported (ok u, (out, w)) = (out, w)
  exported (err e, (out, w)) = (send_error_response (inspect_code e) e out, w)

  abbrev export_platform : Request → Result (Option P) → Writer (Reply I) × W → Writer (Reply I) × W
  export_platform r (err e) (out, w) = (send_error_response 400 e out, w)
  export_platform r (ok platform) (out, w) =
      exported (export_ b r.name platform (record out { content_type = "application/x-tar" }, w))

  -- export
  unfoldable pub export_handler : Request → W → Writer (Reply I) × W
  unfolding export_ inspect_code send_error_response
  export_handler r w = export_platform r (platform_of (r.query "platform")) (fresh, w)

module _ {W P R I : Type 0} (encode_error : StreamResponse → Writer StreamResponse → Option GoError)
    (decode : String → Result AuthConfig) where
  module _ (b : ImageBackend (PullJobWriter × W) P R I) where
    abbrev refuse : ℕ → GoError → PullJobWriter × W → PullJobWriter × W
    refuse code e (pw, w) = (
      record pw {
        stream_writer = record pw.stream_writer {
          response_writer = send_error_response code e pw.stream_writer.response_writer;
        };
      },
      w,
    )

    abbrev pulled : String → String → Result (Unit {0}) × (PullJobWriter × W) → PullJobWriter × W
    pulled name tag_ (ok u, (pw, w)) =
        (pull_write encode_error ("Pulled " ++ (name ++ (":" ++ (tag_ ++ "\n")))) pw, w)
    pulled name tag_ (err e, (pw, w)) = (
      record pw {
        stream_writer = (write_error encode_error (transfer_code e) e pw.stream_writer).1;
      },
      w,
    )

    abbrev pull_named :
        (String → String)
        → AuthConfig
        → Result (String × String)
        → PullJobWriter × W
        → PullJobWriter × W
    pull_named query ac (err e) s = refuse 400 e s
    pull_named query ac (ok (name, tag_)) s =
        pulled name tag_ (pull b name tag_ (query "platform") (some ac) s)

    abbrev pull_as : (String → String) → Result AuthConfig → PullJobWriter × W → PullJobWriter × W
    pull_as query (err e) s = refuse 400 (plain ("failed to decode auth header: " ++ message e)) s
    pull_as query (ok ac) s = pull_named query ac (parse_name_and_tag query) s

    -- pull, with the X-Registry-Auth header; the warnings are only logged
    unfoldable pub pull_handler : (String → String) → String → PullJobWriter × W → PullJobWriter × W
    unfolding decode_auth_config transfer_code pull pull_write write_error parse_name_and_tag
        send_error_response
    pull_handler query header s = pull_as query (decode_auth_config decode header) s

  -- `marshal` is json.Marshal
  module _ (b : ImageBackend (StreamWriter × W) P R I) (marshal : PushResult → Result String) where
    abbrev send_aux : Result String → StreamWriter → StreamWriter
    send_aux (err e) sw = sw
    send_aux (ok aux_data) sw = (write_aux encode_error aux_data sw).1

    abbrev send_result : Option PushResult → StreamWriter → StreamWriter
    send_result none sw = sw
    send_result (some result) sw = send_aux (marshal result) sw

    abbrev pushed : Result (Option PushResult) × (StreamWriter × W) → StreamWriter × W
    pushed (err e, (sw, w)) = ((write_error encode_error (transfer_code e) e sw).1, w)
    pushed (ok result, (sw, w)) = (send_result result sw, w)

    abbrev push_as : Request → Result AuthConfig → StreamWriter × W → StreamWriter × W
    push_as r (err e) (sw, w) = (
      record sw {
        response_writer =
            send_error_response 500 (wrap "failed to decode the auth header: " e "")
              sw.response_writer;
      },
      w,
    )
    push_as r (ok ac) s = pushed (push b r.name (r.query "tag") (some ac) s)

    -- push
    unfoldable pub push_handler : Request → String → StreamWriter × W → StreamWriter × W
    unfolding decode_auth_config transfer_code push write_error write_aux send_error_response
    push_handler r header s = push_as r (decode_auth_config decode header) s
