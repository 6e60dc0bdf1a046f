-- ===== src/Router/Tests.antt =====
-- Requests at the router, with a policy that allows GET.
use finch_daemon.Prelude.{
  ℕ, false, true, ◌≡◌, ◌⊎◌, refl, String, Bool, Option, some, ◌==◌, if◌then◌else◌,
}
use finch_daemon.Errors.{plain}
use finch_daemon.Go.Strings.{to_lower}
use finch_daemon.Act.{Result, ok, err}
use finch_daemon.Http.{Writer, fresh, send_error_response, write_header}
use finch_daemon.Router.{
  Versions, RouteRequest, InputRegoRequest, version_middleware, rego_middleware, routed,
}
use finch_daemon.Router.PolicyFile.{
  DaemonOptions, Files, ext, ext_from, lowers_to, check_rego_file_validity, IsAccepted,
  check_rego_file_validity-IsAccepted,
}
use finch_daemon.Router.Admission.{IsServed, IsAllowed, Refused, routed_admission}

-- Versions compared as texts of one length
abbrev vs : Versions
vs = record { less_than = λ a b. a == "1.12"; greater_than = λ a b. a == "1.99" }

abbrev only_get : InputRegoRequest → Result Bool
only_get i = ok (i.method == "GET")

abbrev next : String → Writer String → Writer String
next v w = write_header 200 w

abbrev get_info : Option String → RouteRequest
get_info version = record { version = version; method = "GET"; path = "/info" }

served : (routed vs (some only_get) next (get_info (some "1.40")) fresh).code ≡ some 200
unfolding routed version_middleware rego_middleware
served = refl

too_old : (routed vs (some only_get) next (get_info (some "1.12")) fresh).code ≡ some 400
unfolding routed version_middleware rego_middleware send_error_response
too_old = refl

routed_admission_example :
    ((v : String) × IsServed vs (some "1.40") v
      × IsAllowed (some only_get) (get_info (some "1.40"))
      × (routed vs (some only_get) next (get_info (some "1.40")) fresh ≡ next v fresh))
    ⊎ Refused (routed vs (some only_get) next (get_info (some "1.40")) fresh)
routed_admission_example = routed_admission vs next (some only_get) (get_info (some "1.40"))

-- The world is the permission bits of the one file there is; 384 is 0600 and 420 is 0644.
abbrev files : Files ℕ
files = record {
  stat = λ path w. (if path == "/etc/p.REGO" then ok w else err (plain "no such file"), w);
  is_not_exist = λ e. true;
  octal = λ perm. "644";
}

abbrev policy : String → DaemonOptions
policy path = record { rego_file_path = path; skip_rego_perm_check = false }

accepted : (check_rego_file_validity files (policy "/etc/p.REGO") 384).0 ≡ ok "/etc/p.REGO"
unfolding check_rego_file_validity lowers_to ext ext_from to_lower
accepted = refl

too_permissive :
    (check_rego_file_validity files (policy "/etc/p.REGO") 420).0
    ≡ err
        (plain "rego file permissions 644 are too permissive (maximum allowable permissions: 0600)")
unfolding check_rego_file_validity lowers_to ext ext_from to_lower
too_permissive = refl

check_rego_file_validity-IsAccepted_example : IsAccepted files (policy "/etc/p.REGO") "/etc/p.REGO"
check_rego_file_validity-IsAccepted_example =
    check_rego_file_validity-IsAccepted files (policy "/etc/p.REGO") "/etc/p.REGO" 384 accepted
