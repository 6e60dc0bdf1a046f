-- ===== src/Volumes/Service.antt =====
-- internal/service/volume. nerdctl's errors are told apart by their texts.
use finch_daemon.Prelude.{String, Bool, List, if◌then◌else◌}
use finch_daemon.Errors.{GoError, with_type, invalid_format, new_not_found, new_conflict, message}
use finch_daemon.Act.{Result, ok, err, Act}
use finch_daemon.Http.Stream.{contains}

-- nerdctl's volumes `V`: the methods in the world `W`
pub record VolumeBackend (W V : Type 0) : Type 0 where
  pub create_volume : String → List String → Act W V
  pub get_volume : String → W → Result V
  pub list_volumes : List String → W → Result (List V)
  pub remove_volume : String → Bool → Act W (Unit {0})

abbrev new_invalid_format : GoError → GoError
new_invalid_format e = with_type invalid_format e

unfoldable pub inspect_error : GoError → GoError
unfolding contains message
inspect_error e = if contains (message e) "not found" then new_not_found e else e

unfoldable pub remove_error : GoError → GoError
unfolding contains message
remove_error e =
    if contains (message e) "not found"
    then new_not_found e
    else if contains (message e) "in use"
    then new_conflict e
    else if contains (message e) "could not be removed"
    then new_invalid_format e
    else e

abbrev retyped : {A : Type 0} → (GoError → GoError) → Result A → Result A
retyped f (ok a) = ok a
retyped f (err e) = err (f e)

module _ {W V : Type 0} (b : VolumeBackend W V) where
  -- Create
  unfoldable pub create : String → List String → Act W V
  create name labels = b.create_volume name labels

  -- Inspect
  unfoldable pub inspect : String → W → Result V
  unfolding inspect_error
  inspect name w = retyped inspect_error (b.get_volume name w)

  -- List
  unfoldable pub list_ : List String → W → Result (List V)
  list_ filters w = b.list_volumes filters w

  -- Remove
  unfoldable pub remove : String → Bool → Act W (Unit {0})
  unfolding remove_error
  remove name force w =
      (retyped remove_error (b.remove_volume name force w).0, (b.remove_volume name force w).1)
