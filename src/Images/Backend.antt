-- ===== src/Images/Backend.antt =====
-- What the image service calls of containerd and nerdctl, and GetUsedImages of
-- internal/backend/containerd.go.
use finch_daemon.Prelude.{ℕ, String, Bool, true, false, Option, List, [], ◌∷◌, if◌then◌else◌}
use finch_daemon.Errors.{GoError}
use finch_daemon.Act.{Result, ok, err, Act}
use finch_daemon.Go.Maps.{Map, insert}
use finch_daemon.Builder.Service.{Event}
use finch_daemon.Containers.Backend.{ProcessStatus, running, paused, pausing, Container}

-- images.Image: its name and its target digest
pub record Image : Type 0 where
  pub name : String
  pub digest : String

-- dockerconfigresolver.AuthCreds: nil, or a function of the domain
abbrev pub AuthCreds : Type 0
AuthCreds = Option (String → Result (String × String))

-- The methods in the world `W`: platforms are `P`, remote resolvers `R`, what nerdctl inspects `I`.
-- `search_images` is SearchImage of the containerd client; `search_image` that of nerdctl, with the
-- two counts. `get_image_digests` leaves out the error, which is only logged. `walk` is the image
-- walker: the match count, and the names of the images that it calls OnFound with, in order.
-- `pushed` is GetImage with Size: the digest and the size. `walk` and the methods that are no
-- actions read only.
pub record ImageBackend (W P R I : Type 0) : Type 1 where
  pub search_images : String → W → Result (List Image)
  pub search_image : String → W → Result (ℕ × ℕ × List Image)
  pub containers : W → Result (List Container)
  pub container_image : Container → W → Result String
  pub container_status : Container → W → Result ProcessStatus
  pub get_image_digests : Image → W → List String
  pub delete_image : String → Act W (Unit {0})
  pub inspect_image : Image → W → Result I
  pub set_id : String → I → I
  pub export_image : List String → Option P → Act W (Unit {0})
  pub walk : String → W → Result (ℕ × List String)
  pub get : String → W → Result Image
  pub create : Image → Act W (Unit {0})
  pub delete : String → Act W (Unit {0})
  pub publish_event : String → Event → Act W (Unit {0})
  pub parse_reference : String → Result String
  pub parse_docker_ref : String → Result (String × String)
  pub canonicalize : String → String → Result String
  pub default_docker_host : String → Result String
  pub default_platform : P
  pub parse_platform : String → Result P
  pub get_docker_resolver : String → AuthCreds → W → Result R
  pub pull_image : R → String → P → Act W (Unit {0})
  pub convert_image : String → String → Act W Image
  pub push_image : R → String → String → Act W (Unit {0})
  pub pushed : String → W → Result (String × ℕ)
  pub is_already_exists : GoError → Bool
  pub is_c_not_found : GoError → Bool
  pub is_invalid_authorization : GoError → Bool

-- The `stopped` and `running` maps: the container that uses an image, by the image's name.
pub record Used : Type 0 where
  pub stopped : Map String
  pub running : Map String

-- The cases of the switch; the status is "" if it cannot be read.
unfoldable pub in_use : Result ProcessStatus → Bool
in_use (ok running) = true
in_use (ok pausing) = true
in_use (ok paused) = true
in_use _ = false

module _ {W P R I : Type 0} (b : ImageBackend W P R I) where
  -- The entry for a container; one whose image is not found has none.
  unfoldable pub note_use : Container → W → Result String → Used → Used
  unfolding in_use insert
  note_use c w (err e) used = used
  note_use c w (ok name) used =
      if in_use (b.container_status c w)
      then record used { running = insert name c.id used.running }
      else record used { stopped = insert name c.id used.stopped }

  unfoldable pub note_uses : List Container → W → Used → Used
  unfolding note_use
  note_uses [] w used = used
  note_uses (c ∷ cs) w used = note_uses cs w (note_use c w (b.container_image c w) used)

  abbrev used_by : W → Result (List Container) → Result Used
  used_by w (err e) = err e
  used_by w (ok cs) = ok (note_uses cs w (record { stopped = []; running = [] }))

  -- GetUsedImages
  unfoldable pub get_used_images : W → Result Used
  unfolding note_uses
  get_used_images w = used_by w (b.containers w)
