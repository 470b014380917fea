-- ===== src/Docker/Pulls.antt =====
-- `PullImage`: the reference, the credentials that go with it, and the pull. The parser of
-- references, the lookup of the registry's index, the client and the stream of its messages are
-- outside.
pub mod Logins
use snake_runner.Base.{Text, codes, List, [], ◌∷◌, Option, none, some, Bool, if◌then◌else◌}
use snake_runner.Errors.{Error, format}
use snake_runner.Docker.Auths.{AuthConfig, no_auth, Auths, find_auth, encode_auth}

pub record PullEngine : Type 0 where
  -- `ParseNormalizedNamed` with `TagNameOnly`: its error, and the reference with a tag
  pub parse : Text → Option Error
  pub normal : Text → Text
  -- `GetImageReferencesAndAuth`: its error, and the index that it gives to the callback
  pub resolve : Text → Option Error
  pub index_name : Text → Text
  pub is_official : Text → Bool
  -- `registry.IndexServer`
  pub index_server : Text
  -- the JSON of an `AuthConfig`, and the error where `encodeAuth` can not decode one
  pub marshal : AuthConfig → Text
  pub undecoded : Error
  -- `ImagePull` of a reference with a header, and `DisplayJSONMessagesStream`
  pub image_pull : Text → Text → Option Error
  pub stream : Option Error

-- The callback's key for the configurations.
unfoldable pub config_key : PullEngine → Text → Text
config_key engine reference =
    if engine.is_official reference then engine.index_server else engine.index_name reference

-- A call of `ImagePull`.
pub data PullCall : Type 0 where
  pulls : Text → Text → PullCall

-- From the call of `ImagePull` on.
unfoldable pub read_pull : PullEngine → Text → Text → List PullCall × Option Error
read_pull engine reference header = elim (engine.image_pull reference header) [
  | some error ↦ (pulls reference header ∷ [], some error)
  | none ↦ elim engine.stream [
    | some error ↦ (
      pulls reference header ∷ [],
      some (format error (codes "unable to read docker pull output")),
    )
    | none ↦ (pulls reference header ∷ [], none)
  ]
]

-- From the credentials on, with `serverAddress`.
unfoldable pub send_pull : PullEngine → Text → AuthConfig × Text → List PullCall × Option Error
unfolding read_pull
send_pull engine reference (auth, server) = elim (encode_auth engine.marshal server auth) [
  | none ↦ ([], some (format engine.undecoded (codes "unable to decode 'auth' field as base64")))
  | some header ↦ read_pull engine reference header
]

-- `PullImage`
unfoldable pub pull : PullEngine → List Auths → Text → List PullCall × Option Error
unfolding send_pull config_key
pull engine auths query = elim (engine.parse query) [
  | some error ↦ ([], some (format error (codes "unable to parse ref")))
  | none ↦
      let reference = engine.normal query in
      elim (engine.resolve reference) [
        | some error ↦ ([], some error)
        | none ↦
            send_pull engine reference (find_auth (config_key engine reference) auths (no_auth, []))
      ]
]
