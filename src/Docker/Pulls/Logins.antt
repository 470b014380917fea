-- ===== src/Docker/Pulls/Logins.antt =====
-- Which login a pull sends.
use snake_runner.Base.{Text, [], ◌∷◌, ◌++◌, none, some, All, ◌≡◌, ◌≢◌, refl, ◌∙◌, ◌↔◌, arith}
use snake_runner.Base64.{encode}
use snake_runner.Base64.Back.{Bytes}
use snake_runner.Docker.Auths.{AuthConfig, ContextAuths, auth_list, encode_auth}
use snake_runner.Docker.Auths.Priority.{first_with, find_auth_priority, encode_auth_login}
use snake_runner.Docker.Pulls.{PullEngine, config_key, pulls, read_pull, send_pull, pull}

read_pull_lem :
    (engine : PullEngine) (reference header : Text)
    → ((read_pull engine reference header).0 ≡ pulls reference header ∷ [])
      × (((read_pull engine reference header).1 ≡ none)
          ↔ ((engine.image_pull reference header ≡ none) × (engine.stream ≡ none)))
unfolding read_pull
read_pull_lem engine reference header = ground arith

-- The reference and the index are known: a pull goes on with the credentials of the first level that
-- has some for the registry, and encodes them.
pull_reads :
    (engine : PullEngine) (auths : ContextAuths) (query header : Text) (auth : AuthConfig)
    (server : Text)
    → engine.parse query ≡ none
    → engine.resolve (engine.normal query) ≡ none
    → first_with
        (config_key engine (engine.normal query))
        (auths.job ∷ auths.pipeline ∷ auths.env ∷ auths.runner ∷ [])
      ≡ (auth, server)
    → encode_auth engine.marshal server auth ≡ some header
    → pull engine (auth_list auths) query ≡ read_pull engine (engine.normal query) header
unfolding pull send_pull
pull_reads engine auths query header auth server parsed resolved found encoded =
    rw (parsed, resolved, pull)
      (rw (find_auth_priority (config_key engine (engine.normal query)) auths ∙ found, send_pull)
        (rw encoded refl))

-- Where the reference can be parsed and its index is known, and of the job, the pipeline, the
-- environment and the runner, in this order, the first one with an entry for the registry has there
-- no user name and no password of its own, and an `auth` that is an encoded name and password, made
-- of bytes, with a colon between them and none in the name, which is not empty, `PullImage` makes
-- one pull, which carries this name and password and the registry's address, and returns no error if
-- and only if the pull and the reading of its output succeed.
pub pull_sends_login :
    (engine : PullEngine) (auths : ContextAuths) (query name password : Text) (auth : AuthConfig)
    → let reference = engine.normal query in
      let server = config_key engine reference in
      let header = encode (
        engine.marshal (record auth {
          auth = [];
          username = name;
          password = password;
          server_address = server;
        })) in
      engine.parse query ≡ none
      → engine.resolve reference ≡ none
      → first_with server (auths.job ∷ auths.pipeline ∷ auths.env ∷ auths.runner ∷ [])
        ≡ (auth, server)
      → All (λ c. c ≢ b':') name
      → name ≢ []
      → Bytes (name ++ (b':' ∷ password))
      → auth.auth ≡ encode (name ++ (b':' ∷ password))
      → auth.username ≡ []
      → auth.password ≡ []
      → ((pull engine (auth_list auths) query).0 ≡ pulls reference header ∷ [])
        × (((pull engine (auth_list auths) query).1 ≡ none)
            ↔ ((engine.image_pull reference header ≡ none) × (engine.stream ≡ none)))
pull_sends_login engine auths query name password auth parsed resolved found plain known bytes e u
      p =
    let reference = engine.normal query in
    let server = config_key engine reference in
    let header = encode (
      engine.marshal (record auth {
        auth = [];
        username = name;
        password = password;
        server_address = server;
      })) in
    rw
      (pull_reads engine auths query header auth server parsed resolved found
        (encode_auth_login engine.marshal server name password auth plain known bytes e u p))
      (read_pull_lem engine reference header)
