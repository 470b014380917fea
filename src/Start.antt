-- ===== src/Start.antt =====
-- The runner's start and its heartbeats: snake.go, register.go and heartbeat.go of
-- cmd/snake-runner. The file of the access token is kept here; the master's answers and the errors
-- of the file system are outside, in the order in which they come.
use snake_runner.Base.{
  ℕ, suc, ◌+◌, Text, codes, List, [], ◌∷◌, ◌++◌, map, length, Option, none, some, Bool, true, false,
  is_empty, if◌then◌else◌, ◌≡◌, refl, ap,
}
use snake_runner.Errors.{Error, format}

-- An answer to the registration: a token, or an error.
pub data Answer : Type 0 where
  grants : Text → Answer
  refuses : Error → Answer

-- `register` is called again after every error; `none` while no token has come. With the token comes
-- the number of calls.
unfoldable pub must_register : List Answer → Option (Text × ℕ)
must_register [] = none
must_register (grants token ∷ answers) = some (token, 1)
must_register (refuses error ∷ answers) = elim (must_register answers) [
  | none ↦ none
  | some (token, calls) ↦ some (token, suc calls)
]

-- The file of the token, the configuration's token, and the number of registration requests.
pub record Runner : Type 0 where
  pub file : Option Text
  pub access_token : Text
  pub requests : ℕ

-- How the start goes: on to the scheduler, to the end of the process, or waiting for a token.
pub data Start : Type 0 where
  goes_on : Runner → Start
  dies : Error → Start
  waits : Start

-- What the file system answers: to the making of the directory, and to the writing of a token.
pub record FileSystem : Type 0 where
  pub make_dir : Option Error
  pub write : Text → Option Error

-- `writeAccessToken`: the file behind it, and the error.
unfoldable pub write_access_token : FileSystem → Text → Option Text → Option Text × Option Error
write_access_token files token file = elim files.make_dir [
  | some error ↦ (file, some (format error (codes "unable to create dir for token")))
  | none ↦ elim (files.write token) [
    | some error ↦ (file, some (format error (codes "unable to write data to file")))
    | none ↦ (some token, none)
  ]
]

-- The process dies of an error, and goes on without one.
abbrev or_dies : Option Text × Option Error → (Option Text → Start) → Start
or_dies (file, some error) go = dies error
or_dies (file, none) go = go file

-- What follows the registration.
unfoldable pub store_token : FileSystem → Option (Text × ℕ) → Runner → Start
unfolding write_access_token
store_token files none r = waits
store_token files (some (token, calls)) r =
    or_dies (write_access_token files token r.file) (λ file.
      goes_on (record { file = file; access_token = token; requests = r.requests + calls }))

-- `Start` up to the start of the scheduler.
unfoldable pub start : FileSystem → List Answer → Runner → Start
unfolding write_access_token must_register store_token
start files answers r =
    if is_empty r.access_token
    then or_dies (write_access_token files [] r.file)
        (λ file. store_token files (must_register answers) (record r { file = file }))
    else goes_on r

must_register_after :
    (errors : List Error) (token : Text) (answers : List Answer)
    → must_register (map refuses errors ++ (grants token ∷ answers))
      ≡ some (token, suc (length errors))
unfolding must_register
must_register_after [] token answers = refl
must_register_after (error ∷ errors) token answers =
    rw (must_register_after errors token answers, must_register) refl

-- A runner without a token that can write its file asks until it is granted one, however often it is
-- refused, and goes on with this token in its file and in its configuration.
pub start_registers :
    (files : FileSystem) (errors : List Error) (token : Text) (answers : List Answer) (r : Runner)
    → files.make_dir ≡ none
    → ((text : Text) → files.write text ≡ none)
    → r.access_token ≡ []
    → start files (map refuses errors ++ (grants token ∷ answers)) r
      ≡ goes_on (record {
        file = some token;
        access_token = token;
        requests = r.requests + suc (length errors);
      })
unfolding start store_token write_access_token
start_registers files errors token answers r made ok e =
    rw (e, start)
      (rw (made, ok [], must_register_after errors token answers, write_access_token, store_token)
        (rw (made, ok token, write_access_token) refl))

-- The loop of `startHeartbeats` over the errors of the requests: whether each of them has the
-- version in it.
unfoldable pub heartbeats : Bool → List (Option Error) → List Bool
heartbeats handshaked [] = []
heartbeats handshaked (some error ∷ results) =
    (if handshaked then false else true) ∷ heartbeats handshaked results
heartbeats handshaked (none ∷ results) =
    (if handshaked then false else true) ∷ heartbeats true results

heartbeats_known :
    (results : List (Option Error)) → heartbeats true results ≡ map (λ r. false) results
unfolding heartbeats
heartbeats_known [] = refl
heartbeats_known (none ∷ results) = ap (◌∷◌ false) (heartbeats_known results)
heartbeats_known (some error ∷ results) = ap (◌∷◌ false) (heartbeats_known results)

-- The heartbeats tell the version up to the first one that arrives, and never afterwards.
pub heartbeats_lem :
    (errors : List Error) (results : List (Option Error))
    → heartbeats false (map some errors ++ (none ∷ results))
      ≡ map (λ e. true) errors ++ (true ∷ map (λ r. false) results)
unfolding heartbeats
heartbeats_lem [] results = ap (◌∷◌ true) (heartbeats_known results)
heartbeats_lem (error ∷ errors) results = ap (◌∷◌ true) (heartbeats_lem errors results)
