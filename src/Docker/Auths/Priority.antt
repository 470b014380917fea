-- ===== src/Docker/Auths/Priority.antt =====
-- Which credentials reach the registry.
use snake_runner.Base.{
  ℕ, Text, text_eq, List, [], ◌∷◌, ◌++◌, none, some, true, false, is_empty, lookup, All, ◌≡◌, ◌≢◌,
  refl, ap, ◌∙◌, arith,
}
use snake_runner.Base64.{encode, decode}
use snake_runner.Base64.Back.{Bytes, decode-encode}
use snake_runner.Docker.Auths.{
  AuthConfig, no_auth, Auths, find_auth, ContextAuths, auth_list, split_colon, set_login,
  decode_login, encode_auth,
}

-- The first of the configurations that has the key.
abbrev pub first_with : Text → List Auths → AuthConfig × Text
first_with key [] = (no_auth, [])
first_with key (auths ∷ rest) = elim (lookup key auths) [
  | none ↦ first_with key rest
  | some auth ↦ (auth, key)
]

-- The credentials for a registry are those of the job where it has some, or else those of the
-- pipeline, or else those of the environment, or else those of the runner, or else none.
pub find_auth_priority :
    (key : Text) (auths : ContextAuths)
    → find_auth key (auth_list auths) (no_auth, [])
      ≡ first_with key (auths.job ∷ auths.pipeline ∷ auths.env ∷ auths.runner ∷ [])
unfolding find_auth auth_list
find_auth_priority key auths = ground arith

split_colon_at :
    (name password : Text)
    → All (λ c. c ≢ b':') name
    → split_colon (name ++ (b':' ∷ password)) ≡ some (name, password)
unfolding split_colon
split_colon_at [] password h = refl
split_colon_at (c ∷ name) password h = ground (arith, split_colon_at name password h.1, h.0)

encode_known : (c : ℕ) (s : Text) → is_empty (encode (c ∷ s)) ≡ false
unfolding encode
encode_known c [] = refl
encode_known c (d ∷ []) = refl
encode_known c (d ∷ e ∷ s) = refl

encode_login_known : (name password : Text) → is_empty (encode (name ++ (b':' ∷ password))) ≡ false
encode_login_known [] password = encode_known b':' password
encode_login_known (c ∷ name) password = encode_known c (name ++ (b':' ∷ password))

decode_login_lem :
    (server name password : Text) (auth : AuthConfig)
    → All (λ c. c ≢ b':') name
    → Bytes (name ++ (b':' ∷ password))
    → auth.auth ≡ encode (name ++ (b':' ∷ password))
    → auth.username ≡ []
    → auth.password ≡ []
    → decode_login server auth
      ≡ some
          (record auth { auth = []; username = name; password = password; server_address = server })
unfolding decode_login set_login
decode_login_lem server name password auth plain bytes e u p =
    let known : is_empty auth.auth ≡ false = ap is_empty e ∙ encode_login_known name password in
    let no_name : is_empty auth.username ≡ true = ap is_empty u in
    let no_password : is_empty auth.password ≡ true = ap is_empty p in
    let decoded : decode auth.auth ≡ some (name ++ (b':' ∷ password)) =
      ap decode e ∙ decode-encode (name ++ (b':' ∷ password)) bytes in
    ground (arith, split_colon_at name password plain)

-- An `auth` that holds the encoded name and password, with a colon between them and none in the
-- name, reaches the registry as this name and this password, with the registry's address.
pub encode_auth_login :
    (marshal : AuthConfig → Text) (server name password : Text) (auth : AuthConfig)
    → All (λ c. c ≢ b':') name
    → name ≢ []
    → Bytes (name ++ (b':' ∷ password))
    → auth.auth ≡ encode (name ++ (b':' ∷ password))
    → auth.username ≡ []
    → auth.password ≡ []
    → encode_auth marshal server auth
      ≡ some (
          encode (
            marshal (record auth {
              auth = [];
              username = name;
              password = password;
              server_address = server;
            })))
unfolding encode_auth
encode_auth_login marshal server [] password auth plain known bytes e u p = absurd (known refl)
encode_auth_login marshal server (c ∷ name) password auth plain known bytes e u p =
    rw (decode_login_lem server (c ∷ name) password auth plain bytes e u p, encode_auth) refl
