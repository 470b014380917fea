-- ===== src/Docker/Auths.antt =====
-- The credentials of a pull: which of the configured ones is taken, and `encodeAuth`. The JSON
-- encoder is outside; `marshal` stands for it.
pub mod Priority
use snake_runner.Base.{
  Text, text_beq, text_eq, codes, List, [], ◌∷◌, ◌++◌, Option, none, some, Bool, true, false, not,
  ◌&&◌, nat_beq, is_empty, lookup, if◌then◌else◌,
}
use snake_runner.Errors.{Error, message, format}
use snake_runner.Base64.{encode, decode}

-- `executor.AuthConfig`; the client's own type has an e-mail besides.
pub record AuthConfig : Type 0 where
  pub username : Text
  pub password : Text
  pub auth : Text
  pub server_address : Text
  pub identity_token : Text
  pub registry_token : Text
  pub email : Text

abbrev pub no_auth : AuthConfig
no_auth = record {
  username = [];
  password = [];
  auth = [];
  server_address = [];
  identity_token = [];
  registry_token = [];
  email = [];
}

abbrev pub Auths : Type 0
Auths = List (Text × AuthConfig)

-- The loop of `PullImage` over the configurations: what is found, and `serverAddress`.
unfoldable pub find_auth : Text → List Auths → AuthConfig × Text → AuthConfig × Text
find_auth key [] found = found
find_auth key (auths ∷ rest) found =
    find_auth key rest (elim (lookup key auths) [ none ↦ found | some auth ↦ (auth, key) ])

-- `ContextExecutorAuth` and its `List`
pub record ContextAuths : Type 0 where
  pub runner : Auths
  pub env : Auths
  pub pipeline : Auths
  pub job : Auths

unfoldable pub auth_list : ContextAuths → List Auths
auth_list auths = auths.runner ∷ auths.env ∷ auths.pipeline ∷ auths.job ∷ []

-- `strings.SplitN(decoded, ":", 2)` where there is a colon.
unfoldable pub split_colon : Text → Option (Text × Text)
split_colon [] = none
split_colon (c ∷ s) =
    let rest = split_colon s in
    if nat_beq c b':'
    then some ([], s)
    else elim rest [ none ↦ none | some pair ↦ some (c ∷ pair.0, pair.1) ]

-- The name and the password of a decoded `auth` take its place.
unfoldable pub set_login : Text → AuthConfig → Option (Text × Text) → AuthConfig
set_login server auth none = auth
set_login server auth (some login) = record auth {
  auth = [];
  username = login.0;
  password = login.1;
  server_address = server;
}

-- The first part of `encodeAuth`; `none` where the base64 decoder refuses.
unfoldable pub decode_login : Text → AuthConfig → Option AuthConfig
unfolding split_colon set_login
decode_login server auth =
    if not (is_empty auth.auth) && (is_empty auth.username && is_empty auth.password)
    then elim (decode auth.auth) [
      | none ↦ none
      | some decoded ↦ some (set_login server auth (split_colon decoded))
    ]
    else some auth

abbrev pub is_blank : AuthConfig → Bool
is_blank auth =
    is_empty auth.username
    && (is_empty auth.auth
        && (is_empty auth.identity_token
            && (is_empty auth.registry_token && (is_empty auth.password && is_empty auth.email))))

-- `encodeAuth`: the header, or `none` where `auth` cannot be decoded. The client's JSON encoder does
-- not fail on a record of strings.
unfoldable pub encode_auth : (AuthConfig → Text) → Text → AuthConfig → Option Text
unfolding decode_login
encode_auth marshal server auth = elim (decode_login server auth) [
  | none ↦ none
  | some auth ↦ if is_blank auth then some [] else some (encode (marshal auth))
]
