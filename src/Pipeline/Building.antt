-- ===== src/Pipeline/Building.antt =====
-- `buildSidecar` and `destroy`: the sidecar of a pipeline. The random string is outside, and so are
-- the consumers of its output.
use snake_runner.Base.{
  ℕ, ℤ, pos, itoa, itoa_unsigned, atoi, atoi-itoa, Text, text_eq, codes, ◌++◌, drop, split_on,
  split_on-first, Option, none, some, ◌==◌, if◌then◌else◌, ◌≡◌, refl, sym, ap, ◌∙◌, ◌⊎◌, inl, inr,
  arith,
}
use snake_runner.Sshkey.{Key}
use snake_runner.Runner.{Config, docker_mode, shell_mode}
use snake_runner.Runner.Valid.{IsValid}
use snake_runner.Sidecar.Cloud
use snake_runner.Sidecar.Shell

pub data Sidecar : Type 0 where
  cloud : Cloud.Builder → Sidecar
  shell : Shell.Builder → Sidecar

unfoldable pub sidecar_name : ℤ → Text → Text
sidecar_name id random = codes "pipeline-" ++ (itoa id ++ (codes "-uniq-" ++ random))

abbrev pub cloud_builder : Config → Text → Text → Key → Cloud.Builder
cloud_builder config name slug key = record {
  name = name;
  pipelines_dir = config.pipelines_dir;
  slug = slug;
  private_key = key.private;
  volumes = config.sidecar_volumes;
}

abbrev pub shell_builder : Config → Text → Text → Key → Shell.Builder
shell_builder config name slug key = record {
  name = name;
  pipelines_dir = config.pipelines_dir;
  slug = slug;
  private_key = key.private;
}

-- `buildSidecar`; `none` where it panics on the mode.
unfoldable pub build_sidecar : Config → ℤ → Text → Text → Key → Text → Option Sidecar
unfolding sidecar_name
build_sidecar config id project_key repository_slug key random =
    let name = sidecar_name id random in
    let slug = project_key ++ (codes "/" ++ repository_slug) in
    if config.mode == docker_mode
    then some (cloud (cloud_builder config name slug key))
    else if config.mode == shell_mode
    then some (shell (shell_builder config name slug key))
    else none

abbrev pub name_of : Sidecar → Text
name_of (cloud b) = b.name
name_of (shell b) = b.name

sidecar_name-id :
    (n : ℕ) (random : Text) → atoi (split_on b'-' (drop 9 (sidecar_name (pos n) random))).0 ≡ pos n
unfolding sidecar_name
sidecar_name-id n random =
    rw (split_on-first b'-' (itoa (pos n)) (codes "uniq-" ++ random) (itoa_unsigned n))
      (atoi-itoa (pos n))

built_name :
    (config : Config) (id : ℤ) (project_key slug : Text) (key : Key) (random : Text) (s : Sidecar)
    → build_sidecar config id project_key slug key random ≡ some s
    → name_of s ≡ sidecar_name id random
unfolding build_sidecar
built_name config id project_key slug key random s e = ground arith

-- For a configuration that `LoadConfig` has returned `buildSidecar` does not panic: it builds the
-- sidecar of the mode, in the configured directory, with the key of the pipeline.
pub build_sidecar_known :
    (config : Config) (id : ℤ) (project_key slug : Text) (key : Key) (random : Text)
    → IsValid config
    → let name = sidecar_name id random in
      let whole = project_key ++ (codes "/" ++ slug) in
      let built = build_sidecar config id project_key slug key random in
      ((config.mode ≡ docker_mode) × (built ≡ some (cloud (cloud_builder config name whole key))))
      ⊎ ((config.mode ≡ shell_mode) × (built ≡ some (shell (shell_builder config name whole key))))
unfolding build_sidecar
build_sidecar_known config id project_key slug key random valid = elim valid.known_mode [
  | inl m ↦ inl (m, rw (m, build_sidecar) refl)
  | inr m ↦ inr (m, rw (m, build_sidecar) refl)
]

-- Sidecars of one name belong to one pipeline: with identifiers that are not negative, the sidecars
-- of two pipelines have different names, whatever the random strings.
pub sidecars_differ :
    (c d : Config) (m n : ℕ) (project_key slug project_key' slug' : Text) (key key' : Key)
    (random random' : Text) (s t : Sidecar)
    → build_sidecar c (pos m) project_key slug key random ≡ some s
    → build_sidecar d (pos n) project_key' slug' key' random' ≡ some t
    → name_of s ≡ name_of t
    → m ≡ n
sidecars_differ c d m n project_key slug project_key' slug' key key' random random' s t e f same =
    let one = built_name c (pos m) project_key slug key random s e in
    let two = built_name d (pos n) project_key' slug' key' random' t f in
    let ids : pos m ≡ pos n =
      sym (sidecar_name-id m random)
      ∙ ap (λ name. atoi (split_on b'-' (drop 9 name)).0) (sym one ∙ same ∙ two)
      ∙ sidecar_name-id n random' in
    cc
