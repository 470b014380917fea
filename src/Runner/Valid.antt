-- ===== src/Runner/Valid.antt =====
-- What a configuration that `LoadConfig` returns without an error can be relied on for.
use snake_runner.Base.{
  pos, int_eq, int_beq_iff, Text, text_eq, text_beq_iff, [], ◌∷◌, Option, none, some, Bool-cases,
  true, false, is_empty, is_abs, clean, join_path, lookup, insert, ◌≡◌, ◌≢◌, refl, ap, subst, ◌⊎◌,
  inl, inr, arith,
}
use snake_runner.Errors.{Error}
use snake_runner.Set.{has, put, put_all, new_set}
use snake_runner.Runner.{
  Config, Loaded, loads, is_missing, breaks, Host, Result, configured, docker_mode, shell_mode,
  modes, set_token_path, read_token, token_of, set_parallel, set_name, set_dir, set_abs, set_auths,
  and_then, complete, configure, load_config,
}

modes_lem : (mode : Text) → has modes mode ≡ true → (mode ≡ docker_mode) ⊎ (mode ≡ shell_mode)
unfolding has new_set put_all put lookup insert
modes_lem mode h = ground (arith, text_beq_iff docker_mode mode, text_beq_iff shell_mode mode)

is_abs-join_path :
    (dir path : Text) → is_abs dir ≡ true → is_abs (join_path (dir ∷ path ∷ [])) ≡ true
unfolding join_path clean
is_abs-join_path [] path h = absurd (cc h)
is_abs-join_path (c ∷ dir) path h = ground arith

-- What the steps of `LoadConfig` establish, one after the other.
pub record IsValid (c : Config) : Type 0 where
  pub known_mode : (c.mode ≡ docker_mode) ⊎ (c.mode ≡ shell_mode)
  pub parallel : c.max_parallel_pipelines ≢ pos 0
  pub absolute : is_abs c.pipelines_dir ≡ true
  pub has_path : is_empty c.access_token_path ≡ false
  pub has_master : is_empty c.master_address ≡ false
  pub has_token : is_empty c.registration_token ≡ false

-- The fields of one configuration are those of another, but for the directory.
abbrev SameButDir : Config → Config → Type 0
SameButDir c d =
    (d.mode ≡ c.mode)
    × (d.max_parallel_pipelines ≡ c.max_parallel_pipelines)
    × (d.access_token_path ≡ c.access_token_path)
    × (d.master_address ≡ c.master_address)
    × (d.registration_token ≡ c.registration_token)

abbrev Same : Config → Config → Type 0
Same c d = (d.pipelines_dir ≡ c.pipelines_dir) × SameButDir c d

and_then_configured :
    (host : Host) (e : Config × Option Error) (go : Config → Result) (c : Config)
    → and_then host e go ≡ configured c
    → (e.1 ≡ none) × (go e.0 ≡ configured c)
and_then_configured host (d, none) go c h = (refl, h)
and_then_configured host (d, some error) go c h = absurd (cc h)

abbrev config_or : Config → Result → Config
config_or other (configured c) = c
config_or other _ = other

configured_injective : (c d : Config) → configured c ≡ configured d → c ≡ d
configured_injective c d h = ap (config_or c) h

-- The steps from the mode's check to the end, put together.
completed :
    (c p n q l e : Config)
    → has modes c.mode ≡ true
    → is_empty c.access_token_path ≡ false
    → is_empty c.master_address ≡ false
    → is_empty c.registration_token ≡ false
    → p.max_parallel_pipelines ≢ pos 0
    → (p.mode ≡ c.mode)
      × (p.access_token_path ≡ c.access_token_path)
      × (p.master_address ≡ c.master_address)
      × (p.registration_token ≡ c.registration_token)
    → Same p n
    → SameButDir n q
    → SameButDir q l
    → is_abs l.pipelines_dir ≡ true
    → Same l e
    → IsValid e
completed c p n q l e mode path master token parallel first named set located dir last = record {
  known_mode = modes_lem e.mode (ground arith);
  parallel = ground arith;
  absolute = ground arith;
  has_path = ground arith;
  has_master = ground arith;
  has_token = ground arith;
}

module _ (host : Host) where
  read_token-Same : (c : Config) → Same c (read_token host c).0
  unfolding read_token token_of
  read_token-Same c = ground arith

  set_name-Same : (c : Config) → Same c (set_name host c).0
  unfolding set_name
  set_name-Same c = ground arith

  set_auths-Same : (c : Config) → Same c (set_auths host c).0
  unfolding set_auths
  set_auths-Same c = ground arith

  set_dir-SameButDir : (c : Config) → SameButDir c (set_dir host c)
  unfolding set_dir
  set_dir-SameButDir c = ground arith

  set_abs-SameButDir : (c : Config) → SameButDir c (set_abs host c).0
  unfolding set_abs
  set_abs-SameButDir c = ground arith

  set_abs_dir :
      (c : Config)
      → is_abs host.working_dir.0 ≡ true
      → (set_abs host c).1 ≡ none
      → is_abs (set_abs host c).0.pipelines_dir ≡ true
  unfolding set_abs
  set_abs_dir c w h = ground (arith, is_abs-join_path host.working_dir.0 c.pipelines_dir w)

  set_parallel_lem :
      (c : Config)
      → host.num_cpu ≢ 0
      → ((set_parallel host c).max_parallel_pipelines ≢ pos 0)
        × (((set_parallel host c).mode ≡ c.mode)
            × ((set_parallel host c).access_token_path ≡ c.access_token_path)
            × ((set_parallel host c).master_address ≡ c.master_address)
            × ((set_parallel host c).registration_token ≡ c.registration_token))
  unfolding set_parallel
  set_parallel_lem c cpus = ground (arith, int_beq_iff c.max_parallel_pipelines (pos 0))

  complete-IsValid :
      (c d : Config)
      → host.num_cpu ≢ 0
      → is_abs host.working_dir.0 ≡ true
      → is_empty c.access_token_path ≡ false
      → is_empty c.master_address ≡ false
      → is_empty c.registration_token ≡ false
      → complete host c ≡ configured d
      → IsValid d
  unfolding complete
  complete-IsValid c d cpus dir path master token h = elim (Bool-cases (has modes c.mode)) [
    | inr e ↦ absurd (cc (rw (e, complete) at h))
    | inl e ↦
        let c1 = (set_name host (set_parallel host c)).0 in
        let c2 = (set_abs host (set_dir host c1)).0 in
        let c3 = (set_auths host c2).0 in
        let one =
          and_then_configured host (set_name host (set_parallel host c)) _ d
            (rw (e, complete) at h) in
        let two = and_then_configured host (set_abs host (set_dir host c1)) _ d one.1 in
        let three = and_then_configured host (set_auths host c2) configured d two.1 in
        let same : c3 ≡ d = configured_injective c3 d three.1 in
        let dir_set = set_abs_dir (set_dir host c1) dir two.0 in
        let first = set_parallel_lem c cpus in
        subst IsValid same (
          completed c (set_parallel host c) c1 (set_dir host c1) c2 c3 e path master token first.0
            first.1 (set_name-Same (set_parallel host c)) (set_dir-SameButDir c1)
            (set_abs-SameButDir (set_dir host c1)) dir_set (set_auths-Same c2))
  ]

  set_token_path_lem :
      (c : Config)
      → (is_empty (set_token_path host c).access_token_path ≡ false)
        × ((set_token_path host c).master_address ≡ c.master_address)
        × ((set_token_path host c).registration_token ≡ c.registration_token)
  unfolding set_token_path
  set_token_path_lem c = ground arith

  -- A configuration that `LoadConfig` returns without an error names a known mode, has a
  -- number of pipelines other than 0, an absolute directory for them, a path for the access token,
  -- and the master's address and a registration token; the host has a processor and an absolute
  -- working directory.
  pub load_config-IsValid :
      (loaded : Loaded) (d : Config)
      → host.num_cpu ≢ 0
      → is_abs host.working_dir.0 ≡ true
      → load_config host loaded ≡ configured d
      → IsValid d
  unfolding load_config configure
  load_config-IsValid (breaks error) d cpus dir h = absurd (cc h)
  load_config-IsValid (is_missing c) d cpus dir h = absurd (cc h)
  load_config-IsValid (loads c) d cpus dir h = elim (Bool-cases (is_empty c.master_address)) [
    | inl e ↦ absurd (cc (rw (e, configure) at h))
    | inr master ↦ elim (Bool-cases (is_empty c.registration_token)) [
      | inl e ↦ absurd (cc (rw (master, configure) at (rw (e) at h)))
      | inr token ↦
          let c1 = (read_token host (set_token_path host c)).0 in
          let same = read_token-Same (set_token_path host c) in
          let start = set_token_path_lem c in
          let whole : and_then host (read_token host (set_token_path host c)) (complete host)
              ≡ configured d =
            ground arith in
          let one =
            and_then_configured host (read_token host (set_token_path host c)) (complete host) d
              whole in
          complete-IsValid c1 d cpus dir (ground arith) (ground arith) (ground arith) one.1
    ]
  ]
