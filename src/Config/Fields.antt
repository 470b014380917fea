-- ===== src/Config/Fields.antt =====
-- What `Unmarshal` does with the fields of a file that it does not take out before the jobs.
use snake_runner.Base.{
  Text, text_eq, text_beq_iff, List, [], ◌∷◌, Option-cases, none, some, true, Bool-cases, text_beq,
  lookup, insert, remove, lookup-insert, lookup-remove, ◌≡◌, ◌≢◌, refl, inl, inr, arith,
}
use snake_runner.MapSlice.Nodes.{Node}
use snake_runner.Config.{
  Job, Pipeline, Decoder, empty_pipeline, read_variables, read_jobs, read_rest, read_stages,
  read_image, unmarshal, stages_key, image_key,
}

still :
    (key : Text) (raw : List (Text × Node)) {name : Text} {value : Node}
    → name ≢ key
    → lookup name raw ≡ some value
    → lookup name (remove key raw) ≡ some value
still key raw {name} h l = ground (arith, lookup-remove key name raw, text_beq_iff key name)

module _ (decoder : Decoder) where
  shell-read_jobs :
      (raw : List (Text × Node)) (config : Pipeline)
      → (read_jobs decoder raw config).0.shell ≡ config.shell
  unfolding read_jobs
  shell-read_jobs [] config = refl
  shell-read_jobs ((name, field) ∷ rest) config = elim (Option-cases (decoder.job field)) [
    | inl e ↦ rw (e, read_jobs) refl
    | inr (job, e) ↦
        rw (e, read_jobs)
          (shell-read_jobs rest (record config { jobs = insert name job config.jobs }))
  ]

  shell-read_variables :
      (raw : List (Text × Node)) (config : Pipeline)
      → (read_variables decoder raw config).0.shell ≡ config.shell
  unfolding read_variables
  shell-read_variables raw config = ground arith

  shell-read_rest :
      (raw : List (Text × Node)) (config : Pipeline)
      → (read_rest decoder raw config).0.shell ≡ config.shell
  unfolding read_rest
  shell-read_rest raw config =
      ground (
        arith,
        shell-read_jobs raw config,
        shell-read_variables raw (read_jobs decoder raw config).0,
      )

  shell-read_stages :
      (raw : List (Text × Node)) (config : Pipeline)
      → (read_stages decoder raw config).0.shell ≡ config.shell
  unfolding read_stages
  shell-read_stages raw config = elim (Option-cases (lookup stages_key raw)) [
    | inl e ↦ rw (e, read_stages) refl
    | inr (node, e) ↦
        rw (e, read_stages)
          (elim (Option-cases (decoder.texts node)) [
            | inl f ↦ rw f refl
            | inr (stages, f) ↦
                rw f (shell-read_rest (remove stages_key raw) (record config { stages = stages }))
          ])
  ]

  shell-read_image :
      (raw : List (Text × Node)) (config : Pipeline)
      → (read_image decoder raw config).0.shell ≡ config.shell
  unfolding read_image
  shell-read_image raw config = elim (Option-cases (lookup image_key raw)) [
    | inl e ↦ rw (e, read_image) (shell-read_stages raw config)
    | inr (field, e) ↦
        rw (e, read_image)
          (elim (Option-cases (decoder.text field)) [
            | inl f ↦ rw f refl
            | inr (image, f) ↦
                rw f (shell-read_stages (remove image_key raw) (record config { image = image }))
          ])
  ]

  -- Whatever the file says, the shell of the pipeline stays empty.
  pub shell-unmarshal : (contents : Text) → (unmarshal decoder contents).0.shell ≡ []
  unfolding unmarshal
  shell-unmarshal contents = elim (Option-cases (decoder.fields contents)) [
    | inl e ↦ rw (e, unmarshal) refl
    | inr (raw, e) ↦ rw (e, unmarshal) (shell-read_image raw empty_pipeline)
  ]

  -- The map keeps a job that it has.
  read_jobs_keeps :
      (name : Text) (raw : List (Text × Node)) (config : Pipeline)
      → lookup name config.jobs ≢ none
      → lookup name (read_jobs decoder raw config).0.jobs ≢ none
  unfolding read_jobs
  read_jobs_keeps name [] config h = h
  read_jobs_keeps name ((other, field) ∷ rest) config h = elim (Option-cases (decoder.job field)) [
    | inl e ↦ rw (e, read_jobs) h
    | inr (job, e) ↦
        rw (e, read_jobs)
          (read_jobs_keeps name rest (record config { jobs = insert other job config.jobs })
            (ground (arith, lookup-insert other name job config.jobs, text_beq_iff other name)))
  ]

  insert_known :
      (name other : Text) (job : Job) (jobs : List (Text × Job))
      → text_beq other name ≡ true
      → lookup name (insert other job jobs) ≢ none
  insert_known name other job jobs h = ground (arith, lookup-insert other name job jobs)

  -- Without an error every field was decoded as a job, which the map has.
  read_jobs_all :
      (name : Text) (value : Node) (raw : List (Text × Node)) (config : Pipeline)
      → (read_jobs decoder raw config).1 ≡ none
      → lookup name raw ≡ some value
      → (decoder.job value ≢ none) × (lookup name (read_jobs decoder raw config).0.jobs ≢ none)
  unfolding read_jobs lookup
  read_jobs_all name value [] config e l = absurd (cc)
  read_jobs_all name value ((other, field) ∷ rest) config e l =
      elim (Option-cases (decoder.job field)) [
        | inl f ↦ absurd (cc (rw (f, read_jobs) at e))
        | inr (job, f) ↦ elim (Bool-cases (text_beq other name)) [
          | inl same ↦ (
            (λ q. let v : field ≡ value = ground arith in cc v),
            rw (f, read_jobs)
                (read_jobs_keeps name rest (record config { jobs = insert other job config.jobs })
                  (insert_known name other job config.jobs same)),
          )
          | inr differs ↦
              rw (f, read_jobs)
                (read_jobs_all name value rest
                  (record config { jobs = insert other job config.jobs }) (rw (f, read_jobs) at e)
                  (rw differs at l))
        ]
      ]

  read_rest_all :
      (name : Text) (value : Node) (raw : List (Text × Node)) (config : Pipeline)
      → (read_rest decoder raw config).1 ≡ none
      → lookup name raw ≡ some value
      → (decoder.job value ≢ none) × (lookup name (read_rest decoder raw config).0.jobs ≢ none)
  unfolding read_rest
  read_rest_all name value raw config e l =
      let done : (read_jobs decoder raw config).1 ≡ none = ground arith in
      let all = read_jobs_all name value raw config done l in
      (all.0, rw (done, read_rest) (kept (read_jobs decoder raw config).0 all.1))
    where
      kept :
          (config : Pipeline)
          → lookup name config.jobs ≢ none
          → lookup name (read_variables decoder raw config).0.jobs ≢ none
      kept config h = unfold read_variables in ground arith

  read_stages_all :
      (name : Text) (value : Node) (raw : List (Text × Node)) (config : Pipeline)
      → (read_stages decoder raw config).1 ≡ none
      → lookup name raw ≡ some value
      → name ≢ stages_key
      → (decoder.job value ≢ none) × (lookup name (read_stages decoder raw config).0.jobs ≢ none)
  unfolding read_stages
  read_stages_all name value raw config e l n = elim (Option-cases (lookup stages_key raw)) [
    | inl p ↦ absurd (cc (rw (p, read_stages) at e))
    | inr (field, p) ↦ elim (Option-cases (decoder.texts field)) [
      | inl q ↦ absurd (ground arith)
      | inr (stages, q) ↦
          rw (p, read_stages)
            (rw q (
              read_rest_all name value (remove stages_key raw) (record config { stages = stages })
                (ground arith) (still stages_key raw n l)))
    ]
  ]

  read_image_all :
      (name : Text) (value : Node) (raw : List (Text × Node)) (config : Pipeline)
      → (read_image decoder raw config).1 ≡ none
      → lookup name raw ≡ some value
      → name ≢ image_key
      → name ≢ stages_key
      → (decoder.job value ≢ none) × (lookup name (read_image decoder raw config).0.jobs ≢ none)
  unfolding read_image
  read_image_all name value raw config e l n m = elim (Option-cases (lookup image_key raw)) [
    | inl p ↦
        rw (p, read_image) (read_stages_all name value raw config (rw (p, read_image) at e) l m)
    | inr (field, p) ↦ elim (Option-cases (decoder.text field)) [
      | inl q ↦ absurd (ground arith)
      | inr (image, q) ↦
          rw (p, read_image)
            (rw q (
              read_stages_all name value (remove image_key raw) (record config { image = image })
                (ground arith) (still image_key raw n l) m))
    ]
  ]

  -- A file's field under another name than `image` and `stages`, `variables` and `shell` included,
  -- is taken for a job: where `Unmarshal` returns no error, the field could be decoded as one, and
  -- the configuration has a job of that name.
  pub unmarshal_takes_for_job :
      (contents : Text) (raw : List (Text × Node)) (name : Text) (value : Node)
      → decoder.fields contents ≡ some raw
      → lookup name raw ≡ some value
      → name ≢ image_key
      → name ≢ stages_key
      → (unmarshal decoder contents).1 ≡ none
      → (decoder.job value ≢ none) × (lookup name (unmarshal decoder contents).0.jobs ≢ none)
  unfolding unmarshal
  unmarshal_takes_for_job contents raw name value f l i s e =
      rw (f, unmarshal)
        (read_image_all name value raw empty_pipeline (rw (f, unmarshal) at e) l i s)
