-- ===== src/Config.antt =====
-- internal/config/config.go: what the pipeline's file says. The YAML decoder of gopkg.in/yaml.v3 is
-- outside: `Decoder` holds its calls. The fields of a file are a Go map, given in the order in which
-- the loop visits them.
pub mod Fields
use snake_runner.Base.{
  Text, text_eq, codes, List, [], ◌∷◌, Option, none, some, lookup, insert, remove,
}
use snake_runner.MapSlice.{Pair}
use snake_runner.MapSlice.Nodes.{Node, Parsed, parsed, panics, new}

pub record Job : Type 0 where
  pub variables : Option (List Pair)
  pub stage : Text
  pub shell : Text
  pub image : Text
  pub commands : List Text

pub record Pipeline : Type 0 where
  pub variables : Option (List Pair)
  pub shell : Text
  pub image : Text
  pub stages : List Text
  pub jobs : List (Text × Job)

-- `yaml.Unmarshal` into a map, and `node.Decode` into a string, a list of strings, a job.
pub record Decoder : Type 0 where
  pub fields : Text → Option (List (Text × Node))
  pub text : Node → Option Text
  pub texts : Node → Option (List Text)
  pub job : Node → Option Job

-- The errors of `Unmarshal`, and its panic, which comes from `mapslice.New`.
pub data Problem : Type 0 where
  invalid_yaml invalid_image missing_stages invalid_stages invalid_variables panicked : Problem
  invalid_job : Text → Problem

abbrev pub empty_pipeline : Pipeline
empty_pipeline = record { variables = none; shell = []; image = []; stages = []; jobs = [] }

-- The steps return the configuration as far as it is read, and the error.
abbrev pub Read : Type 0
Read = Pipeline × Option Problem

abbrev pub image_key : Text
image_key = codes "image"

abbrev pub stages_key : Text
stages_key = codes "stages"

abbrev pub variables_key : Text
variables_key = codes "variables"

module _ (decoder : Decoder) where
  unfoldable pub read_variables : List (Text × Node) → Pipeline → Read
  read_variables raw config = elim (lookup variables_key raw) [
    | none ↦ (config, none)
    | some node ↦ elim (new node) [
      | parsed pairs ↦ (record config { variables = some pairs }, none)
      | panics ↦ (config, some panicked)
      | _ ↦ (record config { variables = none }, some invalid_variables)
    ]
  ]

  -- The loop over the fields that are left, each of them taken for a job.
  unfoldable pub read_jobs : List (Text × Node) → Pipeline → Read
  read_jobs [] config = (config, none)
  read_jobs ((name, field) ∷ rest) config = elim (decoder.job field) [
    | none ↦ (config, some (invalid_job name))
    | some job ↦ read_jobs rest (record config { jobs = insert name job config.jobs })
  ]

  -- The loop and what follows it.
  unfoldable pub read_rest : List (Text × Node) → Pipeline → Read
  unfolding read_variables read_jobs
  read_rest raw config =
      let (config', problem) = read_jobs raw config in
      elim problem [ none ↦ read_variables raw config' | some e ↦ (config', some e) ]

  unfoldable pub read_stages : List (Text × Node) → Pipeline → Read
  unfolding read_rest
  read_stages raw config = elim (lookup stages_key raw) [
    | none ↦ (config, some missing_stages)
    | some node ↦ elim (decoder.texts node) [
      | none ↦ (config, some invalid_stages)
      | some stages ↦ read_rest (remove stages_key raw) (record config { stages = stages })
    ]
  ]

  unfoldable pub read_image : List (Text × Node) → Pipeline → Read
  unfolding read_stages
  read_image raw config = elim (lookup image_key raw) [
    | none ↦ read_stages raw config
    | some node ↦ elim (decoder.text node) [
      | none ↦ (config, some invalid_image)
      | some image ↦ read_stages (remove image_key raw) (record config { image = image })
    ]
  ]

  -- `Unmarshal`
  unfoldable pub unmarshal : Text → Read
  unfolding read_image
  unmarshal contents = elim (decoder.fields contents) [
    | none ↦ (empty_pipeline, some invalid_yaml)
    | some raw ↦ read_image raw empty_pipeline
  ]
