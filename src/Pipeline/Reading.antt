-- ===== src/Pipeline/Reading.antt =====
-- `readConfig`: the repository is fetched by a sidecar, and the pipeline's file is read out of it.
use snake_runner.Base.{Text, codes, List, [], ◌++◌, join, Option, none, some, ◌≡◌, refl, ap, ◌∙◌}
use snake_runner.Errors.{Error, message, format}
use snake_runner.Config.{
  Pipeline, Decoder, panicked, invalid_yaml, invalid_image, missing_stages, invalid_stages,
  invalid_variables, invalid_job, Read, empty_pipeline, unmarshal,
}
use snake_runner.Sidecar.{Host, Call, Interface, ServeOptions}
use snake_runner.Sidecar.Cloud.{
  Builder, Cloud, new_cloud, git_dir, serve, read_chunks, read_output, cloud_interface,
}
use snake_runner.Sidecar.Cloud.Script.{Follows, script, serve-Follows}
use snake_runner.Sidecar.Cloud.Reading.{line_end, from_first, read_chunks-join}
use snake_runner.Pipeline.Jobs.{Outcome, succeeds, errs, panics}

-- `config.Unmarshal` and its error.
unfoldable pub finish_reading : Read → Pipeline × Outcome
finish_reading (config, none) = (config, succeeds)
finish_reading (config, some panicked) =
    (config, panics (message (codes "runtime error: index out of range")))
finish_reading (config, some problem) =
    (config, errs (message (codes "unable to unmarshal yaml data")))

unfoldable pub read_contents : Decoder → Text × Option Error → Pipeline × Outcome
unfolding finish_reading
read_contents decoder (contents, some error) = (
  empty_pipeline,
  errs (format error (codes "unable to obtain file from sidecar container with repository")),
)
read_contents decoder (contents, none) = finish_reading (unmarshal decoder contents)

module _ {S : Type 0} (sidecar : Interface S) (decoder : Decoder) where
  unfoldable pub read_served : Text → S × Option Error → S × (Pipeline × Outcome)
  unfolding read_contents
  read_served filename (s, some error) =
      (s, (empty_pipeline, errs (format error (codes "unable ot setup repository"))))
  read_served filename (s, none) =
      (s, read_contents decoder (sidecar.read_file s (sidecar.git_dir s) filename))

  -- `readConfig`, with the sidecar that `buildSidecar` has made.
  unfoldable pub read_config : ServeOptions → Text → S → S × (Pipeline × Outcome)
  unfolding read_served
  read_config opts filename s = read_served filename (sidecar.serve opts s)

finish_reading_config : (read : Read) → (finish_reading read).0 ≡ read.0
unfolding finish_reading
finish_reading_config (config, none) = refl
finish_reading_config (config, some panicked) = refl
finish_reading_config (config, some invalid_yaml) = refl
finish_reading_config (config, some invalid_image) = refl
finish_reading_config (config, some missing_stages) = refl
finish_reading_config (config, some invalid_stages) = refl
finish_reading_config (config, some invalid_variables) = refl
finish_reading_config (config, some (invalid_job name)) = refl

contents_read :
    (decoder : Decoder) (chunks : List Text × Option Error)
    → (read_contents decoder (read_output chunks)).1 ≡ succeeds
    → ((read_contents decoder (read_output chunks)).0
        ≡ (unmarshal decoder (join line_end (from_first chunks.0))).0)
      × (chunks.1 ≡ none)
unfolding read_contents read_output
contents_read decoder (chunks, some error) h = absurd (cc h)
contents_read decoder (chunks, none) h = (
  finish_reading_config (unmarshal decoder (read_chunks [] chunks))
      ∙ ap (λ text. (unmarshal decoder text).0) (read_chunks-join chunks),
  refl,
)

served_read :
    (host : Host) (b : Builder) (cat : List Call → Text → Text → List Text × Option Error)
    (decoder : Decoder) (opts : ServeOptions) (filename : Text) (before : List Call)
    (served : Cloud × Option Error)
    → Follows before (script host b opts) served
    → let (s, read) = read_served (cloud_interface host b cat) decoder filename served in
      read.1 ≡ succeeds
      → let output = cat s.calls (git_dir host b) filename in
        (s.calls ≡ before ++ script host b opts)
        × (output.1 ≡ none)
        × (read.0 ≡ (unmarshal decoder (join line_end (from_first output.0))).0)
unfolding read_served
served_read host b cat decoder opts filename before (s, some error) f h = absurd (cc h)
served_read host b cat decoder opts filename before (s, none) f h =
    let all = contents_read decoder (cat s.calls (git_dir host b) filename) h in (f, all.1, all.0)

-- Where `readConfig` succeeds through the sidecar in a container, the sidecar has made all its calls
-- in order, and the configuration is what the decoder makes of the chunks that `cat` has put out,
-- joined by line feeds.
pub read_config_cloud :
    (host : Host) (b : Builder) (cat : List Call → Text → Text → List Text × Option Error)
    (decoder : Decoder) (opts : ServeOptions) (filename : Text)
    → (read_config (cloud_interface host b cat) decoder opts filename new_cloud).1.1 ≡ succeeds
    → let (s, read) = read_config (cloud_interface host b cat) decoder opts filename new_cloud in
      let output = cat s.calls (git_dir host b) filename in
      (s.calls ≡ script host b opts)
      × (output.1 ≡ none)
      × (read.0 ≡ (unmarshal decoder (join line_end (from_first output.0))).0)
unfolding read_config
read_config_cloud host b cat decoder opts filename h =
    served_read host b cat decoder opts filename [] (serve host b opts new_cloud)
      (serve-Follows host b opts new_cloud) h
