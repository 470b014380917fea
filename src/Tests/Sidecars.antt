-- ===== src/Tests/Sidecars.antt =====
-- A sidecar in a container, with hosts that refuse some calls, and an ssh-agent.
use snake_runner.Base.{
  pos, Text, text_eq, codes, List, [], ◌∷◌, join, none, some, true, false, if◌then◌else◌, Bool,
  Option, lookup, remove, ◌≡◌, ◌↔◌, refl,
}
use snake_runner.Errors.{Error, message}
use snake_runner.Config.{unmarshal}
use snake_runner.Pipeline.Reading.{read_config, read_config_cloud}
use snake_runner.Sidecar.{Host, Call, ServeOptions, destroys}
use snake_runner.Sidecar.Cloud
use snake_runner.Sidecar.Cloud.{new_cloud, cloud_interface}
use snake_runner.Sidecar.Cloud.Script.{Follows, script, serve-Follows}
use snake_runner.Sidecar.Cloud.End.{DirsFail, cleaned, destroy_panics}
use snake_runner.Sidecar.Cloud.Reading.{line_end, from_first}
use snake_runner.Sidecar.Agent.{Agent, Select, new_agent, on_end, here, next, ends}
use snake_runner.Sidecar.Agent.Answers.{agent_answers}
use snake_runner.Tests.Files.{lenient}

abbrev cloud : Cloud.Builder
cloud = record {
  name = codes "pipeline-7-uniq-x";
  pipelines_dir = codes "/var/lib/pipelines";
  slug = codes "P/r";
  private_key = codes "key";
  volumes = [];
}

abbrev options : ServeOptions
options = record {
  known_hosts = record { hostname = codes "git.host"; port = pos 7999; key = codes "rsa k" } ∷ [];
  clone_url = codes "ssh://git.host/r";
  commit = codes "0123456789";
}

-- Every call succeeds.
abbrev calm : Host
calm calls c = none

-- The third call and every one of that number after it fails: it makes the directories.
abbrev third : List Call → Bool
third (a ∷ b ∷ []) = true
third calls = false

abbrev full_disk : Host
full_disk calls c = if third calls then some (message (codes "no space left")) else none

abbrev cat : List Call → Text → Text → List Text × Option Error
cat calls dir path = (codes "image: go" ∷ codes "stages: [test]" ∷ [], none)

serve-Follows_example :
    Follows [] (script full_disk cloud options) (Cloud.serve full_disk cloud options new_cloud)
serve-Follows_example = serve-Follows full_disk cloud options new_cloud

destroy_panics_example :
    ((Cloud.destroy full_disk cloud (Cloud.serve full_disk cloud options new_cloud).0).1 ≡ true)
    ↔ (DirsFail full_disk cloud × (full_disk (cleaned full_disk cloud) destroys ≡ none))
destroy_panics_example = destroy_panics full_disk cloud options

-- A decoder to which every file is good.
read_config_cloud_example :
    ((Cloud.serve calm cloud options new_cloud).0.calls ≡ script calm cloud options)
    × ((cat [] [] []).1 ≡ none)
    × ((read_config
          (cloud_interface calm cloud cat)
          lenient
          options
          (codes "snake-ci.yaml")
          new_cloud).1.0
        ≡ (unmarshal lenient (join line_end (from_first (cat [] [] []).0))).0)
unfolding read_config Cloud.serve Cloud.read_output unmarshal lookup remove
read_config_cloud_example =
    read_config_cloud calm cloud cat lenient options (codes "snake-ci.yaml") refl

-- The agent ends before it has printed anything.
abbrev ended : Agent
ended = on_end new_agent none

agent_answers_example : (b : Agent) × Select ended b
unfolding on_end
agent_answers_example =
    agent_answers (next here (ends none refl (λ e p. absurd (cc p)) refl)) refl refl
