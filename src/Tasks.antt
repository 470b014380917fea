-- ===== src/Tasks.antt =====
-- internal/tasks/tasks.go and `GetTask` of internal/api/client.go: the task that the master sends.
-- The JSON decoder is outside; `Decoder` says what it makes of a task's data.
use snake_runner.Base.{
  Bool, ℤ, Text, text_eq, text_beq, text_beq_iff, codes, List, Option-cases, none, some, Bool-cases,
  is_empty, if◌then◌else◌, ◌≡◌, refl, ap, subst, inl, inr,
}
use snake_runner.Errors.{Error, message}
use snake_runner.Scheduler.{
  Task, pipeline_run, pipeline_cancel, runner_terminate, unexpected, Reply, failed, no_task, task,
}
use snake_runner.Api.{Request, Transport, do_request}
use snake_runner.Api.Calls.{ApiClient, gets_task, request_of}

pub record CloneUrl : Type 0 where
  pub method : Text
  pub ssh : Text
  pub http : Text

-- `GetPreferredURL`
unfoldable pub get_preferred_url : CloneUrl → Text
get_preferred_url url =
    if text_beq url.method (codes "http")
    then if is_empty url.http then url.ssh else url.http
    else url.ssh

-- What the decoder makes of the data of each kind: what the scheduler uses, or an error.
pub data Decoded {ℓ} (A : Type ℓ) : Type ℓ where
  decoded : A → Decoded A
  undecoded : Error → Decoded A

pub record Decoder : Type 0 where
  pub run : Text → Decoded ℤ
  pub cancel : Text → Decoded (List ℤ)
  pub terminate : Text → Decoded Text

-- The response: the kind, and the raw data.
pub record TaskResponse : Type 0 where
  pub kind : Text
  pub contents : Text

abbrev reply_of : {A : Type 0} → (A → Task) → Decoded A → Reply
reply_of put (decoded a) = task (put a)
reply_of put (undecoded error) = failed error

-- `Unmarshal`
unfoldable pub unmarshal : Decoder → TaskResponse → Reply
unmarshal decoder response =
    if is_empty response.kind
    then no_task
    else if text_beq response.kind (codes "pipeline_run")
    then reply_of pipeline_run (decoder.run response.contents)
    else if text_beq response.kind (codes "pipeline_cancel")
    then reply_of pipeline_cancel (decoder.cancel response.contents)
    else if text_beq response.kind (codes "runner_terminate")
    then reply_of runner_terminate (decoder.terminate response.contents)
    else failed (message (codes "unexpected task kind"))

-- `GetTask`, with the client's request; the response is what the JSON decoder makes of the body.
unfoldable pub get_task : Request → Transport → Decoder → TaskResponse → Reply
unfolding unmarshal
get_task request transport decoder response = elim (do_request request transport) [
  | some error ↦ failed error
  | none ↦ unmarshal decoder response
]

-- The kind and the data of a task that can be served.
abbrev pub IsTask : Decoder → TaskResponse → Task → Type 0
IsTask decoder response (pipeline_run id) =
    (response.kind ≡ codes "pipeline_run") × (decoder.run response.contents ≡ decoded id)
IsTask decoder response (pipeline_cancel ids) =
    (response.kind ≡ codes "pipeline_cancel") × (decoder.cancel response.contents ≡ decoded ids)
IsTask decoder response (runner_terminate text) =
    (response.kind ≡ codes "runner_terminate")
    × (decoder.terminate response.contents ≡ decoded text)
IsTask decoder response unexpected = ⊥

abbrev task_or : Task → Reply → Task
task_or other (task t) = t
task_or other _ = other

reply_task :
    {A : Type 0} (put : A → Task) (d : Decoded A) (t : Task)
    → reply_of put d ≡ task t
    → (a : A) × (d ≡ decoded a) × (put a ≡ t)
reply_task put (decoded a) t h = (a, refl, task_of h)
  where
    task_of : {x y : Task} → task x ≡ task y → x ≡ y
    task_of {x} {y} e = ap (task_or x) e
reply_task put (undecoded error) t h = absurd (cc h)

-- Only a known kind whose data can be decoded is served as a task.
unmarshal_task :
    (decoder : Decoder) (response : TaskResponse) (t : Task)
    → unmarshal decoder response ≡ task t
    → IsTask decoder response t
unfolding unmarshal
unmarshal_task decoder response t h = elim (Bool-cases (is_empty response.kind)) [
  | inl e ↦ absurd (cc (rw (e, unmarshal) at h))
  | inr e ↦ elim (Bool-cases (text_beq response.kind (codes "pipeline_run"))) [
    | inl run ↦
        let (a, d, q) = reply_task pipeline_run _ t (rw (e, unmarshal) at (rw run at h)) in
        subst (IsTask decoder response) q ((text_beq_iff _ _).0 run, d)
    | inr e1 ↦ elim (Bool-cases (text_beq response.kind (codes "pipeline_cancel"))) [
      | inl cancel ↦
          let (a, d, q) =
            reply_task pipeline_cancel _ t (rw (e, unmarshal) at (rw e1 at (rw cancel at h))) in
          subst (IsTask decoder response) q ((text_beq_iff _ _).0 cancel, d)
      | inr e2 ↦ elim (Bool-cases (text_beq response.kind (codes "runner_terminate"))) [
        | inl stop ↦
            let (a, d, q) =
              reply_task runner_terminate _ t
                (rw (e, unmarshal) at (rw e1 at (rw e2 at (rw stop at h)))) in
            subst (IsTask decoder response) q ((text_beq_iff _ _).0 stop, d)
        | inr e3 ↦ absurd (cc (rw (e, unmarshal) at (rw e1 at (rw e2 at (rw e3 at h)))))
      ]
    ]
  ]
]

-- `GetTask` gives the scheduler a task only where its request succeeded, and then the task of the
-- response's kind, with what the decoder made of its data.
pub get_task_serves :
    (client : ApiClient) (running : List ℤ) (query : Bool) (ssh_key : Text) (transport : Transport)
    (decoder : Decoder) (response : TaskResponse) (t : Task)
    → get_task (request_of client (gets_task running query ssh_key)) transport decoder response
      ≡ task t
    → (do_request (request_of client (gets_task running query ssh_key)) transport ≡ none)
      × IsTask decoder response t
unfolding get_task
get_task_serves client running query ssh_key transport decoder response t h =
    elim (Option-cases
      (do_request (request_of client (gets_task running query ssh_key)) transport)) [
        | inr (error, e) ↦ absurd (cc (rw (e, get_task) at h))
        | inl e ↦ (e, unmarshal_task decoder response t (rw (e, get_task) at h))
      ]
