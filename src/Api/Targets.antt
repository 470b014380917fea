-- ===== src/Api/Targets.antt =====
-- Where the client's requests go, and what they carry.
use snake_runner.Base.{
  ℤ, itoa, atoi, atoi-itoa, itoa_plain, Text, text_eq, text_beq, codes, List, [], ◌∷◌, ◌++◌, Option,
  none, some, Bool-cases, is_empty, insert, lookup, split_on, split_on-last, split_on-first, drop,
  length, append-nil, if◌then◌else◌, ◌≡◌, refl, sym, ap, ◌∙◌, inl, inr,
}
use snake_runner.Client.{update_pipeline, update_job}
use snake_runner.Api.{get_url, http_request}
use snake_runner.Api.Calls.{
  ApiClient, token_header, new_request, set_header, request, Operation, heartbeats, registers,
  gets_task, updates, pushes_logs, fill, request_of,
}

-- What of the master a request is about.
pub data Target : Type 0 where
  runner_itself registration next_task nothing : Target
  pipeline : ℤ → Target
  job : ℤ → ℤ → Target
  logs : ℤ → ℤ → Target

abbrev pub target_of : Operation → Target
target_of (heartbeats version) = runner_itself
target_of (registers name token) = registration
target_of (gets_task running query ssh_key) = next_task
target_of (updates (update_pipeline id status started finished)) = pipeline id
target_of (updates (update_job id job_id status started finished)) = job id job_id
target_of (pushes_logs id job_id text) = logs id job_id

-- The target of a path, read back from its elements.
abbrev single : Text → Target
single element =
    if text_beq element (codes "heartbeat")
    then runner_itself
    else if text_beq element (codes "register")
    then registration
    else next_task

abbrev target_at : List Text → Target
target_at (gate ∷ element ∷ []) = single element
target_at (gate ∷ pipelines ∷ id ∷ []) = pipeline (atoi id)
target_at (gate ∷ pipelines ∷ id ∷ jobs ∷ job_id ∷ []) = job (atoi id) (atoi job_id)
target_at (gate ∷ pipelines ∷ id ∷ jobs ∷ job_id ∷ ending ∷ []) = logs (atoi id) (atoi job_id)
target_at _ = nothing

abbrev read_path : Text → Target
read_path path = target_at (split_on b'/' path).1

read_path-itoa :
    (client : ApiClient) (operation : Operation)
    → read_path (request_of client operation).path ≡ target_of operation
unfolding request_of
read_path-itoa client (heartbeats version) = refl
read_path-itoa client (registers name token) = refl
read_path-itoa client (gets_task running query ssh_key) = refl
read_path-itoa client (updates (update_pipeline id status started finished)) =
    rw (split_on-last b'/' (itoa id) (itoa_plain id)) (ap pipeline (atoi-itoa id))
read_path-itoa client (updates (update_job id job_id status started finished)) =
    rw (split_on-first b'/' (itoa id) (codes "jobs/" ++ itoa job_id) (itoa_plain id)) (
      rw (split_on-last b'/' (itoa job_id) (itoa_plain job_id))
        (rw (atoi-itoa id, atoi-itoa job_id) refl))
read_path-itoa client (pushes_logs id job_id text) =
    rw
      (split_on-first b'/' (itoa id) (codes "jobs/" ++ (itoa job_id ++ codes "/logs"))
        (itoa_plain id))
      (rw (split_on-first b'/' (itoa job_id) (codes "logs") (itoa_plain job_id))
        (rw (atoi-itoa id, atoi-itoa job_id) refl))

request_base : (client : ApiClient) → (request client).base_url ≡ client.base_url
unfolding request set_header new_request
request_base client = elim (Bool-cases (is_empty client.config.access_token)) [
  | inl e ↦ rw e refl
  | inr e ↦ rw e refl
]

request_of-base :
    (client : ApiClient) (operation : Operation)
    → (request_of client operation).base_url ≡ client.base_url
unfolding request_of fill
request_of-base client (heartbeats version) = request_base client
request_of-base client (registers name token) = request_base client
request_of-base client (gets_task running query ssh_key) = request_base client
request_of-base client (updates (update_pipeline id status started finished)) = request_base client
request_of-base client (updates (update_job id job_id status started finished)) =
    request_base client
request_of-base client (pushes_logs id job_id text) = request_base client

drop-append : (s t : Text) → drop (length s) (s ++ t) ≡ t
drop-append [] t = refl
drop-append (c ∷ s) t = drop-append s t

url_lem :
    (client : ApiClient) (operation : Operation)
    → (http_request (request_of client operation)).url
      ≡ get_url (new_request client.base_url) ++ (request_of client operation).path
unfolding http_request get_url new_request
url_lem client operation = rw (request_of-base client operation, append-nil) refl

url-path :
    (client : ApiClient) (operation : Operation)
    → drop
        (length (get_url (new_request client.base_url)))
        (http_request (request_of client operation)).url
      ≡ (request_of client operation).path
url-path client operation =
    rw (url_lem client operation)
      (drop-append (get_url (new_request client.base_url)) (request_of client operation).path)

-- Two of the client's requests that go to the same URL are about the same thing: the runner itself,
-- its registration, its next task, the same pipeline, or the same job or logs of the same pipeline.
pub same_target :
    (client : ApiClient) (a b : Operation)
    → (http_request (request_of client a)).url ≡ (http_request (request_of client b)).url
    → target_of a ≡ target_of b
same_target client a b same =
    let n = length (get_url (new_request client.base_url)) in
    sym (read_path-itoa client a)
    ∙ ap read_path (sym (url-path client a) ∙ ap (drop n) same ∙ url-path client b)
    ∙ read_path-itoa client b

-- The access token, where the runner has one.
abbrev pub token_of : ApiClient → Option Text
token_of client =
    if is_empty client.config.access_token then none else some client.config.access_token

request_token :
    (client : ApiClient)
    → lookup token_header
        (insert (codes "Content-Type") (codes "application/json") (request client).headers)
      ≡ token_of client
unfolding request set_header new_request lookup insert
request_token client = elim (Bool-cases (is_empty client.config.access_token)) [
  | inl e ↦ rw e refl
  | inr e ↦ rw e refl
]

-- Every request that the client sends carries the access token if the runner has one, and no token
-- otherwise.
pub carries_token :
    (client : ApiClient) (operation : Operation)
    → lookup token_header (http_request (request_of client operation)).headers ≡ token_of client
unfolding request_of fill http_request
carries_token client (heartbeats version) = request_token client
carries_token client (registers name token) = request_token client
carries_token client (gets_task running query ssh_key) = request_token client
carries_token client (updates (update_pipeline id status started finished)) = request_token client
carries_token client (updates (update_job id job_id status started finished)) = request_token client
carries_token client (pushes_logs id job_id text) = request_token client
