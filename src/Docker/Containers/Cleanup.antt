-- ===== src/Docker/Containers/Cleanup.antt =====
-- Which containers `Cleanup` leaves.
use snake_runner.Base.{
  ℕ, suc, Text, text_beq, text_eq, [], ◌∷◌, keep, none, some, Bool, Bool-cases, true, false, not,
  Option, Option-cases, ◌&&◌, ◌||◌, ◌≡◌, refl, sym, ap, ◌∙◌, inl, inr, arith,
}
use snake_runner.Errors.{Error}
use snake_runner.Docker.Containers.{
  Container, Docker, CreateOptions, ContainerEngine, Containers, container_of, create, other_than,
  remove, destroy, destroy_ours, runs, clean_up,
}

abbrev is_none : Option Error → Bool
is_none none = true
is_none (some error) = false

-- The identifier is that of a listed container of ours, and its removal succeeds.
abbrev pub is_gone : ContainerEngine → Containers → Container → Bool
is_gone engine [] c = false
is_gone engine (l ∷ listed) c =
    (l.ours && (is_none (engine.remove l.id) && text_beq c.id l.id)) || is_gone engine listed c

keep_both :
    (p q r : Container → Bool) (cs : Containers)
    → ((c : Container) → r c ≡ (q c && p c))
    → keep p (keep q cs) ≡ keep r cs
keep_both p q r [] h = refl
keep_both p q r (c ∷ cs) h = ground (arith, keep_both p q r cs h, h c)

keep_same :
    (p r : Container → Bool) (cs : Containers)
    → ((c : Container) → p c ≡ r c)
    → keep p cs ≡ keep r cs
keep_same p r [] h = refl
keep_same p r (c ∷ cs) h = ground (arith, keep_same p r cs h, h c)

keep_all : (cs : Containers) → keep (λ c. true) cs ≡ cs
keep_all [] = refl
keep_all (c ∷ cs) = ap (◌∷◌ c) (keep_all cs)

destroy-keep :
    (engine : ContainerEngine) (id : Text) (containers : Containers)
    → engine.remove id ≡ none
    → (destroy engine (some id) containers).0 ≡ keep (other_than id) containers
unfolding destroy remove
destroy-keep engine id containers h = rw (h, remove) refl

destroy_fails :
    (engine : ContainerEngine) (id : Text) (containers : Containers) (error : Error)
    → engine.remove id ≡ some error
    → (destroy engine (some id) containers).0 ≡ containers
unfolding destroy remove
destroy_fails engine id containers error h = rw (h, remove) refl

module _ (engine : ContainerEngine) where
  destroy_ours_lem :
      (listed containers : Containers) (n : ℕ)
      → (destroy_ours engine listed containers n).0
        ≡ keep (λ c. not (is_gone engine listed c)) containers
  unfolding destroy_ours
  destroy_ours_lem [] containers n = sym (keep_all containers)
  destroy_ours_lem (l ∷ listed) containers n = elim (Bool-cases l.ours) [
    | inr e ↦
        rw (e, destroy_ours)
          (destroy_ours_lem listed containers n ∙ keep_same _ _ containers (λ c. ground arith))
    | inl e ↦ elim (Option-cases (engine.remove l.id)) [
      | inl f ↦
          rw (e, destroy_ours)
            (destroy_ours_lem listed (destroy engine (some l.id) containers).0 (suc n)
              ∙ ap (keep (λ c. not (is_gone engine listed c)))
                  (destroy-keep engine l.id containers f)
              ∙ keep_both _ (other_than l.id) _ containers (λ c. ground arith))
      | inr (error, f) ↦
          rw (e, destroy_ours)
            (destroy_ours_lem listed (destroy engine (some l.id) containers).0 (suc n)
              ∙ ap (keep (λ c. not (is_gone engine listed c)))
                  (destroy_fails engine l.id containers error f)
              ∙ keep_same _ _ containers (λ c. ground arith))
    ]
  ]

  -- Where the containers can be listed, `Cleanup` leaves exactly the containers whose identifier is
  -- not that of a running container of ours whose removal succeeds.
  pub clean_up_lem :
      (containers : Containers)
      → engine.list ≡ none
      → (clean_up engine containers).0
        ≡ keep (λ c. not (is_gone engine (keep runs containers) c)) containers
  unfolding clean_up
  clean_up_lem containers listed =
      rw (listed, clean_up) (destroy_ours_lem (keep runs containers) containers 0)

  -- A container that was created and could not be started is not removed by `Create`, and a
  -- `Cleanup` that can list leaves it, provided its identifier is not that of a running
  -- container of ours.
  pub failed_start_stays :
      (docker : Docker) (opts : CreateOptions) (containers : Containers) (error : Error)
      → engine.create ≡ none
      → engine.start ≡ some error
      → engine.list ≡ none
      → is_gone engine (keep runs containers) (container_of docker engine opts false) ≡ false
      → (clean_up engine (create docker engine opts containers).0).0
        ≡ container_of docker engine opts false ∷ (clean_up engine containers).0
  unfolding create container_of
  failed_start_stays docker opts containers error made failed listed fresh =
      let now : (create docker engine opts containers).0
          ≡ container_of docker engine opts false ∷ containers =
        rw (made, failed, create) refl in
      ap (λ cs. (clean_up engine cs).0) now
      ∙ clean_up_lem (container_of docker engine opts false ∷ containers) listed
      ∙ ground (arith, clean_up_lem containers listed)
