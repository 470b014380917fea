-- ===== src/Sshkey.antt =====
-- internal/sshkey/sshkey.go: the factory that generates keys ahead, with the channel from which the
-- scheduler takes them. Cryptography is outside: `Attempt` says how the calls of it end.
pub mod Order
use snake_runner.Base.{
  ℕ, suc, ℤ, pos, negsuc, Text, codes, List, [], ◌∷◌, ◌++◌, length, Option, none, some, Bool, true,
  false, ◌≤◌, ◌<◌, ◌≡◌,
}
use snake_runner.Errors.{Error, format}

pub record Key : Type 0 where
  pub private : Text
  pub public : Text

-- The errors of the generation, of the validation and of the public part, and the two encodings.
pub record Attempt : Type 0 where
  pub generate : Option Error
  pub validate : Option Error
  pub make_public : Option Error
  pub private_pem : Text
  pub public_line : Text

pub data Generated : Type 0 where
  key : Key → Generated
  no_key : Error → Generated

-- `generatePrivateKey`
unfoldable pub generate_private_key : Attempt → Option Error
generate_private_key attempt = elim attempt.generate [
  | some error ↦ some error
  | none ↦ attempt.validate
]

-- `Generate`
unfoldable pub generate : Attempt → Generated
unfolding generate_private_key
generate attempt = elim (generate_private_key attempt) [
  | some error ↦ no_key (format error (codes "unable to generate private part"))
  | none ↦ elim attempt.make_public [
    | some error ↦ no_key (format error (codes "unable to generate public part"))
    | none ↦ key (record { private = attempt.private_pem; public = attempt.public_line })
  ]
]

-- Where `Run` stands: in front of its first `select`, in front of `Generate`, in front of the second
-- `select` with a key, or at its end.
pub data Phase : Type 0 where
  begins : Phase
  generates : Phase
  offers : Key → Phase
  is_over : Phase

pub record Factory : Type 0 where
  -- the channel and the room in it
  pub queue : List Key
  pub queue_size : ℕ
  -- the context is done
  pub interrupted : Bool
  pub phase : Phase
  -- the keys that were generated, and those that were taken out of the channel
  pub made : List Key
  pub taken : List Key

-- `NewFactory`; `none` where `make` panics on a negative size. The configuration never gives 0, so
-- that the channel has room.
unfoldable pub new_factory : ℤ → Option Factory
new_factory (negsuc n) = none
new_factory (pos queue_size) = some (record {
  queue = [];
  queue_size = queue_size;
  interrupted = false;
  phase = begins;
  made = [];
  taken = [];
})

-- The end of `Generate`; after an error `Run` sleeps and goes round.
unfoldable pub end_generate : Factory → Generated → Factory
end_generate f (key k) = record f { phase = offers k; made = f.made ++ k ∷ [] }
end_generate f (no_key error) = record f { phase = begins }

-- The steps of `Run`. Of the cases of the second `select` that are ready it takes any.
pub data RunStep (f g : Factory) : Type 0 where
  returns : f.phase ≡ begins → f.interrupted ≡ true → g ≡ record f { phase = is_over } → RunStep f g
  goes_on :
      f.phase ≡ begins → f.interrupted ≡ false → g ≡ record f { phase = generates } → RunStep f g
  ends_generate :
      (attempt : Attempt)
      → f.phase ≡ generates
      → g ≡ end_generate f (generate attempt)
      → RunStep f g
  gives_up :
      (k : Key)
      → f.phase ≡ offers k
      → f.interrupted ≡ true
      → g ≡ record f { phase = is_over }
      → RunStep f g
  sends :
      (k : Key)
      → f.phase ≡ offers k
      → length f.queue < f.queue_size
      → g ≡ record f { phase = begins; queue = f.queue ++ k ∷ [] }
      → RunStep f g

pub data Step (f g : Factory) : Type 0 where
  runs : RunStep f g → Step f g
  -- the context is canceled
  cancels : g ≡ record f { interrupted = true } → Step f g
  -- a receive on `Get()`
  takes :
      (k : Key) (rest : List Key)
      → f.queue ≡ k ∷ rest
      → g ≡ record f { queue = rest; taken = f.taken ++ k ∷ [] }
      → Step f g

pub data Reach (f : Factory) : Factory → Type 0 where
  here : Reach f f
  next : {g h : Factory} → Reach f g → Step g h → Reach f h
