-- ===== src/Bufferer/Balance.antt =====
-- What the operations of internal/bufferer keep of the data: all that was accepted, in its order.
use snake_runner.Base.{
  Text, List, [], ◌∷◌, ◌++◌, concat, append_assoc, append-nil, length, Bool-cases, is_empty, leb,
  ◌≡◌, refl, sym, ap, ◌∙◌, subst, inl, inr,
}
use snake_runner.Bufferer.{Bufferer, flush, receive, tick}

concat-append : (xs ys : List Text) → concat (xs ++ ys) ≡ concat xs ++ concat ys
concat-append [] ys = refl
concat-append (x ∷ xs) ys =
    ap (◌++◌ x) (concat-append xs ys) ∙ sym (append_assoc x (concat xs) (concat ys))

concat_last : (xs : List Text) (x : Text) → concat (xs ++ x ∷ []) ≡ concat xs ++ x
concat_last xs x = concat-append xs (x ∷ []) ∙ ap (◌++◌ (concat xs)) (append-nil x)

-- What is flushed, buffered and in the channel, one after another, is what was accepted.
abbrev pub Balanced : Bufferer → Type 0
Balanced b = (concat b.flushed ++ b.buffer) ++ concat b.pipe ≡ concat b.accepted

flush-Balanced : (b : Bufferer) → Balanced b → Balanced (flush b)
unfolding flush
flush-Balanced b h =
    ap (λ t. t ++ concat b.pipe)
      (append-nil (concat (b.flushed ++ b.buffer ∷ [])) ∙ concat_last b.flushed b.buffer)
    ∙ h

pub receive-Balanced :
    (b : Bufferer) (text : Text) (rest : List Text)
    → b.pipe ≡ text ∷ rest
    → Balanced b
    → Balanced (receive b text rest)
unfolding receive
receive-Balanced b text rest e h =
    elim (Bool-cases (leb b.flush_size (length (b.buffer ++ text)))) [
      | inl full ↦ rw full (flush-Balanced taken took)
      | inr room ↦ rw room took
    ]
  where
    taken : Bufferer
    taken = record b { pipe = rest; buffer = b.buffer ++ text }

    took : Balanced taken
    took =
        ap (λ t. t ++ concat rest) (sym (append_assoc (concat b.flushed) b.buffer text))
        ∙ append_assoc (concat b.flushed ++ b.buffer) text (concat rest)
        ∙ subst (λ p. (concat b.flushed ++ b.buffer) ++ concat p ≡ concat b.accepted) e h

pub tick-Balanced : (b : Bufferer) → Balanced b → Balanced (tick b)
unfolding tick
tick-Balanced b h = elim (Bool-cases (is_empty b.buffer)) [
  | inl blank ↦ rw blank h
  | inr text ↦ rw text (flush-Balanced b h)
]

pub push-Balanced :
    (b : Bufferer) (payload : Text)
    → Balanced b
    → (concat b.flushed ++ b.buffer) ++ concat (b.pipe ++ payload ∷ [])
      ≡ concat (b.accepted ++ payload ∷ [])
push-Balanced b payload h =
    ap (◌++◌ (concat b.flushed ++ b.buffer)) (concat_last b.pipe payload)
    ∙ sym (append_assoc (concat b.flushed ++ b.buffer) (concat b.pipe) payload)
    ∙ ap (λ t. t ++ payload) h
    ∙ sym (concat_last b.accepted payload)
