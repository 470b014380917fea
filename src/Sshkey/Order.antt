-- ===== src/Sshkey/Order.antt =====
-- The keys that are taken are those that were generated, in order.
use snake_runner.Base.{
  ℕ, suc, List, [], ◌∷◌, ◌++◌, append_assoc, append-nil, length, length-append, none, some, true,
  ◌≤◌, ◌≡◌, ◌≢◌, pos, refl, sym, ap, ◌∙◌, subst, ◌⊎◌, inl, inr, arith,
}
use mathlib.Core.Option.{some-injective}
use snake_runner.Sshkey.{
  Key, Attempt, Generated, key, no_key, generate, Phase, begins, generates, offers, is_over,
  Factory, new_factory, end_generate, RunStep, returns, goes_on, ends_generate, gives_up, sends,
  Step, runs, cancels, takes, Reach, here, next,
}

-- The key that `Run` holds.
abbrev held : Phase → List Key
held (offers k) = k ∷ []
held _ = []

-- The generated keys are those that were taken, then those in the channel, then the one that is held
-- or, at the end, was given up; and the channel has room for those in it.
pub record IsOrdered (size : ℕ) (f : Factory) : Type 0 where
  pub lost : List Key
  pub whole : f.made ≡ f.taken ++ (f.queue ++ lost)
  pub few : length lost ≤ 1
  pub is_held : (f.phase ≡ is_over) ⊎ (lost ≡ held f.phase)
  pub same_size : f.queue_size ≡ size
  pub fits : length f.queue ≤ size

not_over :
    {now p : Phase} {lost : List Key}
    → now ≡ p
    → p ≢ is_over
    → (now ≡ is_over) ⊎ (lost ≡ held now)
    → lost ≡ held p
not_over e n (inl o) = absurd (n (sym e ∙ o))
not_over e n (inr h) = h ∙ ap held e

-- Another phase that holds the same.
with_phase :
    (size : ℕ) (f : Factory) (p : Phase) (o : IsOrdered size f)
    → (p ≡ is_over) ⊎ (o.lost ≡ held p)
    → IsOrdered size (record f { phase = p })
with_phase size f p o h = record {
  lost = o.lost;
  whole = o.whole;
  few = o.few;
  is_held = h;
  same_size = o.same_size;
  fits = o.fits;
}

-- A key joins the keys in the channel or behind it.
regroup :
    (taken queue : List Key) (k : Key) (made : List Key)
    → made ≡ taken ++ (queue ++ [])
    → made ++ k ∷ [] ≡ taken ++ (queue ++ k ∷ [])
regroup taken queue k made e = rw (e, append-nil, append_assoc) refl

end_generate-IsOrdered :
    (size : ℕ) (f : Factory) (generated : Generated)
    → f.phase ≡ generates
    → IsOrdered size f
    → IsOrdered size (end_generate f generated)
unfolding end_generate
end_generate-IsOrdered size f (no_key error) e o =
    with_phase size f begins o (inr (not_over e (λ h. cc h) o.is_held))
end_generate-IsOrdered size f (key k) e o = record {
  lost = k ∷ [];
  whole =
      regroup f.taken f.queue k f.made
        (o.whole ∙ ap (λ l. f.taken ++ (f.queue ++ l)) (not_over e (λ h. cc h) o.is_held));
  few = omega arith;
  is_held = inr refl;
  same_size = o.same_size;
  fits = o.fits;
}

RunStep-IsOrdered : (size : ℕ) {f g : Factory} → RunStep f g → IsOrdered size f → IsOrdered size g
RunStep-IsOrdered size {f} (returns e i q) o = rw q (with_phase size f is_over o (inl refl))
RunStep-IsOrdered size {f} (goes_on e i q) o =
    rw q (with_phase size f generates o (inr (not_over e (λ h. cc h) o.is_held)))
RunStep-IsOrdered size {f} (ends_generate attempt e q) o =
    rw q (end_generate-IsOrdered size f (generate attempt) e o)
RunStep-IsOrdered size {f} (gives_up k e i q) o = rw q (with_phase size f is_over o (inl refl))
RunStep-IsOrdered size {f} (sends k e room q) o = rw q (record {
  lost = [];
  whole =
      o.whole
      ∙ ap (λ l. f.taken ++ (f.queue ++ l)) (not_over e (λ h. cc h) o.is_held)
      ∙ ap (λ l. f.taken ++ l) (sym (append-nil (f.queue ++ k ∷ [])));
  few = omega arith;
  is_held = inr refl;
  same_size = o.same_size;
  fits = omega (arith, length-append f.queue (k ∷ []), o.same_size, room);
})

Step-IsOrdered : (size : ℕ) {f g : Factory} → Step f g → IsOrdered size f → IsOrdered size g
Step-IsOrdered size (runs s) o = RunStep-IsOrdered size s o
Step-IsOrdered size (cancels q) o = rw q (record {
  lost = o.lost;
  whole = o.whole;
  few = o.few;
  is_held = o.is_held;
  same_size = o.same_size;
  fits = o.fits;
})
Step-IsOrdered size {f} (takes k rest e q) o = rw q (record {
  lost = o.lost;
  whole =
      o.whole
      ∙ ap (λ l. f.taken ++ (l ++ o.lost)) e
      ∙ sym (append_assoc f.taken (k ∷ []) (rest ++ o.lost));
  few = o.few;
  is_held = o.is_held;
  same_size = o.same_size;
  fits = omega (arith, ap length e, o.fits);
})

Reach-IsOrdered : (size : ℕ) {f g : Factory} → Reach f g → IsOrdered size f → IsOrdered size g
Reach-IsOrdered size here o = o
Reach-IsOrdered size (next r s) o = Step-IsOrdered size s (Reach-IsOrdered size r o)

new-IsOrdered : (size : ℕ) (f : Factory) → new_factory (pos size) ≡ some f → IsOrdered size f
unfolding new_factory
new-IsOrdered size f e = subst (IsOrdered size) (some-injective _ f e) (record {
  lost = [];
  whole = refl;
  few = omega arith;
  is_held = inr refl;
  same_size = refl;
  fits = omega arith;
})

-- The keys that the factory has generated are, in this order, those that were taken, those in its
-- channel, and at most one more; and never more keys are in the channel than its size.
pub factory_in_order :
    (size : ℕ) {f g : Factory}
    → new_factory (pos size) ≡ some f
    → Reach f g
    → ((lost : List Key) × (g.made ≡ g.taken ++ (g.queue ++ lost)) × (length lost ≤ 1))
      × (length g.queue ≤ size)
factory_in_order size {f} e r =
    let o = Reach-IsOrdered size r (new-IsOrdered size f e) in ((o.lost, o.whole, o.few), o.fits)

-- The steps that `Run` can still make once the context is done.
abbrev pub rounds : Phase → ℕ
rounds begins = 1
rounds generates = 3
rounds (offers k) = 2
rounds is_over = 0

abbrev pub EndsSoon : Factory → Type 0
EndsSoon f =
    ((g : Factory) → RunStep f g → suc (rounds g.phase) ≤ rounds f.phase)
    × ((f.phase ≡ is_over) ⊎ ((g : Factory) × RunStep f g))

rounds-end_generate :
    (f : Factory) (generated : Generated) → rounds (end_generate f generated).phase ≤ 2
unfolding end_generate
rounds-end_generate f (key k) = omega arith
rounds-end_generate f (no_key error) = omega arith

RunStep-falls :
    {f g : Factory} → RunStep f g → f.interrupted ≡ true → suc (rounds g.phase) ≤ rounds f.phase
RunStep-falls (returns e i q) d = rw (q, e) (omega arith)
RunStep-falls (goes_on e i q) d = absurd (cc (d, i))
RunStep-falls {f} (ends_generate attempt e q) d = rw q (
    subst (λ p. suc (rounds (end_generate f (generate attempt)).phase) ≤ rounds p) (sym e)
      (omega (arith, rounds-end_generate f (generate attempt))))
RunStep-falls (gives_up k e i q) d = rw (q, e) (omega arith)
RunStep-falls (sends k e room q) d = rw (q, e) (omega arith)

any_attempt : Attempt
any_attempt = record {
  generate = none;
  validate = none;
  make_public = none;
  private_pem = [];
  public_line = [];
}

RunStep-there :
    (f : Factory) (p : Phase)
    → f.phase ≡ p
    → f.interrupted ≡ true
    → (f.phase ≡ is_over) ⊎ ((g : Factory) × RunStep f g)
RunStep-there f begins e d = inr (record f { phase = is_over }, returns e d refl)
RunStep-there f generates e d =
    inr (end_generate f (generate any_attempt), ends_generate any_attempt e refl)
RunStep-there f (offers k) e d = inr (record f { phase = is_over }, gives_up k e d refl)
RunStep-there f is_over e d = inl e

rounds_le : (p : Phase) → rounds p ≤ 3
rounds_le begins = omega arith
rounds_le generates = omega arith
rounds_le (offers k) = omega arith
rounds_le is_over = omega arith

-- Once the context is done `Run` ends: it can go on until it is over, and each of its steps takes it
-- nearer to the end, of which it is three steps away at most.
pub factory_ends : (f : Factory) → f.interrupted ≡ true → EndsSoon f × (rounds f.phase ≤ 3)
factory_ends f d = ((λ g s. RunStep-falls s d, RunStep-there f f.phase refl d), rounds_le f.phase)
