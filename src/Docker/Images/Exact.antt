-- ===== src/Docker/Images/Exact.antt =====
-- Which image `Prepare` uses.
use snake_runner.Base.{
  Text, text_beq, text_beq_iff, codes, List, [], ◌∷◌, ◌++◌, Option, Option-cases, none, some,
  Bool-cases, true, Any, ◌≡◌, refl, ap, subst, ◌⊎◌, inl, inr, arith,
}
use snake_runner.Errors.{Error}
use snake_runner.Masker.Replace.{contains}
use snake_runner.Docker.Images.{
  Image, Listing, listed, fails, ImageEngine, ImageCall, pulls, uses, colon, fits, any_fits,
  find_image, get_image_by_tag, tag_of, use_pulled, pull_image, use_found, prepare,
}

-- The image carries the tag itself.
abbrev pub HasTag : Text → Image → Type 0
HasTag tag image = Any (λ t. t ≡ tag) image.tags

abbrev pub images_of : Listing → List Image
images_of (listed images) = images
images_of (fails error) = []

contains_behind : (s t : Text) → contains t colon ≡ true → contains (s ++ t) colon ≡ true
contains_behind [] t h = h
contains_behind (c ∷ s) t h = ground (arith, contains_behind s t h)

-- What is looked for has a colon, so that no tag fits but itself.
tag_of-colon : (image : Text) → contains (tag_of image) colon ≡ true
unfolding tag_of
tag_of-colon image = elim (Bool-cases (contains image colon)) [
  | inl e ↦ rw (e, tag_of) e
  | inr e ↦ rw (e, tag_of) (contains_behind image (codes ":latest") refl)
]

any_fits_exact :
    (query : Text) (tags : List Text)
    → contains query colon ≡ true
    → any_fits query tags ≡ true
    → Any (λ t. t ≡ query) tags
unfolding any_fits fits
any_fits_exact query [] c h = absurd (cc h)
any_fits_exact query (tag ∷ tags) c h = elim (Bool-cases (text_beq tag query)) [
  | inl same ↦ inl ((text_beq_iff tag query).0 same)
  | inr differs ↦ inr (any_fits_exact query tags c (ground arith))
]

find_image_exact :
    (query : Text) (images : List Image) (image : Image)
    → contains query colon ≡ true
    → find_image query images ≡ some image
    → HasTag query image × Any (λ i. i ≡ image) images
unfolding find_image
find_image_exact query [] image c h = absurd (cc h)
find_image_exact query (i ∷ images) image c h = elim (Bool-cases (any_fits query i.tags)) [
  | inl e ↦
      let same : i ≡ image = ground arith in
      (subst (HasTag query) same (any_fits_exact query i.tags c e), inl same)
  | inr e ↦ let rest = find_image_exact query images image c (ground arith) in (rest.0, inr rest.1)
]

-- The image was listed, with the tag.
abbrev pub Used : ImageEngine → Text → List ImageCall → Type 0
Used engine tag calls =
    ((image : Image) × (calls ≡ uses image ∷ [])
      × HasTag tag image
      × Any (λ i. i ≡ image) (images_of engine.first))
    ⊎ ((image : Image) × (calls ≡ pulls tag ∷ uses image ∷ [])
        × HasTag tag image
        × Any (λ i. i ≡ image) (images_of engine.second))

get_image_exact :
    (l : Listing) (tag : Text) (image : Image)
    → contains tag colon ≡ true
    → get_image_by_tag l tag ≡ (some image, none)
    → HasTag tag image × Any (λ i. i ≡ image) (images_of l)
unfolding get_image_by_tag
get_image_exact (listed images) tag image c e =
    find_image_exact tag images image c (ap (λ p. p.0) e)
get_image_exact (fails error) tag image c e = absurd (cc e)

pulled_exact :
    (engine : ImageEngine) (tag : Text) (found : Option Image × Option Error)
    → contains tag colon ≡ true
    → get_image_by_tag engine.second tag ≡ found
    → (use_pulled found).1 ≡ none
    → (image : Image) × ((use_pulled found).0 ≡ uses image ∷ [])
      × HasTag tag image
      × Any (λ i. i ≡ image) (images_of engine.second)
unfolding use_pulled
pulled_exact engine tag (image, some error) c e h = absurd (cc h)
pulled_exact engine tag (none, none) c e h = absurd (cc h)
pulled_exact engine tag (some image, none) c e h =
    let all = get_image_exact engine.second tag image c e in (image, refl, all.0, all.1)

found_exact :
    (engine : ImageEngine) (tag : Text) (found : Option Image × Option Error)
    → contains tag colon ≡ true
    → get_image_by_tag engine.first tag ≡ found
    → (use_found engine tag found).1 ≡ none
    → Used engine tag (use_found engine tag found).0
unfolding use_found pull_image
found_exact engine tag (image, some error) c e h = absurd (cc h)
found_exact engine tag (some image, none) c e h =
    let all = get_image_exact engine.first tag image c e in inl (image, refl, all.0, all.1)
found_exact engine tag (none, none) c e h = elim (Option-cases (engine.pull tag)) [
  | inr (error, p) ↦ absurd (cc (rw (p, pull_image) at h))
  | inl p ↦
      let (image, made, has, known) =
        pulled_exact engine tag (get_image_by_tag engine.second tag) c refl
          (rw (p, pull_image) at h) in
      inr (image, rw (p, pull_image) (ap (◌∷◌ (pulls tag)) made), has, known)
]

-- Where `Prepare` returns no error, it uses an image with exactly the tag that is asked for, which
-- is the name itself where that has a colon, and the name with `:latest` otherwise; the image was
-- listed at first, or it was listed after a pull of this tag.
pub prepare_exact :
    (engine : ImageEngine) (image : Text)
    → (prepare engine image).1 ≡ none
    → Used engine (tag_of image) (prepare engine image).0
unfolding prepare
prepare_exact engine image h = found_exact engine (tag_of image) _ (tag_of-colon image) refl h
