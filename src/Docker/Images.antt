-- ===== src/Docker/Images.antt =====
-- `Prepare` and `getImageByTag`: the image is looked for, pulled if it is not there, and looked for
-- again.
pub mod Exact
use snake_runner.Base.{
  Text, text_beq, text_eq, codes, List, [], ◌∷◌, ◌++◌, Option, none, some, Bool, true, false, not,
  ◌&&◌, ◌||◌, has_prefix, if◌then◌else◌,
}
use snake_runner.Errors.{Error, message, format}
use snake_runner.Masker.Replace.{contains}

pub record Image : Type 0 where
  pub id : Text
  pub tags : List Text

-- What `ListImages` returns.
pub data Listing : Type 0 where
  listed : List Image → Listing
  fails : Error → Listing

-- The two listings, and the error of `PullImage`.
pub record ImageEngine : Type 0 where
  pub first : Listing
  pub pull : Text → Option Error
  pub second : Listing

pub data ImageCall : Type 0 where
  pulls : Text → ImageCall
  -- the last line of `Prepare`
  uses : Image → ImageCall

abbrev pub colon : Text
colon = codes ":"

-- The test of the loop over the tags.
unfoldable pub fits : Text → Text → Bool
fits query tag =
    text_beq tag query || (not (contains query colon) && has_prefix tag (query ++ colon))

unfoldable pub any_fits : Text → List Text → Bool
unfolding fits
any_fits query [] = false
any_fits query (tag ∷ tags) = fits query tag || any_fits query tags

-- The loop over the images.
unfoldable pub find_image : Text → List Image → Option Image
unfolding any_fits
find_image query [] = none
find_image query (image ∷ images) =
    let rest = find_image query images in if any_fits query image.tags then some image else rest

-- `getImageByTag`
unfoldable pub get_image_by_tag : Listing → Text → Option Image × Option Error
unfolding find_image
get_image_by_tag (fails error) query = (none, some (format error (codes "unable to list images")))
get_image_by_tag (listed images) query = (find_image query images, none)

unfoldable pub tag_of : Text → Text
tag_of image = if contains image colon then image else image ++ codes ":latest"

-- `Prepare` behind the pull.
unfoldable pub use_pulled : Option Image × Option Error → List ImageCall × Option Error
use_pulled (image, some error) =
    ([], some (format error (codes "unable to get image after pulling")))
use_pulled (none, none) = ([], some (message (codes "image not found after pulling")))
use_pulled (some image, none) = (uses image ∷ [], none)

unfoldable pub pull_image : ImageEngine → Text → List ImageCall × Option Error
unfolding use_pulled
pull_image engine tag =
    let (calls, error) = use_pulled (get_image_by_tag engine.second tag) in
    elim (engine.pull tag) [
      | some error ↦ (pulls tag ∷ [], some error)
      | none ↦ (pulls tag ∷ calls, error)
    ]

unfoldable pub use_found :
    ImageEngine → Text → Option Image × Option Error → List ImageCall × Option Error
unfolding pull_image
use_found engine tag (image, some error) = ([], some error)
use_found engine tag (some image, none) = (uses image ∷ [], none)
use_found engine tag (none, none) = pull_image engine tag

-- `Prepare`
unfoldable pub prepare : ImageEngine → Text → List ImageCall × Option Error
unfolding use_found tag_of
prepare engine image =
    use_found engine (tag_of image) (get_image_by_tag engine.first (tag_of image))
