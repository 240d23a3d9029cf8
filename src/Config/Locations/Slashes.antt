-- ===== src/Config/Locations/Slashes.antt =====
-- The one slash at the end of a location.
use server_spring.Base.{◌≡◌, ◌∙◌, refl, ap, arith, [], ◌∷◌, ◌++◌, Bytes}
use server_spring.Config.Locations.{strip_slashes, handle_trailing_slashes}

strip_slashes-slash : (s : Bytes) → strip_slashes (s ++ b'/' ∷ []) ≡ strip_slashes s
unfolding strip_slashes
strip_slashes-slash [] = refl
strip_slashes-slash (c ∷ s) = rw (strip_slashes-slash s)

strip_slashes_idem : (s : Bytes) → strip_slashes (strip_slashes s) ≡ strip_slashes s
unfolding strip_slashes
strip_slashes_idem [] = refl
strip_slashes_idem (c ∷ s) = ground (arith, strip_slashes_idem s)

-- A slash more at the end of a location makes no difference, and none is added to a location that
-- was treated before.
pub handle_trailing_slashes_stable :
    (s : Bytes)
    → (handle_trailing_slashes (s ++ b'/' ∷ []) ≡ handle_trailing_slashes s)
      × (handle_trailing_slashes (handle_trailing_slashes s) ≡ handle_trailing_slashes s)
unfolding handle_trailing_slashes
handle_trailing_slashes_stable s = (
  ap (λ t. t ++ b'/' ∷ []) (strip_slashes-slash s),
  ap (λ t. t ++ b'/' ∷ []) (strip_slashes-slash (strip_slashes s) ∙ strip_slashes_idem s),
)
