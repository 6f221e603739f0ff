-- ===== src/Base/Order.antt =====
-- The order of byte strings, which `Ord` of slices, arrays and vectors gives.
use mathlib.Core.Path.{◌≡◌, refl}
use mathlib.Core.Bool.{Bool, true, false, ◌&&◌, ◌||◌}
use mathlib.Core.List.{[], ◌∷◌}
use native.Mathlib.Omega.{arith}
use hotmint.Base.Tests.{ltb, ◌==◌}
use hotmint.Base.Bytes.{Bytes}

-- The first difference decides, and a prefix comes first.
unfoldable pub bytes_leb : Bytes → Bytes → Bool
bytes_leb [] bs = true
bytes_leb (a ∷ as') [] = false
bytes_leb (a ∷ as') (b ∷ bs) = ltb a b || (a == b && bytes_leb as' bs)

pub bytes_leb-total : (a b : Bytes) → bytes_leb a b ≡ false → bytes_leb b a ≡ true
unfolding bytes_leb
bytes_leb-total [] b h = cc
bytes_leb-total (a ∷ as') [] h = refl
bytes_leb-total (a ∷ as') (b ∷ bs) h = ground (arith, bytes_leb-total as' bs)

pub bytes_leb_trans :
    (a b c : Bytes) → bytes_leb a b ≡ true → bytes_leb b c ≡ true → bytes_leb a c ≡ true
unfolding bytes_leb
bytes_leb_trans [] b c h k = refl
bytes_leb_trans (a ∷ as') [] c h k = cc
bytes_leb_trans (a ∷ as') (b ∷ bs) [] h k = cc
bytes_leb_trans (a ∷ as') (b ∷ bs) (c ∷ cs) h k = ground (arith, bytes_leb_trans as' bs cs)

pub bytes_leb-antisym : (a b : Bytes) → bytes_leb a b ≡ true → bytes_leb b a ≡ true → a ≡ b
unfolding bytes_leb
bytes_leb-antisym [] [] h k = refl
bytes_leb-antisym [] (b ∷ bs) h k = cc
bytes_leb-antisym (a ∷ as') [] h k = cc
bytes_leb-antisym (a ∷ as') (b ∷ bs) h k = ground (arith, bytes_leb-antisym as' bs)
