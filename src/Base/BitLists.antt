-- ===== src/Base/BitLists.antt =====
-- A bitmap as the list of its bits: writing a bit, reading it back, and counting the bits set.
use Prim.Native.Nat.{ℕ, zero, suc, ◌+◌, ◌<◌}
use mathlib.Core.Path.{ap, ◌≡◌, refl}
use mathlib.Core.Bool.{Bool, true, false}
use mathlib.Core.List.{List, [], ◌∷◌}
use native.Mathlib.Omega.{arith}
use cups.Base.Tests.{if◌then◌else◌, ◌==◌}
use cups.Base.Lists.{length, get_or, set, replicate}

abbrev pub count_set : List Bool → ℕ
count_set [] = 0
count_set (true ∷ bs) = suc (count_set bs)
count_set (false ∷ bs) = count_set bs

pub length-set : (bs : List Bool) (i : ℕ) (b : Bool) → length (set bs i b) ≡ length bs
length-set [] i b = refl
length-set (x ∷ bs) zero b = refl
length-set (x ∷ bs) (suc i) b = omega (arith, length-set bs i b)

pub get_or-set :
    (bs : List Bool) (i j : ℕ) (b d : Bool)
    → i < length bs
    → get_or (set bs i b) j d ≡ (if i == j then b else get_or bs j d)
get_or-set [] i j b d h = absurd (omega arith)
get_or-set (x ∷ bs) zero zero b d h = refl
get_or-set (x ∷ bs) zero (suc j) b d h = ground arith
get_or-set (x ∷ bs) (suc i) zero b d h = ground arith
get_or-set (x ∷ bs) (suc i) (suc j) b d h = ground (arith, get_or-set bs i j b d)

pub count_set-set-true :
    (bs : List Bool) (i : ℕ)
    → get_or bs i true ≡ false
    → count_set (set bs i true) ≡ count_set bs + 1
count_set-set-true [] i h = cc
count_set-set-true (false ∷ bs) zero h = omega arith
count_set-set-true (true ∷ bs) zero h = cc
count_set-set-true (true ∷ bs) (suc i) h = omega (arith, count_set-set-true bs i h)
count_set-set-true (false ∷ bs) (suc i) h = omega (arith, count_set-set-true bs i h)

pub count_set-set-false :
    (bs : List Bool) (i : ℕ)
    → get_or bs i false ≡ true
    → count_set (set bs i false) + 1 ≡ count_set bs
count_set-set-false [] i h = cc
count_set-set-false (true ∷ bs) zero h = omega arith
count_set-set-false (false ∷ bs) zero h = cc
count_set-set-false (true ∷ bs) (suc i) h = omega (arith, count_set-set-false bs i h)
count_set-set-false (false ∷ bs) (suc i) h = omega (arith, count_set-set-false bs i h)

-- A bitmap that is not full has a clear bit.
pub clear_bit :
    (bs : List Bool)
    → count_set bs < length bs
    → (i : ℕ) × (i < length bs) × (get_or bs i true ≡ false)
clear_bit [] h = absurd (omega arith)
clear_bit (false ∷ bs) h = (0, omega arith, refl)
clear_bit (true ∷ bs) h = let (i, lt, e) = clear_bit bs (omega arith) in (suc i, omega arith, e)

pub get_or_defaults :
    (bs : List Bool) (i : ℕ) (b d : Bool) → i < length bs → get_or bs i b ≡ get_or bs i d
get_or_defaults [] i b d h = absurd (omega arith)
get_or_defaults (x ∷ bs) zero b d h = refl
get_or_defaults (x ∷ bs) (suc i) b d h = get_or_defaults bs i b d (omega arith)

pub count_set_none : (n : ℕ) → count_set (replicate n false) ≡ 0
count_set_none zero = refl
count_set_none (suc n) = count_set_none n

pub get_or_none : (n i : ℕ) → get_or (replicate n false) i false ≡ false
get_or_none zero i = refl
get_or_none (suc n) zero = refl
get_or_none (suc n) (suc i) = get_or_none n i

-- A bit that is set and cleared again.
pub set-set_back :
    (bs : List Bool) (i : ℕ) → get_or bs i true ≡ false → set (set bs i true) i false ≡ bs
set-set_back [] i h = cc
set-set_back (x ∷ bs) zero h = cc
set-set_back (x ∷ bs) (suc i) h = ap (λ t. x ∷ t) (set-set_back bs i h)
