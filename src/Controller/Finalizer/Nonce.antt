-- ===== src/Controller/Finalizer/Nonce.antt =====
-- `createRandomNounce` makes a text of the length that was asked for, from the alphabet.
use Prim.Native.Char.{code}
use Prim.Native.String.{◌++◌, count}
use text.Mathlib.TextLemmas.{nil-append, cons-append, length-append}
use ray_on_vcf.Prelude.{ℕ, zero, suc, ◌<◌, ◌≡◌, refl, Bool, true, ◌&&◌, ◌||◌, String, arith, leb}
use ray_on_vcf.Kube.{Host}
use ray_on_vcf.Go.Format.{letter_at}
use ray_on_vcf.Controller.Finalizer.{alphanumeric, create_random_nounce}

-- Every character of a text is a lower-case letter or a digit.
pub is_alphanumeric : String → Bool
is_alphanumeric String.[] = true
is_alphanumeric (String.◌∷◌ c s) =
    ((leb b'a' (code c) && leb (code c) b'z') || (leb b'0' (code c) && leb (code c) b'9'))
    && is_alphanumeric s

-- `rand.Intn(n)` is below `n`.
pub record IsRandom {W : Type 0} (host : Host W) : Type 0 where
  pub below : (n : ℕ) (w : W) → 0 < n → (host.intn n w).0 < n

-- Does a test pass at every number below a bound?
each_below : ℕ → (ℕ → Bool) → Bool
each_below zero p = true
each_below (suc n) p = p n && each_below n p

each_below_sound : (n i : ℕ) (p : ℕ → Bool) → each_below n p ≡ true → i < n → p i ≡ true
unfolding each_below
each_below_sound zero i p h lt = absurd (omega arith)
each_below_sound (suc n) i p h lt = ground (arith, each_below_sound n i p)

abbrev is_letter : ℕ → Bool
is_letter i =
    let s = letter_at alphanumeric i in is_alphanumeric s && leb (count s) 1 && leb 1 (count s)

-- Each of the 36 indices has a letter.
letters : each_below 36 is_letter ≡ true
unfolding each_below letter_at is_alphanumeric
letters = refl

letter_at_lem :
    (i : ℕ)
    → i < 36
    → (is_alphanumeric (letter_at alphanumeric i) ≡ true) × (count (letter_at alphanumeric i) ≡ 1)
letter_at_lem i h = ground (arith, each_below_sound 36 i is_letter letters)

is_alphanumeric-append :
    (s t : String)
    → is_alphanumeric s ≡ true
    → is_alphanumeric t ≡ true
    → is_alphanumeric (s ++ t) ≡ true
unfolding is_alphanumeric
is_alphanumeric-append String.[] t hs ht = rw nil-append ht
is_alphanumeric-append (String.◌∷◌ c s) t hs ht =
    rw cons-append (ground (arith, is_alphanumeric-append s t))

-- With random numbers below their bound, a nonce has the length that was asked for, and
-- lower-case letters and digits only.
pub create_random_nounce_lem :
    {W : Type 0} (host : Host W) (n : ℕ) (w : W)
    → IsRandom host
    → (count (create_random_nounce host n w).0 ≡ n)
      × (is_alphanumeric (create_random_nounce host n w).0 ≡ true)
unfolding create_random_nounce
create_random_nounce_lem host zero w random = unfold is_alphanumeric in (refl, refl)
create_random_nounce_lem host (suc n) w random =
    let (i, w') = host.intn 36 w in
    let (is_one, one) = letter_at_lem i (random.below 36 w (omega arith)) in
    let (size, good) = create_random_nounce_lem host n w' random in
    (rw length-append (omega arith), is_alphanumeric-append _ _ is_one good)
