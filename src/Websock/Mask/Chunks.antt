-- ===== src/Websock/Mask/Chunks.antt =====
-- unmask does the same at every alignment and in every division into chunks, and undoes itself.
use Prim.Native.Nat.{bit_xor}
use mathlib.Core.Path.{ap₂}
use app_framework_binder.Base.{ℕ, ◌+◌, ◌<◌, ◌≡◌, refl, true, List, [], ◌∷◌, ◌++◌, All, ◌==◌, arith}
use app_framework_binder.Base.Tables.{every_under, every_under→}
use app_framework_binder.Websock.Mask.{Mask, rotate, unmask_head, unmask_words, unmask_tail, unmask}

-- The masking of RFC 6455: byte i is combined with byte i mod 4 of the mask.
unfoldable pub masked : Mask → List ℕ → List ℕ
masked m [] = []
masked m (b ∷ bs) = bit_xor b m.m₀ ∷ masked (rotate m) bs

-- The mask after a number of bytes.
unfoldable pub rotated : Mask → List ℕ → Mask
rotated m [] = m
rotated m (b ∷ bs) = rotated (rotate m) bs

unmask_head_lem :
    (addr : ℕ) (m : Mask) (bs : List ℕ)
    → (masked m bs
        ≡ (unmask_head addr m bs).done
          ++ masked (unmask_head addr m bs).mask (unmask_head addr m bs).left)
      × (rotated m bs ≡ rotated (unmask_head addr m bs).mask (unmask_head addr m bs).left)
unfolding unmask_head masked rotated
unmask_head_lem addr m [] = (refl, refl)
unmask_head_lem addr m (b ∷ bs) = ground (arith, unmask_head_lem (addr + 1) (rotate m) bs)

unmask_words_lem :
    (m : Mask) (bs : List ℕ)
    → (masked m bs
        ≡ (unmask_words m bs).done ++ masked (unmask_words m bs).mask (unmask_words m bs).left)
      × (rotated m bs ≡ rotated (unmask_words m bs).mask (unmask_words m bs).left)
unfolding unmask_words masked rotated rotate
unmask_words_lem m (b₀ ∷ b₁ ∷ b₂ ∷ b₃ ∷ bs) = ground (arith, unmask_words_lem m bs)
unmask_words_lem m bs = (refl, refl)

unmask_tail_lem :
    (m : Mask) (bs : List ℕ)
    → (masked m bs ≡ (unmask_tail m bs).done) × (rotated m bs ≡ (unmask_tail m bs).mask)
unfolding unmask_tail masked rotated
unmask_tail_lem m [] = (refl, refl)
unmask_tail_lem m (b ∷ bs) = ground (arith, unmask_tail_lem (rotate m) bs)

-- At whatever address the buffer starts, unmask combines byte i with byte i mod 4 of the mask, and
-- leaves the mask turned by the number of bytes.
pub unmask-eq-masked :
    (addr : ℕ) (m : Mask) (bs : List ℕ) → unmask addr m bs ≡ (masked m bs, rotated m bs)
unfolding unmask
unmask-eq-masked addr m bs =
    let head = unmask_head addr m bs in
    let words = unmask_words head.mask head.left in
    ground (
      arith,
      unmask_head_lem addr m bs,
      unmask_words_lem head.mask head.left,
      unmask_tail_lem words.mask words.left,
    )

masked-append :
    (m : Mask) (as' bs : List ℕ)
    → (masked m (as' ++ bs) ≡ masked m as' ++ masked (rotated m as') bs)
      × (rotated m (as' ++ bs) ≡ rotated (rotated m as') bs)
unfolding masked rotated
masked-append m [] bs = (refl, refl)
masked-append m (a ∷ as') bs = ground (arith, masked-append (rotate m) as' bs)

-- A payload that arrives in two reads is unmasked as if it had come in one, if the second read goes
-- on with the mask that the first has left.
pub unmask-append :
    (addr addr₁ addr₂ : ℕ) (m : Mask) (as' bs : List ℕ)
    → let (front, m') = unmask addr₁ m as' in
      let (back, m'') = unmask addr₂ m' bs in unmask addr m (as' ++ bs) ≡ (front ++ back, m'')
unmask-append addr addr₁ addr₂ m as' bs = ground (
  arith,
  unmask-eq-masked addr₁ m as',
  unmask-eq-masked addr₂ (unmask addr₁ m as').1 bs,
  unmask-eq-masked addr m (as' ++ bs),
  masked-append m as' bs,
)

abbrev pub IsByte : ℕ → Type 0
IsByte b = b < 256

xor_table : every_under 256 (λ b. every_under 256 (λ k. bit_xor (bit_xor b k) k == b)) ≡ true
unfolding every_under
xor_table = refl

xor_twice : (b k : ℕ) → IsByte b → IsByte k → bit_xor (bit_xor b k) k ≡ b
xor_twice b k hb hk = ground (
  arith,
  every_under→ 256 (λ j. bit_xor (bit_xor b j) j == b) (every_under→ 256 _ xor_table b hb) k hk,
)

masked-masked :
    (m : Mask) (bs : List ℕ)
    → IsByte m.m₀
    → IsByte m.m₁
    → IsByte m.m₂
    → IsByte m.m₃
    → All IsByte bs
    → masked m (masked m bs) ≡ bs
unfolding masked rotate
masked-masked m [] h₀ h₁ h₂ h₃ all = refl
masked-masked m (b ∷ bs) h₀ h₁ h₂ h₃ (hb, all) =
    ap₂ ◌∷◌ (xor_twice b m.m₀ hb h₀) (masked-masked (rotate m) bs h₁ h₂ h₃ h₀ all)

-- Unmasking undoes masking: bytes that went through unmask with a mask of bytes, at any address, are
-- the bytes again once they have gone through it with that mask a second time, at any address.
pub unmask-unmask :
    (addr₁ addr₂ : ℕ) (m : Mask) (bs : List ℕ)
    → IsByte m.m₀
    → IsByte m.m₁
    → IsByte m.m₂
    → IsByte m.m₃
    → All IsByte bs
    → (unmask addr₂ m (unmask addr₁ m bs).0).0 ≡ bs
unmask-unmask addr₁ addr₂ m bs h₀ h₁ h₂ h₃ all =
    rw (unmask-eq-masked addr₁ m bs, unmask-eq-masked addr₂ m (masked m bs))
      (masked-masked m bs h₀ h₁ h₂ h₃ all)
