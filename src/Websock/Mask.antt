-- ===== src/Websock/Mask.antt =====
-- src/websock.c: unmask, which undoes the masking of the bytes of a client.
pub mod Chunks
use Prim.Native.Nat.{bit_xor}
use app_framework_binder.Base.{
  ℕ, ◌+◌, ◌%◌, Bool, true, false, List, [], ◌∷◌, ◌++◌, ◌==◌, if◌then◌else◌,
}

-- The four bytes of the mask, in the order of memory.
pub record Mask : Type 0 where
  pub m₀ : ℕ
  pub m₁ : ℕ
  pub m₂ : ℕ
  pub m₃ : ℕ

abbrev pub zero_mask : Mask
zero_mask = record { m₀ = 0; m₁ = 0; m₂ = 0; m₃ = 0 }

-- ws->mask != 0
abbrev pub is_zero : Mask → Bool
is_zero m =
    if m.m₀ == 0
    then (if m.m₁ == 0 then (if m.m₂ == 0 then m.m₃ == 0 else false) else false)
    else false

-- The mask after one byte.
unfoldable pub rotate : Mask → Mask
rotate m = record { m₀ = m.m₁; m₁ = m.m₂; m₂ = m.m₃; m₃ = m.m₀ }

-- What a loop has written, what is left of the buffer, and the mask.
pub record Progress : Type 0 where
  pub done : List ℕ
  pub left : List ℕ
  pub mask : Mask

-- The first loop of unmask: bytes up to an address that is a multiple of four.
unfoldable pub unmask_head : ℕ → Mask → List ℕ → Progress
unmask_head addr m [] = record { done = []; left = []; mask = m }
unmask_head addr m (b ∷ bs) =
    let rest = unmask_head (addr + 1) (rotate m) bs in
    if addr % 4 == 0
    then record { done = []; left = b ∷ bs; mask = m }
    else record rest { done = bit_xor b m.m₀ ∷ rest.done }

-- The second loop: words of four bytes.
unfoldable pub unmask_words : Mask → List ℕ → Progress
unmask_words m (b₀ ∷ b₁ ∷ b₂ ∷ b₃ ∷ bs) =
    let rest = unmask_words m bs in
    record rest {
      done = bit_xor b₀ m.m₀ ∷ bit_xor b₁ m.m₁ ∷ bit_xor b₂ m.m₂ ∷ bit_xor b₃ m.m₃ ∷ rest.done;
    }
unmask_words m bs = record { done = []; left = bs; mask = m }

-- The third loop: the bytes that are left.
unfoldable pub unmask_tail : Mask → List ℕ → Progress
unmask_tail m [] = record { done = []; left = []; mask = m }
unmask_tail m (b ∷ bs) =
    let rest = unmask_tail (rotate m) bs in record rest { done = bit_xor b m.m₀ ∷ rest.done }

-- unmask, on a buffer at an address: the buffer and the mask that is left for the next bytes.
unfoldable pub unmask : ℕ → Mask → List ℕ → List ℕ × Mask
unmask addr m bs =
    let head = unmask_head addr m bs in
    let words = unmask_words head.mask head.left in
    let tail = unmask_tail words.mask words.left in
    (head.done ++ (words.done ++ tail.done), tail.mask)
