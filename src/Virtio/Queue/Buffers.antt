-- ===== src/Virtio/Queue/Buffers.antt =====
-- The copies into and out of a chain's buffer, `impl ChainBuf` of src/virtio/queue.rs, over the bytes of
-- host memory.
mod Tests
use tinyvmm.Prelude.{
  ℕ, ◌+◌, ◌-◌, ◌<◌, ◌≤◌, ◌≡◌, ◌⊎◌, List, ◌++◌, length, length-take, length-replicate, take,
  replicate, get_or, min, arith, ap, ◌∙◌, sym, refl,
}
use tinyvmm.Memory.{read_host, write_host}
use tinyvmm.Memory.Access.{read_host-write_host_self}
use tinyvmm.Virtio.Queue.Chain.{ChainBuf}

-- `self.len.saturating_sub(off).min(n)`
abbrev pub clipped : ChainBuf → ℕ → ℕ → ℕ
clipped buf off n = min (buf.len - off) n

-- The bytes copied into `dst` of length `n`, and how many.
unfoldable pub read_at : (ℕ → ℕ) → ChainBuf → ℕ → ℕ → List ℕ × ℕ
read_at b buf off n = (read_host b (buf.ptr + off) (clipped buf off n), clipped buf off n)

unfoldable pub write_at : (ℕ → ℕ) → ChainBuf → ℕ → List ℕ → (ℕ → ℕ) × ℕ
write_at b buf off src =
    let n = clipped buf off (length src) in (write_host b (buf.ptr + off) (take n src), n)

unfoldable pub extend_vec : (ℕ → ℕ) → ChainBuf → ℕ → ℕ → List ℕ → List ℕ × ℕ
extend_vec b buf off n out =
    (out ++ read_host b (buf.ptr + off) (clipped buf off n), clipped buf off n)

unfoldable pub fill_at : (ℕ → ℕ) → ChainBuf → ℕ → ℕ → ℕ → (ℕ → ℕ) × ℕ
fill_at b buf off n byte =
    (write_host b (buf.ptr + off) (replicate (clipped buf off n) byte), clipped buf off n)

write_host-outside :
    (b : ℕ → ℕ) (p : ℕ) (xs : List ℕ) (i : ℕ)
    → (i < p) ⊎ (p + length xs ≤ i)
    → write_host b p xs i ≡ b i
write_host-outside b p xs i h = ground arith

-- A copy into a buffer, at any offset and of any length, writes the first bytes of the source, as many
-- as the buffer has room for, so that reading them back gives them; no byte outside the buffer
-- changes, and a fill changes none either.
pub read_at-write_at :
    (b : ℕ → ℕ) (buf : ChainBuf) (off : ℕ) (src : List ℕ) (n byte i : ℕ)
    → (i < buf.ptr) ⊎ (buf.ptr + buf.len ≤ i)
    → let (b', count) = write_at b buf off src in
      (read_at b' buf off (length src) ≡ (take count src, count))
      × (count ≤ length src)
      × (b' i ≡ b i)
      × ((fill_at b buf off n byte).0 i ≡ b i)
unfolding read_at write_at fill_at
read_at-write_at b buf off src n byte i o =
    let count = clipped buf off (length src) in
    let fits : length (take count src) ≡ count = omega (arith, length-take count src) in
    let filled : length (replicate (clipped buf off n) byte) ≡ clipped buf off n =
      length-replicate (clipped buf off n) byte in
    (
      ap (λ bytes. (bytes, count))
          (ap (read_host (write_host b (buf.ptr + off) (take count src)) (buf.ptr + off)) (sym fits)
            ∙ read_host-write_host_self b (buf.ptr + off) (take count src)),
      omega arith,
      write_host-outside b (buf.ptr + off) (take count src) i (ground (arith, fits)),
      write_host-outside b (buf.ptr + off) (replicate (clipped buf off n) byte) i
          (ground (arith, filled)),
    )
