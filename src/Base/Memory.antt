-- ===== src/Base/Memory.antt =====
-- Buffers as lists of bytes. An access past the end of a buffer is a fault.
use demo_iot_app_hw.Base.Tests.{leb, if◌then◌else◌}
use demo_iot_app_hw.Base.Lists.{
  length, take, drop, length-append, length-take, length-drop, take-append, drop-append,
}
use demo_iot_app_hw.Base.Runs.{Run, ok, fault}
use Prim.Native.Nat.{ℕ, suc, ◌+◌, ◌≤◌, ◌<◌}
use mathlib.Core.Path.{◌≡◌, ◌∙◌, ap}
use mathlib.Core.List.{List, [], ◌∷◌, ◌++◌}
use native.Mathlib.Omega.{arith}

-- The `n` bytes at `buf + off`.
pub region : List ℕ → ℕ → ℕ → Run (List ℕ)
region buf off n = if leb (off + n) (length buf) then ok (take n (drop off buf)) else fault

-- The buffer with `bytes` written at `buf + off`.
pub blit : List ℕ → ℕ → List ℕ → Run (List ℕ)
blit buf off bytes =
    if leb (off + length bytes) (length buf)
    then ok (take off buf ++ (bytes ++ drop (off + length bytes) buf))
    else fault

-- What `blit` writes where it fits.
abbrev pub overwrite : List ℕ → ℕ → List ℕ → List ℕ
overwrite buf off bytes = take off buf ++ (bytes ++ drop (off + length bytes) buf)

pub region-ok :
    (buf : List ℕ) (off n : ℕ)
    → off + n ≤ length buf
    → region buf off n ≡ ok (take n (drop off buf))
unfolding region
region-ok buf off n h = ground arith

pub region-fault : (buf : List ℕ) (off n : ℕ) → length buf < off + n → region buf off n ≡ fault
unfolding region
region-fault buf off n h = ground arith

pub blit-ok :
    (buf : List ℕ) (off : ℕ) (bytes : List ℕ)
    → off + length bytes ≤ length buf
    → blit buf off bytes ≡ ok (overwrite buf off bytes)
unfolding blit
blit-ok buf off bytes h = ground arith

pub blit-fault :
    (buf : List ℕ) (off : ℕ) (bytes : List ℕ)
    → length buf < off + length bytes
    → blit buf off bytes ≡ fault
unfolding blit
blit-fault buf off bytes h = ground arith

pub length-overwrite :
    (buf : List ℕ) (off : ℕ) (bytes : List ℕ)
    → off + length bytes ≤ length buf
    → length (overwrite buf off bytes) ≡ length buf
length-overwrite buf off bytes h = omega (
  arith,
  length-append (take off buf) (bytes ++ drop (off + length bytes) buf),
  length-append bytes (drop (off + length bytes) buf),
  length-take off buf,
  length-drop (off + length bytes) buf,
)

drop_past : (front old : List ℕ) (k : ℕ) → drop (length front + k) (front ++ old) ≡ drop k old
drop_past [] old k = let e : 0 + k ≡ k = omega arith in rw e
drop_past (x ∷ front) old k =
    let e : suc (length front) + k ≡ suc (length front + k) = omega arith in
    rw e (drop_past front old k)

-- A write behind `front` keeps it, and replaces as many bytes as are written.
pub overwrite-append :
    (front old bytes : List ℕ)
    → overwrite (front ++ old) (length front) bytes ≡ front ++ (bytes ++ drop (length bytes) old)
overwrite-append front old bytes = rw (take-append front old, drop_past front old (length bytes))

pub blit-append :
    (front old bytes : List ℕ)
    → length bytes ≤ length old
    → blit (front ++ old) (length front) bytes ≡ ok (front ++ (bytes ++ drop (length bytes) old))
blit-append front old bytes h =
    blit-ok (front ++ old) (length front) bytes (omega (arith, length-append front old))
    ∙ ap ok (overwrite-append front old bytes)

pub region-append :
    (front old : List ℕ) (n : ℕ)
    → n ≤ length old
    → region (front ++ old) (length front) n ≡ ok (take n old)
region-append front old n h =
    region-ok (front ++ old) (length front) n (omega (arith, length-append front old))
    ∙ ap ok (rw (drop-append front old))
