-- ===== src/Http/Request/Chunked/Data.antt =====
-- What the guards of a chunk's data establish.
use servoxide.Prelude.{ℕ, ◌+◌, ◌≡◌, ◌≤◌, ◌<◌, ◌^◌, ◌%◌, ◌-◌, dec_lt, ◌++◌, arith, length, usize_mod}
use servoxide.Text.{Bytes, bytes_eq_iff, slice}
use servoxide.Http.Request.Search.{crlf}
use servoxide.Http.Request.Chunked.{chunk_data, next}

-- Of a chunk in bounds the data is taken, and the position moves behind its line end.
pub chunk_data-next :
    (max_body pos size : ℕ) (buf out : Bytes)
    → length buf < 2 ^ 63
    → pos + size + 2 ≤ length buf
    → slice buf (pos + size) (pos + size + 2) ≡ crlf
    → length out + size ≤ max_body
    → length out ≤ length buf
    → chunk_data max_body buf out pos size
      ≡ next (out ++ slice buf pos (pos + size)) (pos + size + 2)
unfolding chunk_data
chunk_data-next max_body pos size buf out small fits ends within small_out =
    let w1 : (pos + size) % usize_mod ≡ pos + size = omega arith in
    let w2 : (pos + size + 2) % usize_mod ≡ pos + size + 2 = omega arith in
    let w3 : (length out + size) % usize_mod ≡ length out + size = omega arith in
    rw (w1, w2, w3) (ground (arith, bytes_eq_iff (slice buf (pos + size) (pos + size + 2)) crlf))

-- A chunk that is passed over lay in bounds, whatever size the line stated.
pub record Passed (max_body pos size : ℕ) (buf out out' : Bytes) (pos' : ℕ) : Type 0 where
  pub in_bounds : pos + size + 2 ≤ length buf
  pub ends : slice buf (pos + size) (pos + size + 2) ≡ crlf
  pub within_limit : length out + size ≤ max_body
  pub grows : out' ≡ out ++ slice buf pos (pos + size)
  pub moves : pos' ≡ pos + size + 2

pub chunk_data-Passed :
    (max_body pos size : ℕ) (buf out out' : Bytes) (pos' : ℕ)
    → length buf < 2 ^ 63
    → length out ≤ length buf
    → pos ≤ length buf
    → 0 < size
    → size < usize_mod
    → chunk_data max_body buf out pos size ≡ next out' pos'
    → Passed max_body pos size buf out out' pos'
unfolding chunk_data
chunk_data-Passed max_body pos size buf out out' pos' small small_out at pos_size word h =
    elim (dec_lt (pos + size) usize_mod) [
      | yes fits ↦
          let w1 : (pos + size) % usize_mod ≡ pos + size = omega arith in
          let bound : pos + size ≤ length buf = ground arith in
          let w2 : (pos + size + 2) % usize_mod ≡ pos + size + 2 = omega arith in
          let w3 : (length out + size) % usize_mod ≡ length out + size = omega arith in
          let h' = rw (w1, w2, w3) at h in
          let same = bytes_eq_iff (slice buf (pos + size) (pos + size + 2)) crlf in
          record {
            in_bounds = ground arith;
            ends = ground (arith, same);
            within_limit = ground arith;
            grows = ground arith;
            moves = ground arith;
          }
      | no wraps ↦
          let w1 : (pos + size) % usize_mod ≡ pos + size - usize_mod = omega arith in
          absurd (ground arith)
    ]
