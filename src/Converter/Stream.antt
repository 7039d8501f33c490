-- ===== src/Converter/Stream.antt =====
-- The readers of pkg/mrt_converter/mrt_converter.go: `io.ReadFull` over the bytes that a reader
-- still yields and the error with which it ends.
use google_cloud_storage.Base.{
  ℕ, ◌+◌, ◌≤◌, ◌<◌, Bytes, [], ◌++◌, take, drop, length, length-append, length-drop, take_left,
  drop_left, ◌≡◌, leb, is_empty, if◌then◌else◌, arith,
}
use google_cloud_storage.Base.Result.{Error, eof, errorf, Result, ok, err}

pub record Stream : Type 0 where
  pub rest : Bytes
  -- `io.EOF`, or the error of a broken source.
  pub ending : Error

-- The error of a read that got some bytes and not all.
unfoldable pub cut_short : Error → Error
cut_short eof = errorf "unexpected EOF"
cut_short e = e

-- `io.ReadFull(r, buf)` for a buffer of `n` bytes.
unfoldable pub read_full : ℕ → Stream → Stream × Result Bytes
unfolding cut_short is_empty
read_full n s =
    if leb n (length s.rest)
    then (record s { rest = drop n s.rest }, ok (take n s.rest))
    else (record s { rest = [] }, err (if is_empty s.rest then s.ending else cut_short s.ending))

pub read_full-append :
    (n : ℕ) (b t : Bytes) (e : Error)
    → n ≡ length b
    → read_full n (record { rest = b ++ t; ending = e }) ≡ (record { rest = t; ending = e }, ok b)
unfolding read_full
read_full-append n b t e h = ground (arith, length-append b t, take_left n b t h, drop_left n b t h)

-- Too few bytes are an error, which is the stream's own only where no byte is left.
pub read_full_short :
    (n : ℕ) (s : Stream)
    → length s.rest < n
    → read_full n s
      ≡ (record s { rest = [] }, err (if is_empty s.rest then s.ending else cut_short s.ending))
unfolding read_full
read_full_short n s h = ground arith

-- A read that succeeds takes its bytes away.
pub length-read_full :
    (n : ℕ) (s : Stream) (b : Bytes)
    → (read_full n s).1 ≡ ok b
    → length (read_full n s).0.rest + n ≡ length s.rest
unfolding read_full
length-read_full n s b h = ground (arith, length-drop n s.rest)

pub length-read_full_le : (n : ℕ) (s : Stream) → length (read_full n s).0.rest ≤ length s.rest
unfolding read_full
length-read_full_le n s = ground (arith, length-drop n s.rest)
